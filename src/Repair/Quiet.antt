-- ===== src/Repair/Quiet.antt =====
-- Which calls the check and the repair of a cluster make.
use middleware_operator_mana.Base.{List, [], ◌∷◌, ◌++◌, String}
use middleware_operator_mana.Commands.Quiet.{
  Looks, Grows, Tends, Reads-Tends, exec_cluster_info-Emits, exec_cluster_nodes-Emits,
  exec_redis_trib_info-Emits, add_slave_to_cluster_master-Emits,
  add_master_node_to_redis_cluster-Emits, rebalance_slots-Emits, reshard_slots-Emits,
}
use middleware_operator_mana.Compose.{Composition}
use middleware_operator_mana.Errors.{ok, err, Command}
use middleware_operator_mana.Lifecycle.Quiet.{
  check_pods_ready-Emits, fail_with-Emits, create_and_init-Emits, upgrade_redis_cluster-Emits,
}
use middleware_operator_mana.Repair.Check.{repair_by, repair, check_and_update}
use middleware_operator_mana.Repair.State.{get_clustered, mark_running_checked, report_state}
use middleware_operator_mana.Repair.Steps.{
  rejoin, join_missing, repair_creating, assign_missing_slots, repair_upgrading,
}
use middleware_operator_mana.Status.Quiet.{update_redis_cluster_status-Emits}
use middleware_operator_mana.Types.{EndpointAddress, Endpoints, ObjectReference, RedisCluster}
use middleware_operator_mana.Types.Phase.{RedisClusterPhase}
use middleware_operator_mana.World.{Env, Event, executed}
use middleware_operator_mana.World.Emits.{
  Emits, Emits-pure, Emits-if, Emits-bind, Emits-on_error, emits_rules,
}

module _ (env : Env) {P : Event → Type 0}
    (look : (pod : ObjectReference) (command : Command)
      → Looks command
      → P (executed pod command)) where
  pub get_clustered-Emits :
      (clustered only_self addrs : List EndpointAddress)
      → Emits P (get_clustered env clustered only_self addrs)
  unfolding get_clustered
  get_clustered-Emits clustered only_self [] = search emits_rules
  get_clustered-Emits clustered only_self (addr ∷ addrs) =
      Emits-bind _ _ (exec_cluster_info-Emits env {P = P} look addr.ip addr.target) (λ r.
        Emits-on_error r _ _ (λ e. Emits-pure (err e))
          (λ info. Emits-if _ _ _ (Emits-pure (ok ([], []))) (
            Emits-if _ _ _ (get_clustered-Emits (clustered ++ addr ∷ []) only_self addrs)
              (get_clustered-Emits clustered (only_self ++ addr ∷ []) addrs))))

module _ (env : Env) {Allowed : Command → Type 0}
    (looks : (c : Command) → Looks c → Allowed c) where
  abbrev look : (pod : ObjectReference) (c : Command) → Looks c → Tends Allowed (executed pod c)
  look pod c h = looks c h

  mark_running_checked-Emits :
      (rc : RedisCluster) (endpoints : Endpoints)
      → Emits (Tends Allowed) (mark_running_checked env rc endpoints)
  unfolding mark_running_checked
  mark_running_checked-Emits rc endpoints =
      search (emits_rules, update_redis_cluster_status-Emits env {Allowed = Allowed} looks)

  pub report_state-Emits : (rc : RedisCluster) → Emits (Tends Allowed) (report_state env rc)
  unfolding report_state
  report_state-Emits rc =
      search
        (
          emits_rules,
          exec_cluster_info-Emits env {P = Tends Allowed} look,
          fail_with-Emits env {Allowed = Allowed} looks,
          update_redis_cluster_status-Emits env {Allowed = Allowed} looks,
          mark_running_checked-Emits,
        )
        depth 24

module _ (env : Env) {Allowed : Command → Type 0} (all : (c : Command) → Allowed c) where
  abbrev looks_all : (c : Command) → Looks c → Allowed c
  looks_all c h = all c

  abbrev look_all : (pod : ObjectReference) (c : Command) → Looks c → Tends Allowed (executed pod c)
  look_all pod c h = all c

  abbrev grow_all : (pod : ObjectReference) (c : Command) → Grows c → Tends Allowed (executed pod c)
  grow_all pod c h = all c

  rejoin-Emits :
      (phase : RedisClusterPhase) (rc : RedisCluster) (endpoints : Endpoints) (exist_ip : String)
      (pod : ObjectReference) (roles : Composition)
      → Emits (Tends Allowed) (rejoin env phase rc endpoints exist_ip pod roles)
  unfolding rejoin
  rejoin-Emits phase rc endpoints exist_ip pod roles =
      search
        (
          emits_rules,
          add_master_node_to_redis_cluster-Emits env {P = Tends Allowed} grow_all,
          exec_cluster_nodes-Emits env {P = Tends Allowed} look_all,
          add_slave_to_cluster_master-Emits env {P = Tends Allowed} grow_all,
          fail_with-Emits env {Allowed = Allowed} looks_all,
        )
        depth 20

  join_missing-Emits :
      (phase : RedisClusterPhase) (rc : RedisCluster) (endpoints : Endpoints)
      (existing : EndpointAddress) (pod : ObjectReference)
      → Emits (Tends Allowed) (join_missing env phase rc endpoints existing pod)
  unfolding join_missing
  join_missing-Emits phase rc endpoints existing pod =
      search
        (
          emits_rules,
          exec_cluster_nodes-Emits env {P = Tends Allowed} look_all,
          fail_with-Emits env {Allowed = Allowed} looks_all,
          rejoin-Emits,
        )
        depth 20

  repair_creating-Emits :
      (rc : RedisCluster) (endpoints : Endpoints) (existing : EndpointAddress)
      (pod : ObjectReference)
      → Emits (Tends Allowed) (repair_creating env rc endpoints existing pod)
  unfolding repair_creating
  repair_creating-Emits rc endpoints existing pod =
      search
        (
          emits_rules,
          join_missing-Emits,
          rebalance_slots-Emits env {P = Tends Allowed} grow_all,
          fail_with-Emits env {Allowed = Allowed} looks_all,
          mark_running_checked-Emits env {Allowed = Allowed} looks_all,
        )
        depth 20

  assign_missing_slots-Emits :
      (rc : RedisCluster) (endpoints : Endpoints) (existing : EndpointAddress)
      (pod : ObjectReference)
      → Emits (Tends Allowed) (assign_missing_slots env rc endpoints existing pod)
  unfolding assign_missing_slots
  assign_missing_slots-Emits rc endpoints existing pod =
      search
        (
          emits_rules,
          exec_redis_trib_info-Emits env {P = Tends Allowed} look_all,
          exec_cluster_nodes-Emits env {P = Tends Allowed} look_all,
          reshard_slots-Emits env {P = Tends Allowed} grow_all,
          fail_with-Emits env {Allowed = Allowed} looks_all,
        )
        depth 20

  repair_upgrading-Emits :
      (rc : RedisCluster) (endpoints : Endpoints) (existing : EndpointAddress)
      (pod : ObjectReference)
      → Emits (Tends Allowed) (repair_upgrading env rc endpoints existing pod)
  unfolding repair_upgrading
  repair_upgrading-Emits rc endpoints existing pod =
      search
        (
          emits_rules,
          join_missing-Emits,
          assign_missing_slots-Emits,
          rebalance_slots-Emits env {P = Tends Allowed} grow_all,
          fail_with-Emits env {Allowed = Allowed} looks_all,
          mark_running_checked-Emits env {Allowed = Allowed} looks_all,
        )
        depth 20

  repair_by-Emits :
      (phase : RedisClusterPhase) (rc : RedisCluster) (endpoints : Endpoints)
      (addresses clustered only_self : List EndpointAddress)
      → Emits (Tends Allowed) (repair_by env phase rc endpoints addresses clustered only_self)
  unfolding repair_by
  repair_by-Emits phase rc endpoints addresses clustered only_self =
      search
        (
          emits_rules,
          create_and_init-Emits env {Allowed = Allowed} all,
          upgrade_redis_cluster-Emits env {Allowed = Allowed} (λ c _. all c),
          repair_creating-Emits,
          repair_upgrading-Emits,
        )
        depth 20

  repair-Emits : (rc : RedisCluster) → Emits (Tends Allowed) (repair env rc)
  unfolding repair
  repair-Emits rc =
      search
        (
          emits_rules,
          check_pods_ready-Emits env (Reads-Tends Allowed),
          fail_with-Emits env {Allowed = Allowed} looks_all,
          get_clustered-Emits env {P = Tends Allowed} look_all,
          update_redis_cluster_status-Emits env {Allowed = Allowed} looks_all,
          repair_by-Emits,
        )
        depth 20

  pub check_and_update-Emits : (rc : RedisCluster) → Emits (Tends Allowed) (check_and_update env rc)
  unfolding check_and_update
  check_and_update-Emits rc =
      search (emits_rules, report_state-Emits env {Allowed = Allowed} looks_all, repair-Emits)
