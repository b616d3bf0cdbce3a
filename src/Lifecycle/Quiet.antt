-- ===== src/Lifecycle/Quiet.antt =====
-- Which calls the creation and the scaling of a cluster make.
use middleware_operator_mana.Base.{List, [], ◌∷◌, String}
use middleware_operator_mana.Commands.Quiet.{
  Looks, Grows, Tends, Reads, Reads-Tends, Looks-Grows, look_grow, create_cluster-Emits,
  exec_cluster_nodes-Emits, add_slave_to_cluster_master-Emits,
  add_master_node_to_redis_cluster-Emits, rebalance_slots-Emits, reshard_slots-Emits,
}
use middleware_operator_mana.Compose.{Composition}
use middleware_operator_mana.Errors.{Result, Error, Command}
use middleware_operator_mana.Lifecycle.Create.{init_cluster, create_and_init}
use middleware_operator_mana.Lifecycle.Ready.{
  no_subset, all_addressed, pods_ready, check_pods_ready, fail_with, mark_running,
}
use middleware_operator_mana.Lifecycle.Upgrade.{
  join_instances, scale_redis_cluster, assign_slots, auto_assign, manual_assign, upgrade_by,
  upgrade_redis_cluster,
}
use middleware_operator_mana.Status.Quiet.{update_redis_cluster_status-Emits}
use middleware_operator_mana.Types.{EndpointSubset, Endpoints, ObjectReference, RedisCluster}
use middleware_operator_mana.Types.Phase.{RedisClusterPhase}
use middleware_operator_mana.World.{Env, Event, executed, M}
use middleware_operator_mana.World.Emits.{Emits, emits_rules}

module _ (env : Env) {P : Event → Type 0} (reads : (e : Event) → Reads e → P e) where
  no_subset-Emits : (rc : RedisCluster) → Emits P (no_subset env rc)
  unfolding no_subset
  no_subset-Emits rc = search (emits_rules, reads) depth 12

  all_addressed-Emits :
      (rc : RedisCluster) (endpoints : Endpoints) (subsets : List EndpointSubset)
      → Emits P (all_addressed env rc endpoints subsets)
  unfolding all_addressed
  all_addressed-Emits rc endpoints [] = search emits_rules
  all_addressed-Emits rc endpoints (subset ∷ _) = search emits_rules

  pods_ready-Emits : (rc : RedisCluster) → Emits P (pods_ready env rc)
  unfolding pods_ready
  pods_ready-Emits rc = search (emits_rules, reads, no_subset-Emits, all_addressed-Emits) depth 12

  pub check_pods_ready-Emits : (rc : RedisCluster) → Emits P (check_pods_ready env rc)
  unfolding check_pods_ready
  check_pods_ready-Emits rc = search (emits_rules, pods_ready-Emits)

module _ (env : Env) {Allowed : Command → Type 0}
    (looks : (c : Command) → Looks c → Allowed c) where
  pub fail_with-Emits :
      (rc : RedisCluster) (endpoints : Endpoints) (phase : RedisClusterPhase) (e : Error)
      → Emits (Tends Allowed) (fail_with env rc endpoints phase e)
  unfolding fail_with
  fail_with-Emits rc endpoints phase e =
      search (emits_rules, update_redis_cluster_status-Emits env looks)

  pub mark_running-Emits :
      (rc : RedisCluster) (endpoints : Endpoints)
      → Emits (Tends Allowed) (mark_running env rc endpoints)
  unfolding mark_running
  mark_running-Emits rc endpoints =
      search (emits_rules, update_redis_cluster_status-Emits env looks)

module _ (env : Env) {Allowed : Command → Type 0} (all : (c : Command) → Allowed c) where
  abbrev look : (pod : ObjectReference) (c : Command) → Looks c → Tends Allowed (executed pod c)
  look pod c h = all c

  abbrev grow : (pod : ObjectReference) (c : Command) → Grows c → Tends Allowed (executed pod c)
  grow pod c h = all c

  init_cluster-Emits :
      (rc : RedisCluster) (endpoints : Endpoints) (pod : ObjectReference)
      (master_ips slave_ips : List String)
      → Emits (Tends Allowed) (init_cluster env rc endpoints pod master_ips slave_ips)
  unfolding init_cluster
  init_cluster-Emits rc endpoints pod master_ips slave_ips =
      search
        (
          emits_rules,
          create_cluster-Emits env {P = Tends Allowed},
          all,
          fail_with-Emits env {Allowed = Allowed} (λ c _. all c),
          mark_running-Emits env {Allowed = Allowed} (λ c _. all c),
          exec_cluster_nodes-Emits env {P = Tends Allowed} look,
          add_slave_to_cluster_master-Emits env {P = Tends Allowed} grow,
        )
        depth 20

  pub create_and_init-Emits : (rc : RedisCluster) → Emits (Tends Allowed) (create_and_init env rc)
  unfolding create_and_init
  create_and_init-Emits rc =
      search
        (
          emits_rules,
          check_pods_ready-Emits env (Reads-Tends Allowed),
          fail_with-Emits env {Allowed = Allowed} (λ c _. all c),
          init_cluster-Emits,
        )
        depth 20

module _ (env : Env) {P : Event → Type 0}
    (grow : (pod : ObjectReference) (command : Command)
      → Grows command
      → P (executed pod command)) where
  join_instances-Emits :
      (exist_ip : String) (pod : ObjectReference) (exist_ips : List String) (roles : Composition)
      → Emits P (join_instances env exist_ip pod exist_ips roles)
  unfolding join_instances
  join_instances-Emits exist_ip pod exist_ips roles =
      search
        (
          emits_rules,
          add_master_node_to_redis_cluster-Emits env {P = P} grow,
          exec_cluster_nodes-Emits env {P = P} (look_grow P grow),
          add_slave_to_cluster_master-Emits env {P = P} grow,
        )
        depth 20

  pub scale_redis_cluster-Emits :
      (endpoints old : Endpoints) → Emits P (scale_redis_cluster env endpoints old)
  unfolding scale_redis_cluster
  scale_redis_cluster-Emits endpoints old =
      search
        (emits_rules, exec_cluster_nodes-Emits env {P = P} (look_grow P grow), join_instances-Emits)
        depth 20

module _ (env : Env) {Allowed : Command → Type 0}
    (grows : (c : Command) → Grows c → Allowed c) where
  abbrev grown : (pod : ObjectReference) (c : Command) → Grows c → Tends Allowed (executed pod c)
  grown pod c h = grows c h

  abbrev pub looks_of : (c : Command) → Looks c → Allowed c
  looks_of c h = grows c (Looks-Grows c h)

  abbrev looked : (pod : ObjectReference) (c : Command) → Looks c → Tends Allowed (executed pod c)
  looked pod c h = looks_of c h

  assign_slots-Emits :
      (rc : RedisCluster) (endpoints old : Endpoints) (looked_in : ObjectReference → String)
      (hand_out : String → ObjectReference → List String → M (Result Error (Unit {0})))
      → ((ip : String) (pod : ObjectReference) (ids : List String)
          → Emits (Tends Allowed) (hand_out ip pod ids))
      → Emits (Tends Allowed) (assign_slots env rc endpoints old looked_in hand_out)
  unfolding assign_slots
  assign_slots-Emits rc endpoints old looked_in hand_out handed =
      search
        (
          emits_rules,
          scale_redis_cluster-Emits env {P = Tends Allowed} grown,
          handed,
          fail_with-Emits env {Allowed = Allowed} looks_of,
          mark_running-Emits env {Allowed = Allowed} looks_of,
          exec_cluster_nodes-Emits env {P = Tends Allowed} looked,
        )
        depth 20

  upgrade_by-Emits :
      (type : String) (rc : RedisCluster) (endpoints old : Endpoints)
      → Emits (Tends Allowed) (upgrade_by env type rc endpoints old)
  unfolding upgrade_by auto_assign manual_assign
  upgrade_by-Emits type rc endpoints old =
      search
        (
          emits_rules,
          assign_slots-Emits,
          rebalance_slots-Emits env {P = Tends Allowed} grown,
          reshard_slots-Emits env {P = Tends Allowed} grown,
        )
        depth 20

  pub upgrade_redis_cluster-Emits :
      (rc : RedisCluster) (old : Endpoints)
      → Emits (Tends Allowed) (upgrade_redis_cluster env rc old)
  unfolding upgrade_redis_cluster
  upgrade_redis_cluster-Emits rc old =
      search
        (
          emits_rules,
          check_pods_ready-Emits env (Reads-Tends Allowed),
          fail_with-Emits env {Allowed = Allowed} looks_of,
          update_redis_cluster_status-Emits env {Allowed = Allowed} looks_of,
          upgrade_by-Emits,
        )
        depth 20
