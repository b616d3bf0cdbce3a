-- ===== src/Lifecycle/Upgrade.antt =====
-- `scaleRedisCluster`, `upgradeRedisCluster` and the two ways to hand slots to new masters
-- (sync_rediscluster.go).
use middleware_operator_mana.Base.{
  not, ◌||◌, List, map, String, str_eq, none, if◌then◌else◌, ◌==◌, length, get_elem?,
}
use middleware_operator_mana.Commands.{
  exec_cluster_nodes, add_slave_to_cluster_master, add_master_node_to_redis_cluster,
  rebalance_slots, reshard_slots,
}
use middleware_operator_mana.Compose.{Composition, build_will_add}
use middleware_operator_mana.Errors.{
  Result, ok, err, Error, subsets_nil, old_endpoints_empty, addresses_empty, cluster_status_error,
  strategy_type_error, upgrade_auto, upgrade_manual,
}
use middleware_operator_mana.Outcome.{Outcome, done, panic, deref}
use middleware_operator_mana.Outcome
use middleware_operator_mana.Status.{update_redis_cluster_status}
use middleware_operator_mana.Types.{
  Endpoints, no_endpoints, ObjectReference, RedisCluster, assign_receive, auto_receive,
}
use middleware_operator_mana.Types.Phase.{RedisClusterPhase}
use middleware_operator_mana.Types.Phase
use middleware_operator_mana.World.{Env, M, ◌>>=◌, pure, lift, on_error, on_option}
use middleware_operator_mana.Lifecycle.Endpoints.{
  subset_addresses, has_no_address, sort_endpoints, node_ids_containing,
}
use middleware_operator_mana.Lifecycle.Ready.{check_pods_ready, fail_with, mark_running}

module _ (env : Env) where
  -- `currentRedisClusterInfo`: the IPs of the instances before the upgrade.
  unfoldable pub current_info : Endpoints → Endpoints → Outcome (Result Error (List String))
  current_info endpoints old = Outcome.◌>>=◌ (subset_addresses old) λ old_addresses.
      Outcome.◌>>=◌ (subset_addresses endpoints) λ addresses. done (
        if length addresses == 0 || length old_addresses == 0
        then err addresses_empty
        else ok (map (λ a. a.ip) old_addresses))

  -- `scaleRedisCluster` from the line where the joining instances have their roles.
  unfoldable pub join_instances :
      String
      → ObjectReference
      → List String
      → Composition
      → M (Result Error (List String × List String))
  unfolding add_master_node_to_redis_cluster exec_cluster_nodes node_ids_containing
      add_slave_to_cluster_master
  join_instances exist_ip pod exist_ips roles = do
    added ← add_master_node_to_redis_cluster env roles.master_ips exist_ip pod
    on_error added (λ e. pure (err e))
        λ _. do
          listed ← exec_cluster_nodes env exist_ip pod
          on_error listed (λ e. pure (err e))
              λ infos. do
                let node_ids = node_ids_containing roles.master_ips infos
                if not (length node_ids == length roles.master_ips)
                    then pure (err cluster_status_error)
                    else (do
                      slaved ←
                          add_slave_to_cluster_master env roles.slave_ips roles.master_ips node_ids
                            pod
                      on_error slaved (λ e. pure (err e)) λ _. pure (ok (exist_ips, node_ids)))

  -- `scaleRedisCluster`
  unfoldable pub scale_redis_cluster :
      Endpoints → Endpoints → M (Result Error (List String × List String))
  unfolding current_info build_will_add join_instances exec_cluster_nodes
  scale_redis_cluster endpoints old = on_option endpoints.subsets (pure (err subsets_nil)) λ _. do
    addresses ← lift (subset_addresses endpoints)
    first ← lift (deref (get_elem? addresses 0))
    current ← lift (current_info endpoints old)
    on_error current (λ e. pure (err e))
        λ exist_ips. do
          exist_ip ← lift (deref (get_elem? exist_ips 0))
          listed ← exec_cluster_nodes env exist_ip first.target
          on_error listed (λ e. pure (err e))
              λ infos. do
                built ← lift (build_will_add infos endpoints)
                on_error built (λ e. pure (err e))
                    λ roles. join_instances exist_ip first.target exist_ips roles

  -- What `autoAssignSlotToRedisCluster` and `manualAssignSlotToRedisCluster` share: they scale, hand
  -- out slots, look at the nodes once more in the namespace `looked_in`, and mark the cluster Running.
  unfoldable pub assign_slots :
      RedisCluster
      → Endpoints
      → Endpoints
      → (ObjectReference → String)
      → (String → ObjectReference → List String → M (Result Error (Unit {0})))
      → M (Result Error (Unit {0}))
  unfolding scale_redis_cluster fail_with mark_running exec_cluster_nodes
  assign_slots rc endpoints old looked_in hand_out = do
    scaled ← scale_redis_cluster endpoints old
    on_error scaled (fail_with env rc endpoints Phase.running) λ ips. do
      addresses ← lift (subset_addresses endpoints)
      first ← lift (deref (get_elem? addresses 0))
      exist_ip ← lift (deref (get_elem? ips.0 0))
      handed ← hand_out exist_ip first.target ips.1
      on_error handed (fail_with env rc endpoints Phase.running) λ _. do
        looked ←
            exec_cluster_nodes env exist_ip
              (record { name = first.target.name; namespace = looked_in first.target })
        on_error looked (λ e. pure (err e)) λ _. mark_running env rc endpoints

  -- `autoAssignSlotToRedisCluster`
  unfoldable pub auto_assign : RedisCluster → Endpoints → Endpoints → M (Result Error (Unit {0}))
  unfolding assign_slots rebalance_slots
  auto_assign rc endpoints old =
      assign_slots rc endpoints old (λ pod. pod.namespace)
        (λ exist_ip pod node_ids. rebalance_slots env exist_ip pod rc.spec.update_strategy.pipeline)

  -- `manualAssignSlotToRedisCluster`
  unfoldable pub manual_assign : RedisCluster → Endpoints → Endpoints → M (Result Error (Unit {0}))
  unfolding assign_slots reshard_slots
  manual_assign rc endpoints old =
      assign_slots rc endpoints old (λ pod. rc.namespace)
        (λ exist_ip pod node_ids. reshard_slots env rc.spec.update_strategy exist_ip pod node_ids)

  -- The switch of `upgradeRedisCluster` over the strategy.
  unfoldable pub upgrade_by :
      String → RedisCluster → Endpoints → Endpoints → M (Result Error (Unit {0}))
  unfolding auto_assign manual_assign
  upgrade_by type rc endpoints old =
      if str_eq type auto_receive
      then (do
        r ← auto_assign rc endpoints old
        on_error r (λ e. pure (err (upgrade_auto e))) λ _. pure (ok tt))
      else if str_eq type assign_receive
      then (do
        r ← manual_assign rc endpoints old
        on_error r (λ e. pure (err (upgrade_manual e))) λ _. pure (ok tt))
      else pure (err (strategy_type_error type))

  -- `upgradeRedisCluster`
  unfoldable pub upgrade_redis_cluster : RedisCluster → Endpoints → M (Result Error (Unit {0}))
  unfolding has_no_address check_pods_ready fail_with update_redis_cluster_status sort_endpoints
      upgrade_by
  upgrade_redis_cluster rc old = if has_no_address old then pure (err old_endpoints_empty) else (do
    ready ← check_pods_ready env rc
    on_error ready (fail_with env rc no_endpoints Phase.running) λ endpoints. do
      updated ← update_redis_cluster_status env rc none Phase.upgrading ""
      on_option updated.error
          (upgrade_by updated.returned.spec.update_strategy.type updated.returned
            (sort_endpoints endpoints) (sort_endpoints old))
          λ e. pure (err e))
