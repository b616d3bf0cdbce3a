-- ===== src/Repair/Steps.antt =====
-- The repairs of `checkAndUpdateRedisClusterStatus` (check_rediscluster.go) for a cluster that some of
-- the instances form.
use middleware_operator_mana.Base.{◌-◌, [], ◌∷◌, String, str_eq, if◌then◌else◌, ltb, length, drop}
use middleware_operator_mana.Commands.{
  exec_cluster_nodes, exec_redis_trib_info, add_slave_to_cluster_master,
  add_master_node_to_redis_cluster, rebalance_slots, reshard_slots,
}
use middleware_operator_mana.Compose.{Composition, build_will_add}
use middleware_operator_mana.Errors.{
  Result, ok, err, Error, too_few_strategies, strategy_type_error,
}
use middleware_operator_mana.Lifecycle.Endpoints.{node_ids_of}
use middleware_operator_mana.Lifecycle.Ready.{fail_with}
use middleware_operator_mana.Types.{
  EndpointAddress, Endpoints, ObjectReference, RedisCluster, assign_receive, auto_receive,
}
use middleware_operator_mana.Types.Phase.{RedisClusterPhase}
use middleware_operator_mana.Types.Phase
use middleware_operator_mana.World.{Env, M, ◌>>=◌, pure, lift, on_error, on_list}
use middleware_operator_mana.Repair.Parts.{empty_masters, all_ids_of}
use middleware_operator_mana.Repair.State.{mark_running_checked}

module _ (env : Env) where
  -- The instances that are not in the cluster join it: masters, then slaves. `phase` is what the
  -- status gets when a command fails.
  unfoldable pub rejoin :
      RedisClusterPhase
      → RedisCluster
      → Endpoints
      → String
      → ObjectReference
      → Composition
      → M (Result Error (Unit {0}))
  unfolding add_master_node_to_redis_cluster exec_cluster_nodes node_ids_of
      add_slave_to_cluster_master fail_with
  rejoin phase rc endpoints exist_ip pod roles = do
    added ← add_master_node_to_redis_cluster env roles.master_ips exist_ip pod
    on_error added (fail_with env rc endpoints phase) λ _. do
      listed ← exec_cluster_nodes env exist_ip pod
      on_error listed (fail_with env rc endpoints phase) λ infos.
          on_list roles.slave_ips (pure (ok tt)) λ _ _. do
            slaved ←
                add_slave_to_cluster_master env roles.slave_ips roles.parent_ips
                  (node_ids_of roles.parent_ips infos) pod
            on_error slaved (fail_with env rc endpoints phase) λ _. pure (ok tt)

  -- The nodes as `existing` sees them, and the roles of the others; the error of
  -- `buildWillAddClusterMasterSlaveIPs` is overwritten, and leaves the slices nil.
  unfoldable pub join_missing :
      RedisClusterPhase
      → RedisCluster
      → Endpoints
      → EndpointAddress
      → ObjectReference
      → M (Result Error (Unit {0}))
  unfolding exec_cluster_nodes build_will_add rejoin fail_with
  join_missing phase rc endpoints existing pod = do
    listed ← exec_cluster_nodes env existing.ip existing.target
    on_error listed (fail_with env rc endpoints phase) λ infos. do
      built ← lift (build_will_add infos endpoints)
      rejoin phase rc endpoints existing.ip pod (elim built [
        | ok roles ↦ roles
        | err e ↦ record { master_ips = []; slave_ips = []; parent_ips = [] }
      ])

  -- The case Creating, once some instances are known to form a cluster.
  unfoldable pub repair_creating :
      RedisCluster → Endpoints → EndpointAddress → ObjectReference → M (Result Error (Unit {0}))
  unfolding join_missing rebalance_slots fail_with mark_running_checked
  repair_creating rc endpoints existing pod = do
    joined ← join_missing Phase.failed rc endpoints existing pod
    on_error joined (λ e. pure (err e))
        λ _. do
          balanced ← rebalance_slots env existing.ip pod ""
          on_error balanced (fail_with env rc endpoints Phase.failed)
              λ _. mark_running_checked env rc endpoints

  -- Slots for the masters that have none, by the last strategies.
  unfoldable pub assign_missing_slots :
      RedisCluster → Endpoints → EndpointAddress → ObjectReference → M (Result Error (Unit {0}))
  unfolding exec_redis_trib_info empty_masters exec_cluster_nodes all_ids_of reshard_slots fail_with
  assign_missing_slots rc endpoints existing pod = do
    r ← exec_redis_trib_info env existing.ip pod
    on_error r (fail_with env rc endpoints Phase.running) λ infos.
        on_list (empty_masters infos) (pure (ok tt)) λ ip ips. do
          let strategies = rc.spec.update_strategy.assign_strategies
          if ltb (length strategies) (length (ip ∷ ips))
              then fail_with env rc endpoints Phase.running too_few_strategies
              else (do
                listed ← exec_cluster_nodes env existing.ip pod
                on_error listed (fail_with env rc endpoints Phase.running) λ nodes. do
                  moved ←
                      reshard_slots env
                        (record rc.spec.update_strategy {
                          assign_strategies =
                              drop (length strategies - length (ip ∷ ips)) strategies;
                        })
                        existing.ip pod (all_ids_of (ip ∷ ips) nodes)
                  on_error moved (fail_with env rc endpoints Phase.running) λ _. pure (ok tt))

  -- The case Upgrading, once some new instances are known to have joined.
  unfoldable pub repair_upgrading :
      RedisCluster → Endpoints → EndpointAddress → ObjectReference → M (Result Error (Unit {0}))
  unfolding join_missing rebalance_slots assign_missing_slots fail_with mark_running_checked
  repair_upgrading rc endpoints existing pod = do
    joined ← join_missing Phase.running rc endpoints existing pod
    on_error joined (λ e. pure (err e))
        λ _. do
          let strategy = rc.spec.update_strategy
          if str_eq strategy.type auto_receive
              then (do
                balanced ← rebalance_slots env existing.ip pod strategy.pipeline
                on_error balanced (fail_with env rc endpoints Phase.running)
                    λ _. mark_running_checked env rc endpoints)
              else if str_eq strategy.type assign_receive
              then (do
                assigned ← assign_missing_slots rc endpoints existing pod
                on_error assigned (λ e. pure (err e)) λ _. mark_running_checked env rc endpoints)
              else pure (err (strategy_type_error strategy.type))
