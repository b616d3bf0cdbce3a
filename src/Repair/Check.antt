-- ===== src/Repair/Check.antt =====
-- `checkAndUpdateRedisClusterStatus` of check_rediscluster.go: report the state of a settled cluster,
-- and take up what was left unfinished in any other.
use middleware_operator_mana.Base.{
  ◌-◌, ◌||◌, List, [], str_eq, some, if◌then◌else◌, ◌==◌, length, get_elem?,
}
use middleware_operator_mana.Errors.{Result, ok, err, Error, subsets_nil}
use middleware_operator_mana.Lifecycle.Endpoints.{subset_addresses, has_no_address, sort_endpoints}
use middleware_operator_mana.Lifecycle.Ready.{check_pods_ready, fail_with}
use middleware_operator_mana.Lifecycle.Create.{create_and_init}
use middleware_operator_mana.Lifecycle.Upgrade.{upgrade_redis_cluster}
use middleware_operator_mana.Outcome.{deref}
use middleware_operator_mana.Status.{update_redis_cluster_status}
use middleware_operator_mana.Types.{EndpointAddress, Endpoints, no_endpoints, RedisCluster}
use middleware_operator_mana.Types.Phase.{RedisClusterPhase}
use middleware_operator_mana.Types.Phase
use middleware_operator_mana.World.{Env, M, ◌>>=◌, pure, lift, on_error, on_list}
use middleware_operator_mana.Repair.Parts.{
  cluster_state_failed, repair_phase, old_addresses, with_addresses, is_settled,
}
use middleware_operator_mana.Repair.State.{get_clustered, report_state}
use middleware_operator_mana.Repair.Steps.{repair_creating, repair_upgrading}

module _ (env : Env) where
  -- The choice between the repairs, by the phase and by who is in a cluster.
  unfoldable pub repair_by :
      RedisClusterPhase
      → RedisCluster
      → Endpoints
      → List EndpointAddress
      → List EndpointAddress
      → List EndpointAddress
      → M (Result Error (Unit {0}))
  unfolding create_and_init repair_creating repair_upgrading old_addresses with_addresses
      upgrade_redis_cluster
  repair_by phase rc endpoints addresses clustered only_self = do
    replicas ← lift (deref rc.spec.replicas)
    on_list clustered (create_and_init env rc) λ existing _.
        if length only_self == replicas then create_and_init env rc else (do
          first ← lift (deref (get_elem? addresses 0))
          if str_eq phase Phase.creating
              then repair_creating env rc endpoints existing first.target
              else (do
                old ← lift (old_addresses addresses (length rc.status.conditions))
                if str_eq phase Phase.scaling
                      || length addresses - length rc.status.conditions == length only_self
                    then upgrade_redis_cluster env rc (with_addresses endpoints old)
                    else repair_upgrading env rc endpoints existing first.target))

  -- The switch over the phase.
  unfoldable pub repair : RedisCluster → M (Result Error (Unit {0}))
  unfolding check_pods_ready fail_with has_no_address sort_endpoints repair_phase get_clustered
      update_redis_cluster_status repair_by
  repair rc = do
    ready ← check_pods_ready env rc
    on_error ready (fail_with env rc no_endpoints Phase.failed) λ found.
        if has_no_address found then pure (err subsets_nil) else (do
          let endpoints = sort_endpoints found
          let phase = repair_phase rc
          addresses ← lift (subset_addresses endpoints)
          if str_eq phase Phase.creating
                || (str_eq phase Phase.scaling || str_eq phase Phase.upgrading)
              then (do
                r ← get_clustered env [] [] addresses
                on_error r
                    (λ e. do
                      _ ←
                          update_redis_cluster_status env rc (some endpoints) Phase.failed
                            cluster_state_failed
                      pure (err e))
                    λ known. repair_by phase rc endpoints addresses known.0 known.1)
              else pure (ok tt))

  -- `checkAndUpdateRedisClusterStatus`
  unfoldable pub check_and_update : RedisCluster → M (Result Error (Unit {0}))
  unfolding is_settled report_state repair
  check_and_update rc = do
    settled ← lift (is_settled rc)
    if settled then report_state env rc else repair rc
