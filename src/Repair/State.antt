-- ===== src/Repair/State.antt =====
-- The state of a cluster (check_rediscluster.go): who is in it, and the report on a settled one.
use middleware_operator_mana.Base.{
  not, ◌&&◌, List, [], ◌∷◌, ◌++◌, str_eq, none, some, if◌then◌else◌, get_elem?,
}
use middleware_operator_mana.Commands.{exec_cluster_info}
use middleware_operator_mana.Errors.{
  Result, ok, err, Error, api, get_endpoints_error, endpoints_blank,
}
use middleware_operator_mana.Lifecycle.Endpoints.{subset_addresses, has_no_address, sort_endpoints}
use middleware_operator_mana.Lifecycle.Ready.{fail_with}
use middleware_operator_mana.Outcome.{deref}
use middleware_operator_mana.Status.{update_redis_cluster_status, get_endpoints}
use middleware_operator_mana.Types.{EndpointAddress, Endpoints, RedisCluster}
use middleware_operator_mana.Types.Phase.{RedisClusterPhase}
use middleware_operator_mana.Types.Phase
use middleware_operator_mana.World.{Env, M, ◌>>=◌, pure, lift, on_error}
use middleware_operator_mana.Repair.Parts.{cluster_state_failed}

module _ (env : Env) where
  -- `getIsClusteredAndOnlyKnownSelfAddress`. An instance that knows others and whose state is not ok
  -- ends the loop with nil for both slices, and for the error.
  unfoldable pub get_clustered :
      List EndpointAddress
      → List EndpointAddress
      → List EndpointAddress
      → M (Result Error (List EndpointAddress × List EndpointAddress))
  unfolding exec_cluster_info
  get_clustered clustered only_self [] = pure (ok (clustered, only_self))
  get_clustered clustered only_self (addr ∷ addrs) = do
    r ← exec_cluster_info env addr.ip addr.target
    on_error r (λ e. pure (err e))
        λ info.
          if not info.1 && not info.0
          then pure (ok ([], []))
          else if not info.1 && info.0
          then get_clustered (clustered ++ addr ∷ []) only_self addrs
          else get_clustered clustered (only_self ++ addr ∷ []) addrs

  -- A write of the status whose error is returned.
  unfoldable pub mark_running_checked : RedisCluster → Endpoints → M (Result Error (Unit {0}))
  unfolding update_redis_cluster_status
  mark_running_checked rc endpoints = do
    updated ← update_redis_cluster_status env rc (some endpoints) Phase.running ""
    pure (elim updated.error [ some e ↦ err e | none ↦ ok tt ])

  -- A settled cluster: Running if `cluster info` says ok, else Failed.
  unfoldable pub report_state : RedisCluster → M (Result Error (Unit {0}))
  unfolding has_no_address sort_endpoints exec_cluster_info fail_with update_redis_cluster_status
      mark_running_checked
  report_state rc = do
    got ← get_endpoints env rc.namespace rc.name
    on_error got (λ e. pure (err (get_endpoints_error (api e))))
        λ found. if has_no_address found then pure (err endpoints_blank) else (do
          let endpoints = sort_endpoints found
          addresses ← lift (subset_addresses endpoints)
          first ← lift (deref (get_elem? addresses 0))
          r ← exec_cluster_info env first.ip first.target
          on_error r (fail_with env rc endpoints Phase.failed) λ info.
              if not info.0
              then (do
                _ ← update_redis_cluster_status env rc (some endpoints) Phase.failed (
                    if not (str_eq rc.status.reason "")
                    then rc.status.reason
                    else cluster_state_failed)
                pure (ok tt))
              else mark_running_checked rc endpoints)
