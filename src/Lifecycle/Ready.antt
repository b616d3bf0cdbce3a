-- ===== src/Lifecycle/Ready.antt =====
-- `checkPodInstanceIsReadyByEndpoint` (sync_rediscluster.go), and the writes of the status that the
-- steps of a cluster's life end with.
use middleware_operator_mana.Base.{List, [], ◌∷◌, Option, none, some, if◌then◌else◌, ◌==◌, length}
use middleware_operator_mana.Errors.{
  Result, ok, err, Error, api, get_endpoints_error, get_stateful_set_error, stateful_set_absent,
}
use middleware_operator_mana.Outcome.{deref}
use middleware_operator_mana.Status.{update_redis_cluster_status, get_endpoints}
use middleware_operator_mana.Types.{EndpointSubset, Endpoints, RedisCluster}
use middleware_operator_mana.Types.Phase.{RedisClusterPhase}
use middleware_operator_mana.Types.Phase
use middleware_operator_mana.World.{
  Env, cached_stateful_set, M, ◌>>=◌, pure, lift, call, on_error, on_option, poll,
}

module _ (env : Env) where
  -- No subset: an error if the stateful set was scaled to nothing, else another try.
  unfoldable pub no_subset : RedisCluster → M (Result Error (Option Endpoints))
  no_subset rc = do
    cached ←
        call (cached_stateful_set rc.namespace rc.name)
          (λ t. env.cached_stateful_set t rc.namespace rc.name)
    on_error cached (λ e. pure (err (get_stateful_set_error (api e))))
        λ sts. do
          replicas ← lift (deref sts.spec.replicas)
          pure (if replicas == 0 then err stateful_set_absent else ok none)

  -- The endpoints, once the first subset has as many addresses as replicas are wanted.
  unfoldable pub all_addressed :
      RedisCluster → Endpoints → List EndpointSubset → M (Result Error (Option Endpoints))
  all_addressed rc endpoints [] = pure (ok none)
  all_addressed rc endpoints (subset ∷ _) = do
    replicas ← lift (deref rc.spec.replicas)
    pure (ok (if length subset.addresses == replicas then some endpoints else none))

  -- The condition of `checkPodInstanceIsReadyByEndpoint`.
  unfoldable pub pods_ready : RedisCluster → M (Result Error (Option Endpoints))
  unfolding no_subset all_addressed
  pods_ready rc = do
    r ← get_endpoints env rc.namespace rc.name
    on_error r (λ e. pure (err (get_endpoints_error (api e))))
        λ endpoints. on_option endpoints.subsets (no_subset rc) (all_addressed rc endpoints)

  -- `checkPodInstanceIsReadyByEndpoint`, which blocks until all pods are ready.
  unfoldable pub check_pods_ready : RedisCluster → M (Result Error Endpoints)
  unfolding pods_ready
  check_pods_ready rc = poll env (pods_ready rc)

  -- Write the phase and the error's text to the status, and return the error.
  unfoldable pub fail_with :
      RedisCluster → Endpoints → RedisClusterPhase → Error → M (Result Error (Unit {0}))
  unfolding update_redis_cluster_status
  fail_with rc endpoints phase e = do
    _ ← update_redis_cluster_status env rc (some endpoints) phase (env.message e)
    pure (err e)

  -- The same where the error of the write is not read and the result is nil.
  unfoldable pub mark_running : RedisCluster → Endpoints → M (Result Error (Unit {0}))
  unfolding update_redis_cluster_status
  mark_running rc endpoints = do
    _ ← update_redis_cluster_status env rc (some endpoints) Phase.running ""
    pure (ok tt)
