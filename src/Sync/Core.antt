-- ===== src/Sync/Core.antt =====
-- redis_operator.go: `sync`, which takes a custom resource one step further, and the look-ups between
-- custom resources and stateful sets (with the lister's expansion, expansion_generated.go).

use Prim.Native.String.{◌++◌ as str_append}
use middleware_operator_mana.Base.{
  ℕ, ◌-◌, ◌/◌, Bool, true, false, not, ◌||◌, ◌&&◌, List, [], ◌∷◌, String, str_eq, Option, none,
  some, if◌then◌else◌, ◌==◌, leb, length,
}
use middleware_operator_mana.Build.{build_service, build_stateful_set}
use middleware_operator_mana.Errors.{
  Result, ok, err, ApiError, not_found, already_exists, Error, api, create_service_error,
  create_stateful_set_error, scale_stateful_set_error, strategy_type_error, strategies_length_error,
}
use middleware_operator_mana.Lifecycle.Create.{create_and_init}
use middleware_operator_mana.Lifecycle.Upgrade.{upgrade_redis_cluster}
use middleware_operator_mana.Outcome.{Outcome, done, panic, deref}
use middleware_operator_mana.Repair.Check.{check_and_update}
use middleware_operator_mana.Status.{update_redis_cluster_status, get_endpoints}
use middleware_operator_mana.Types.{
  RedisCluster, assign_receive, auto_receive, middleware_redis_type_key,
  middleware_redis_clusters_prefix,
}
use middleware_operator_mana.Types.Objects.{StatefulSet}
use middleware_operator_mana.Types.Phase
use middleware_operator_mana.World.{
  Env, cached_cluster, cached_stateful_sets, created_service, created_stateful_set,
  updated_stateful_set, dropped_cluster, M, ◌>>=◌, pure, lift, call, on_error, on_option,
}

-- `m[key]` on a map: "" where the key is missing.
unfoldable pub value_at : String → List (String × String) → String
value_at key [] = ""
value_at key ((k, v) ∷ m) = if str_eq k key then v else value_at key m

-- The test of both look-ups: the annotation names the custom resource, and so do name and namespace.
unfoldable pub manages : RedisCluster → StatefulSet → Bool
unfolding value_at
manages rc sts =
    not (
      length sts.meta.annotations == 0
      || not (
          str_eq (value_at middleware_redis_type_key sts.meta.annotations)
            (str_append middleware_redis_clusters_prefix rc.name)))
    && (str_eq sts.meta.namespace rc.namespace && str_eq sts.meta.name rc.name)

-- The loop of `getStatefulSetForRedisCluster`.
unfoldable pub find_stateful_set : RedisCluster → List StatefulSet → Option StatefulSet
unfolding manages
find_stateful_set rc [] = none
find_stateful_set rc (sts ∷ sets) = if manages rc sts then some sts else find_stateful_set rc sets

-- `GetRedisClusterForStatefulSet` over the custom resources of the set's namespace; `none` is its error.
unfoldable pub find_redis_cluster : StatefulSet → List RedisCluster → Option RedisCluster
unfolding manages
find_redis_cluster sts [] = none
find_redis_cluster sts (rc ∷ rcs) = if manages rc sts then some rc else find_redis_cluster sts rcs

pub data Handle : Type 0 where
  -- Create the cluster; the stateful set exists already or does not.
  create_cluster : (exists : Bool) → Handle
  upgrade_cluster : (current : ℕ) → Handle
  check_cluster nothing : Handle

-- What `sync` does with a custom resource, by its stateful set.
unfoldable pub handle_flag : RedisCluster → Option StatefulSet → Outcome Handle
handle_flag rc none = done (create_cluster false)
handle_flag rc (some sts) =
    if sts.status_replicas == 0 then done (create_cluster true) else elim rc.spec.replicas [
      | none ↦ panic
      | some wanted ↦ elim sts.spec.replicas [
        | none ↦ panic
        | some current ↦
            if leb wanted current then done check_cluster else elim sts.deletion_timestamp [
              | none ↦ done (upgrade_cluster current)
              | some _ ↦ done nothing
            ]
      ]
    ]

-- The two checks of the strategy before an upgrade, by `scaleLen`.
unfoldable pub strategy_error : RedisCluster → ℕ → Option Error
strategy_error rc scale_len =
    let strategy = rc.spec.update_strategy in
    if not (str_eq strategy.type assign_receive) && not (str_eq strategy.type auto_receive)
    then some (strategy_type_error strategy.type)
    else if str_eq strategy.type assign_receive
        && not (length strategy.assign_strategies == scale_len / 2)
    then some strategies_length_error
    else none

module _ (env : Env) where
  -- `getStatefulSetForRedisCluster`
  unfoldable pub get_stateful_set_for : RedisCluster → M (Result Error (Option StatefulSet))
  unfolding find_stateful_set
  get_stateful_set_for rc = do
    r ← call (cached_stateful_sets rc.namespace) (λ t. env.cached_stateful_sets t rc.namespace)
    on_error r (λ e. pure (err (api e))) λ sets. pure (ok (find_stateful_set rc sets))

  -- The service and the stateful set of a new cluster, then its initialisation.
  unfoldable pub create_objects :
      String → String → Bool → RedisCluster → M (Result Error (Unit {0}))
  unfolding build_service build_stateful_set create_and_init
  create_objects namespace name exists rc = do
    let service = build_service rc namespace name
    created ← call (created_service service) (λ t. env.create_service t service)
    let failure : Option ApiError = elim created [
      | ok _ ↦ none
      | err e ↦ elim e [ already_exists ↦ none | other ↦ some other ]
    ]
    on_option failure
        (do
          built ← lift (build_stateful_set namespace name rc)
          stored ←
              (if exists
                then call (updated_stateful_set built.0) (λ t. env.update_stateful_set t built.0)
                else call (created_stateful_set built.0) (λ t. env.create_stateful_set t built.0))
          on_error stored (λ e. pure (err (create_stateful_set_error (api e))))
              λ _. create_and_init env built.1)
        λ e. pure (err (create_service_error (api e)))

  -- The case createCluster.
  unfoldable pub do_create : String → String → Bool → RedisCluster → M (Result Error (Unit {0}))
  unfolding update_redis_cluster_status create_objects
  do_create namespace name exists rc = do
    updated ← update_redis_cluster_status env rc none Phase.creating ""
    on_option updated.error (create_objects namespace name exists updated.returned)
        λ e. pure (err e)

  -- The case upgradeCluster behind the checks. The object whose status became Scaling is the one that
  -- a failure to get the endpoints marks Failed.
  unfoldable pub do_scale : String → String → RedisCluster → M (Result Error (Unit {0}))
  unfolding update_redis_cluster_status build_stateful_set upgrade_redis_cluster
  do_scale namespace name rc = do
    updated ← update_redis_cluster_status env rc none Phase.scaling ""
    on_option updated.error
        (do
          got ← get_endpoints env rc.namespace rc.name
          on_error got
              (λ e. do
                _ ←
                    update_redis_cluster_status env updated.object none Phase.failed
                      (env.message (api e))
                pure (err (api e)))
              λ old. do
                built ← lift (build_stateful_set namespace name updated.returned)
                stored ←
                    call (updated_stateful_set built.0) (λ t. env.update_stateful_set t built.0)
                on_error stored (λ e. pure (err (scale_stateful_set_error (api e))))
                    λ _. upgrade_redis_cluster env built.1 old)
        λ e. pure (err e)

  -- The case upgradeCluster: a wrong strategy is written to the status, and is no error.
  unfoldable pub do_upgrade : String → String → ℕ → RedisCluster → M (Result Error (Unit {0}))
  unfolding strategy_error update_redis_cluster_status do_scale
  do_upgrade namespace name current rc = do
    wanted ← lift (deref rc.spec.replicas)
    on_option (strategy_error rc (wanted - current)) (do_scale namespace name rc) λ e. do
      _ ← update_redis_cluster_status env rc none Phase.running (env.message e)
      pure (ok tt)

  unfoldable pub handle : String → String → RedisCluster → Handle → M (Result Error (Unit {0}))
  unfolding do_create do_upgrade check_and_update
  handle namespace name rc (create_cluster exists) = do_create namespace name exists rc
  handle namespace name rc (upgrade_cluster current) = do_upgrade namespace name current rc
  handle namespace name rc check_cluster = check_and_update env rc
  handle namespace name rc nothing = pure (ok tt)

  -- `sync`
  unfoldable pub sync : String → String → M (Result Error (Unit {0}))
  unfolding get_stateful_set_for handle_flag handle
  sync namespace name = do
    cached ← call (cached_cluster namespace name) (λ t. env.cached_cluster t namespace name)
    on_error cached (λ e. pure (elim e [ not_found ↦ ok tt | other ↦ err (api other) ]))
        λ rc. do
          found ← get_stateful_set_for rc
          on_error found (λ e. pure (err e))
              λ sts. do h ← lift (handle_flag rc sts); handle namespace name rc h

  -- `dropRedisCluster`, which no code calls.
  unfoldable pub drop_redis_cluster : RedisCluster → M (Result Error (Unit {0}))
  drop_redis_cluster rc = do
    r ← call (dropped_cluster rc.namespace rc.name) (λ t. env.delete_cluster t rc.namespace rc.name)
    on_error r (λ e. pure (err (api e))) λ _. pure (ok tt)
