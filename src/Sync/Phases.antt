-- ===== src/Sync/Phases.antt =====
-- The phases that `sync` (redis_operator.go) writes to the status of a custom resource, and in which
-- order.
use middleware_operator_mana.Base.{ℕ, ◌≤◌, ◌<◌, refl, some, none, Option, String, Bool, arith, ◌-◌}
use middleware_operator_mana.Build.{build_service, build_stateful_set}
use middleware_operator_mana.Errors.{
  ok, err, ApiError, already_exists, api, create_service_error, create_stateful_set_error,
  scale_stateful_set_error,
}
use middleware_operator_mana.Lifecycle.Phases.{create_and_init-Climb, upgrade_redis_cluster-Climb}
use middleware_operator_mana.Outcome.{deref}
use middleware_operator_mana.Status.Phases.{update_redis_cluster_status-Climb}
use middleware_operator_mana.Sync.Core.{
  create_objects, do_create, do_scale, do_upgrade, strategy_error,
}
use middleware_operator_mana.Types.{RedisCluster}
use middleware_operator_mana.Types.Phase.{RedisClusterPhase}
use middleware_operator_mana.Types.Phase
use middleware_operator_mana.World.{
  Env, created_service, created_stateful_set, updated_stateful_set, got_endpoints, call,
}
use middleware_operator_mana.World.Climbs.{
  Climb, Climb-pure, Climb-bind, Climb-lifted, Climb-after, Climb-checked, Climb-on_option,
}
use middleware_operator_mana.World.Emits.{Emits-call, Emits-if}

module _ (env : Env) {rank : RedisClusterPhase → ℕ} {top : ℕ}
    (failed_last : rank Phase.failed ≤ top) (running_last : rank Phase.running ≤ top) where
  create_objects-Climb :
      {lo : ℕ} (namespace name : String) (exists : Bool) (rc : RedisCluster)
      → lo < rank Phase.failed
      → lo < rank Phase.running
      → Climb rank lo (create_objects env namespace name exists rc) (λ _. top)
  unfolding create_objects
  create_objects-Climb {lo} namespace name exists rc failing ending =
      let service = build_service rc namespace name in
      Climb-after _ _ _
        (Emits-call (created_service service) (λ t. env.create_service t service) tt)
        (λ created.
          let failure : Option ApiError = elim created [
            | ok _ ↦ none
            | err e ↦ elim e [ already_exists ↦ none | other ↦ some other ]
          ] in
          Climb-on_option failure _ _ _
            (Climb-lifted (build_stateful_set namespace name rc) _ _ (λ built.
              Climb-checked _ _ _ _
                (Emits-if exists
                  (call (updated_stateful_set built.0) (λ t. env.update_stateful_set t built.0))
                  (call (created_stateful_set built.0) (λ t. env.create_stateful_set t built.0))
                  (Emits-call _ _ tt) (Emits-call _ _ tt))
                (λ e. Climb-pure (err (create_stateful_set_error (api e))) _ (omega arith))
                (λ _. create_and_init-Climb env failing ending failed_last running_last built.1)))
            (λ e. Climb-pure (err (create_service_error (api e))) _ (omega arith)))

  pub do_create-Climb :
      (namespace name : String) (exists : Bool) (rc : RedisCluster)
      → 0 < rank Phase.creating
      → rank Phase.creating < rank Phase.failed
      → rank Phase.creating < rank Phase.running
      → Climb rank 0 (do_create env namespace name exists rc) (λ _. top)
  unfolding do_create
  do_create-Climb namespace name exists rc starting failing ending =
      Climb-bind _ _ (λ _. rank Phase.creating) _
        (update_redis_cluster_status-Climb env rc none Phase.creating "" refl starting)
        (λ updated.
          Climb-on_option updated.error _ _ _
            (create_objects-Climb namespace name exists updated.returned failing ending)
            (λ e. Climb-pure (err e) _ (omega arith)))

  module _ (scaling : 0 < rank Phase.scaling) (starting : rank Phase.scaling < rank Phase.upgrading)
      (failing : rank Phase.upgrading < rank Phase.failed)
      (ending : rank Phase.upgrading < rank Phase.running) where
    do_scale-Climb :
        (namespace name : String) (rc : RedisCluster)
        → Climb rank 0 (do_scale env namespace name rc) (λ _. top)
    unfolding do_scale
    do_scale-Climb namespace name rc =
        Climb-bind _ _ (λ _. rank Phase.scaling) _
          (update_redis_cluster_status-Climb env rc none Phase.scaling "" refl scaling)
          (λ updated.
            Climb-on_option updated.error _ _ _
              (Climb-checked _ _ _ _
                (Emits-call (got_endpoints rc.namespace rc.name)
                  (λ t. env.get_endpoints t rc.namespace rc.name) tt)
                (λ e.
                  Climb-bind _ _ (λ _. rank Phase.failed) _
                    (update_redis_cluster_status-Climb env updated.object none Phase.failed
                      (env.message (api e)) refl (omega arith))
                    (λ _. Climb-pure (err (api e)) _ failed_last))
                (λ old.
                  Climb-lifted (build_stateful_set namespace name updated.returned) _ _ (λ built.
                    Climb-checked _ _ _ _
                      (Emits-call (updated_stateful_set built.0)
                        (λ t. env.update_stateful_set t built.0) tt)
                      (λ e. Climb-pure (err (scale_stateful_set_error (api e))) _ (omega arith))
                      (λ _.
                        upgrade_redis_cluster-Climb env starting failing ending failed_last
                          running_last built.1 old))))
              (λ e. Climb-pure (err e) _ (omega arith)))

    pub do_upgrade-Climb :
        (namespace name : String) (current : ℕ) (rc : RedisCluster)
        → Climb rank 0 (do_upgrade env namespace name current rc) (λ _. top)
    unfolding do_upgrade
    do_upgrade-Climb namespace name current rc =
        Climb-lifted (deref rc.spec.replicas) _ _ (λ wanted.
          Climb-on_option (strategy_error rc (wanted - current)) _ _ _
            (do_scale-Climb namespace name rc)
            (λ e.
              Climb-bind _ _ (λ _. rank Phase.running) _
                (update_redis_cluster_status-Climb env rc none Phase.running (env.message e) refl
                  (omega arith))
                (λ _. Climb-pure (ok tt) _ running_last)))
