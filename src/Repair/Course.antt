-- ===== src/Repair/Course.antt =====
-- In which order a whole check of a cluster (check_rediscluster.go) writes its phases.
use middleware_operator_mana.Base.{ℕ, ◌≤◌, ◌<◌, refl, some, List, [], length, get_elem?, arith}
use middleware_operator_mana.Errors.{ok, err, subsets_nil}
use middleware_operator_mana.Lifecycle.Endpoints.{subset_addresses, sort_endpoints}
use middleware_operator_mana.Lifecycle.Phases.{create_and_init-Climb, upgrade_redis_cluster-Climb}
use middleware_operator_mana.Lifecycle.Quiet.{check_pods_ready-Emits}
use middleware_operator_mana.Outcome.{deref}
use middleware_operator_mana.Repair.Check.{repair_by, repair, check_and_update}
use middleware_operator_mana.Repair.Parts.{
  repair_phase, old_addresses, with_addresses, is_settled, cluster_state_failed,
}
use middleware_operator_mana.Repair.Quiet.{get_clustered-Emits}
use middleware_operator_mana.Status.Phases.{
  run-Silent, Reads-Silent, update_redis_cluster_status-Climb,
}
use middleware_operator_mana.Types.{EndpointAddress, Endpoints, no_endpoints, RedisCluster}
use middleware_operator_mana.Types.Phase.{RedisClusterPhase}
use middleware_operator_mana.Types.Phase
use middleware_operator_mana.World.{Env}
use middleware_operator_mana.World.Climbs.{
  Climb, Climb-pure, Climb-if, Climb-bind, Climb-lifted, Climb-checked, Climb-on_list,
}
use middleware_operator_mana.Repair.Phases.{
  fails_for_good, repair_creating-Climb, repair_upgrading-Climb, report_state-Climb,
}

module _ (env : Env) {rank : RedisClusterPhase → ℕ} {lo top : ℕ}
    (starting : lo < rank Phase.upgrading) (failing : rank Phase.upgrading < rank Phase.failed)
    (ending : rank Phase.upgrading < rank Phase.running) (failed_last : rank Phase.failed ≤ top)
    (running_last : rank Phase.running ≤ top) where
  repair_by-Climb :
      (phase : RedisClusterPhase) (rc : RedisCluster) (endpoints : Endpoints)
      (addresses clustered only_self : List EndpointAddress)
      → Climb rank lo (repair_by env phase rc endpoints addresses clustered only_self) (λ _. top)
  unfolding repair_by
  repair_by-Climb phase rc endpoints addresses clustered only_self =
      let fails : lo < rank Phase.failed = omega arith in
      let ends : lo < rank Phase.running = omega arith in
      let anew = create_and_init-Climb env {rank = rank} fails ends failed_last running_last rc in
      Climb-lifted (deref rc.spec.replicas) _ _ (λ replicas.
        Climb-on_list clustered _ _ _ anew (λ existing others. Climb-if _ _ _ _ anew (
          Climb-lifted (deref (get_elem? addresses 0)) _ _ (λ first.
            Climb-if _ _ _ _
              (repair_creating-Climb env fails ends failed_last running_last rc endpoints existing
                first.target)
              (Climb-lifted (old_addresses addresses (length rc.status.conditions)) _ _ (λ old.
                Climb-if _ _ _ _
                  (upgrade_redis_cluster-Climb env starting failing ending failed_last running_last
                    rc (with_addresses endpoints old))
                  (repair_upgrading-Climb env fails ends failed_last running_last rc endpoints
                    existing first.target)))))))

  repair-Climb : (rc : RedisCluster) → Climb rank lo (repair env rc) (λ _. top)
  unfolding repair
  repair-Climb rc =
      let fails : lo < rank Phase.failed = omega arith in
      let ends : lo < rank Phase.running = omega arith in
      Climb-checked _ _ _ _ (check_pods_ready-Emits env Reads-Silent rc)
        (fails_for_good env fails ends failed_last running_last rc no_endpoints)
        (λ found. Climb-if _ _ _ _ (Climb-pure (err subsets_nil) _ (omega arith)) (
          Climb-lifted (subset_addresses (sort_endpoints found)) _ _ (λ addresses.
            Climb-if _ _ _ _
              (Climb-checked _ _ _ _ (get_clustered-Emits env run-Silent [] [] addresses)
                (λ e.
                  Climb-bind _ _ (λ _. rank Phase.failed) _
                    (update_redis_cluster_status-Climb env rc (some (sort_endpoints found))
                      Phase.failed cluster_state_failed refl fails)
                    (λ _. Climb-pure (err e) _ failed_last))
                (λ known.
                  repair_by-Climb (repair_phase rc) rc (sort_endpoints found) addresses known.0
                    known.1))
              (Climb-pure (ok tt) _ (omega arith)))))

  pub check_and_update-Climb :
      (rc : RedisCluster) → Climb rank lo (check_and_update env rc) (λ _. top)
  unfolding check_and_update
  check_and_update-Climb rc = Climb-lifted (is_settled rc) _ _ (λ settled.
      Climb-if _ _ _ _
        (report_state-Climb env (omega arith) (omega arith) failed_last running_last rc)
        (repair-Climb rc))
