-- ===== src/Repair/Phases.antt =====
-- In which order each repair of a cluster, and the report on it, write its phases.
use middleware_operator_mana.Base.{
  ℕ, ◌≤◌, ◌<◌, ◌≡◌, refl, true, some, none, [], ◌∷◌, String, ◌-◌, drop, length, get_elem?, arith,
  not, str_eq, if◌then◌else◌,
}
use middleware_operator_mana.Commands.Quiet.{
  exec_cluster_info-Emits, exec_cluster_nodes-Emits, exec_redis_trib_info-Emits,
  add_slave_to_cluster_master-Emits, add_master_node_to_redis_cluster-Emits, rebalance_slots-Emits,
  reshard_slots-Emits,
}
use middleware_operator_mana.Compose.{Composition, build_will_add}
use middleware_operator_mana.Errors.{
  ok, err, Error, api, strategy_type_error, too_few_strategies, get_endpoints_error,
  endpoints_blank,
}
use middleware_operator_mana.Lifecycle.Endpoints.{
  subset_addresses, node_ids_of, sort_endpoints, has_no_address,
}
use middleware_operator_mana.Lifecycle.Phases.{any-Silent, fail_with-Climb}
use middleware_operator_mana.Lifecycle.Ready.{fail_with}
use middleware_operator_mana.Outcome.{deref}
use middleware_operator_mana.Repair.Parts.{empty_masters, all_ids_of, cluster_state_failed}
use middleware_operator_mana.Repair.State.{mark_running_checked, report_state}
use middleware_operator_mana.Repair.Steps.{
  rejoin, join_missing, repair_creating, assign_missing_slots, repair_upgrading,
}
use middleware_operator_mana.Status.Phases.{
  run-Silent, is_known, failed-is_known, update_redis_cluster_status-Climb,
}
use middleware_operator_mana.Types.{EndpointAddress, Endpoints, ObjectReference, RedisCluster}
use middleware_operator_mana.Types.Phase.{RedisClusterPhase}
use middleware_operator_mana.Types.Phase
use middleware_operator_mana.World.{Env, got_endpoints}
use middleware_operator_mana.World.Emits.{Emits-call}
use middleware_operator_mana.World.Climbs.{
  Climb, Climb-pure, Climb-if, Climb-bind, Climb-lifted, Climb-checked, Climb-on_list, Climb-try,
  by_result,
}

module _ (env : Env) {rank : RedisClusterPhase → ℕ} {lo top : ℕ} where
  -- The phase is written only together with an error.
  module _ (phase : RedisClusterPhase) (known : is_known phase ≡ true) (above : lo < rank phase)
      (below : rank phase ≤ top) where
    fails :
        (rc : RedisCluster) (endpoints : Endpoints) (e : Error)
        → Climb rank lo (fail_with env rc endpoints phase e) (by_result top lo)
    fails rc endpoints e =
        fail_with-Climb env {rank = rank} rc endpoints phase e _ known above below

    rejoin-Climb :
        (rc : RedisCluster) (endpoints : Endpoints) (exist_ip : String) (pod : ObjectReference)
        (roles : Composition)
        → Climb rank lo (rejoin env phase rc endpoints exist_ip pod roles) (by_result top lo)
    unfolding rejoin
    rejoin-Climb rc endpoints exist_ip pod roles =
        Climb-checked _ _ _ _
          (add_master_node_to_redis_cluster-Emits env any-Silent roles.master_ips exist_ip pod)
          (fails rc endpoints)
          (λ _.
            Climb-checked _ _ _ _ (exec_cluster_nodes-Emits env run-Silent exist_ip pod)
              (fails rc endpoints)
              (λ infos.
                Climb-on_list roles.slave_ips _ _ _ (Climb-pure (ok tt) _ (omega arith)) (λ ip ips.
                  Climb-checked _ _ _ _
                    (add_slave_to_cluster_master-Emits env any-Silent roles.slave_ips
                      roles.parent_ips (node_ids_of roles.parent_ips infos) pod)
                    (fails rc endpoints) (λ _. Climb-pure (ok tt) _ (omega arith)))))

    join_missing-Climb :
        (rc : RedisCluster) (endpoints : Endpoints) (existing : EndpointAddress)
        (pod : ObjectReference)
        → Climb rank lo (join_missing env phase rc endpoints existing pod) (by_result top lo)
    unfolding join_missing
    join_missing-Climb rc endpoints existing pod =
        Climb-checked _ _ _ _ (exec_cluster_nodes-Emits env run-Silent existing.ip existing.target)
          (fails rc endpoints)
          (λ infos. Climb-lifted (build_will_add infos endpoints) _ _ (λ built.
            rejoin-Climb rc endpoints existing.ip pod (elim built [
              | ok roles ↦ roles
              | err e ↦ record { master_ips = []; slave_ips = []; parent_ips = [] }
            ])))

  module _ (failing : lo < rank Phase.failed) (ending : lo < rank Phase.running)
      (failed_last : rank Phase.failed ≤ top) (running_last : rank Phase.running ≤ top) where
    pub fails_for_good :
        (rc : RedisCluster) (endpoints : Endpoints) (e : Error)
        → Climb rank lo (fail_with env rc endpoints Phase.failed e) (λ _. top)
    fails_for_good rc endpoints e =
        fail_with-Climb env {rank = rank} rc endpoints Phase.failed e _ failed-is_known failing
          failed_last

    fails_and_runs :
        (rc : RedisCluster) (endpoints : Endpoints) (e : Error)
        → Climb rank lo (fail_with env rc endpoints Phase.running e) (λ _. top)
    fails_and_runs rc endpoints e =
        fail_with-Climb env {rank = rank} rc endpoints Phase.running e _ refl ending running_last

    mark_running_checked-Climb :
        (rc : RedisCluster) (endpoints : Endpoints)
        → Climb rank lo (mark_running_checked env rc endpoints) (λ _. top)
    unfolding mark_running_checked
    mark_running_checked-Climb rc endpoints =
        Climb-bind _ _ (λ _. rank Phase.running) _
          (update_redis_cluster_status-Climb env rc (some endpoints) Phase.running "" refl ending)
          (λ updated.
            Climb-pure (elim updated.error [ some e ↦ err e | none ↦ ok tt ]) _ running_last)

    pub repair_creating-Climb :
        (rc : RedisCluster) (endpoints : Endpoints) (existing : EndpointAddress)
        (pod : ObjectReference)
        → Climb rank lo (repair_creating env rc endpoints existing pod) (λ _. top)
    unfolding repair_creating
    repair_creating-Climb rc endpoints existing pod =
        Climb-try top _ _ _ _
          (join_missing-Climb Phase.failed refl failing failed_last rc endpoints existing pod)
          (λ e. Climb-pure (err e) _ (omega arith))
          (λ _.
            Climb-checked _ _ _ _ (rebalance_slots-Emits env any-Silent existing.ip pod "")
              (fails_for_good rc endpoints) (λ _. mark_running_checked-Climb rc endpoints))

    assign_missing_slots-Climb :
        (rc : RedisCluster) (endpoints : Endpoints) (existing : EndpointAddress)
        (pod : ObjectReference)
        → Climb rank lo (assign_missing_slots env rc endpoints existing pod) (by_result top lo)
    unfolding assign_missing_slots
    assign_missing_slots-Climb rc endpoints existing pod =
        let stops = fails Phase.running refl ending running_last rc endpoints in
        Climb-checked _ _ _ _ (exec_redis_trib_info-Emits env run-Silent existing.ip pod) stops
          (λ infos.
            Climb-on_list (empty_masters infos) _ _ _ (Climb-pure (ok tt) _ (omega arith))
              (λ ip ips. Climb-if _ _ _ _ (stops too_few_strategies) (
                Climb-checked _ _ _ _ (exec_cluster_nodes-Emits env run-Silent existing.ip pod)
                  stops
                  (λ nodes.
                    Climb-checked _ _ _ _
                      (reshard_slots-Emits env any-Silent
                        (record rc.spec.update_strategy {
                          assign_strategies =
                              drop
                                (length rc.spec.update_strategy.assign_strategies
                                  - length (ip ∷ ips))
                                rc.spec.update_strategy.assign_strategies;
                        })
                        existing.ip pod (all_ids_of (ip ∷ ips) nodes))
                      stops (λ _. Climb-pure (ok tt) _ (omega arith))))))

    pub repair_upgrading-Climb :
        (rc : RedisCluster) (endpoints : Endpoints) (existing : EndpointAddress)
        (pod : ObjectReference)
        → Climb rank lo (repair_upgrading env rc endpoints existing pod) (λ _. top)
    unfolding repair_upgrading
    repair_upgrading-Climb rc endpoints existing pod =
        Climb-try top _ _ _ _
          (join_missing-Climb Phase.running refl ending running_last rc endpoints existing pod)
          (λ e. Climb-pure (err e) _ (omega arith))
          (λ _.
            Climb-if _ _ _ _
              (Climb-checked _ _ _ _
                (rebalance_slots-Emits env any-Silent existing.ip pod
                  rc.spec.update_strategy.pipeline)
                (fails_and_runs rc endpoints) (λ _. mark_running_checked-Climb rc endpoints))
              (Climb-if _ _ _ _
                (Climb-try top _ _ _ _ (assign_missing_slots-Climb rc endpoints existing pod)
                  (λ e. Climb-pure (err e) _ (omega arith))
                  (λ _. mark_running_checked-Climb rc endpoints))
                (Climb-pure (err (strategy_type_error rc.spec.update_strategy.type)) _
                  (omega arith))))

    pub report_state-Climb : (rc : RedisCluster) → Climb rank lo (report_state env rc) (λ _. top)
    unfolding report_state
    report_state-Climb rc =
        Climb-checked _ _ _ _
          (Emits-call (got_endpoints rc.namespace rc.name)
            (λ t. env.get_endpoints t rc.namespace rc.name) tt)
          (λ e. Climb-pure (err (get_endpoints_error (api e))) _ (omega arith))
          (λ found.
            Climb-if (has_no_address found) _ _ _ (Climb-pure (err endpoints_blank) _ (omega arith))
              (Climb-lifted (subset_addresses (sort_endpoints found)) _ _ (λ addresses.
                Climb-lifted (deref (get_elem? addresses 0)) _ _ (λ first.
                  Climb-checked _ _ _ _
                    (exec_cluster_info-Emits env run-Silent first.ip first.target)
                    (fails_for_good rc (sort_endpoints found))
                    (λ info.
                      Climb-if (not info.0) _ _ _
                        (Climb-bind _ _ (λ _. rank Phase.failed) _
                          (update_redis_cluster_status-Climb env rc (some (sort_endpoints found))
                            Phase.failed
                            (if not (str_eq rc.status.reason "")
                              then rc.status.reason
                              else cluster_state_failed)
                            refl failing)
                          (λ _. Climb-pure (ok tt) _ failed_last))
                        (mark_running_checked-Climb rc (sort_endpoints found)))))))
