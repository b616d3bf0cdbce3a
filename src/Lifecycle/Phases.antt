-- ===== src/Lifecycle/Phases.antt =====
-- In which order the creation and the scaling of a cluster write its phases.
use middleware_operator_mana.Assign.{assign_master_slave_ip}
use middleware_operator_mana.Base.{
  ℕ, ◌≤◌, ◌<◌, ◌≡◌, refl, true, some, none, List, String, get_elem?, arith,
}
use middleware_operator_mana.Commands.Quiet.{
  Grows, exec_cluster_nodes-Emits, add_slave_to_cluster_master-Emits, create_cluster-Emits,
  rebalance_slots-Emits, reshard_slots-Emits,
}
use middleware_operator_mana.Commands.{create_cluster}
use middleware_operator_mana.Errors.{
  Result, ok, err, Error, Command, upgrade_auto, upgrade_manual, subsets_nil, strategy_type_error,
  old_endpoints_empty,
}
use middleware_operator_mana.Lifecycle.Create.{init_cluster, create_and_init}
use middleware_operator_mana.Lifecycle.Endpoints.{sort_endpoints, assign_address, subset_addresses}
use middleware_operator_mana.Lifecycle.Quiet.{check_pods_ready-Emits, scale_redis_cluster-Emits}
use middleware_operator_mana.Lifecycle.Ready.{fail_with, mark_running}
use middleware_operator_mana.Lifecycle.Upgrade.{
  assign_slots, auto_assign, manual_assign, upgrade_by, upgrade_redis_cluster,
}
use middleware_operator_mana.Outcome.{deref}
use middleware_operator_mana.Status.Phases.{
  run-Silent, Reads-Silent, is_known, update_redis_cluster_status-Climb,
}
use middleware_operator_mana.Types.{Endpoints, no_endpoints, ObjectReference, RedisCluster}
use middleware_operator_mana.Types.Phase.{RedisClusterPhase}
use middleware_operator_mana.Types.Phase
use middleware_operator_mana.World.{Env, executed, M, ◌>>=◌, pure, on_error}
use middleware_operator_mana.World.Ascends.{Silent}
use middleware_operator_mana.World.Climbs.{
  Climb, Climb-pure, Climb-bind, Climb-on_error, Climb-on_option, Climb-if, Climb-lifted,
  Climb-checked,
}
use middleware_operator_mana.World.Emits.{Emits}

abbrev pub any-Silent : (pod : ObjectReference) (c : Command) → Grows c → Silent (executed pod c)
any-Silent pod c h = tt

created-Silent :
    (env : Env) (ips : List String) (pod : ObjectReference)
    → Emits Silent (create_cluster env ips pod)
created-Silent env ips pod = create_cluster-Emits env ips pod (λ c. tt)

module _ (env : Env) {rank : RedisClusterPhase → ℕ} {lo : ℕ} where
  -- The phase of the failure is written, if at all, and the error is returned.
  pub fail_with-Climb :
      (rc : RedisCluster) (endpoints : Endpoints) (phase : RedisClusterPhase) (e : Error)
      (hi : Result Error (Unit {0}) → ℕ)
      → is_known phase ≡ true
      → lo < rank phase
      → rank phase ≤ hi (err e)
      → Climb rank lo (fail_with env rc endpoints phase e) hi
  unfolding fail_with
  fail_with-Climb rc endpoints phase e hi known above below =
      Climb-bind _ _ (λ _. rank phase) hi
        (update_redis_cluster_status-Climb env rc (some endpoints) phase (env.message e) known
          above)
        (λ _. Climb-pure (err e) hi below)

  pub mark_running-Climb :
      (rc : RedisCluster) (endpoints : Endpoints) (top : ℕ)
      → lo < rank Phase.running
      → rank Phase.running ≤ top
      → Climb rank lo (mark_running env rc endpoints) (λ _. top)
  unfolding mark_running
  mark_running-Climb rc endpoints top above below =
      Climb-bind _ _ (λ _. rank Phase.running) _
        (update_redis_cluster_status-Climb env rc (some endpoints) Phase.running "" refl above)
        (λ _. Climb-pure (ok tt) _ below)

module _ (env : Env) {rank : RedisClusterPhase → ℕ} {lo top : ℕ} (failing : lo < rank Phase.failed)
    (ending : lo < rank Phase.running) (failed_last : rank Phase.failed ≤ top)
    (running_last : rank Phase.running ≤ top) where
  init_cluster-Climb :
      (rc : RedisCluster) (endpoints : Endpoints) (pod : ObjectReference)
      (master_ips slave_ips : List String)
      → Climb rank lo (init_cluster env rc endpoints pod master_ips slave_ips) (λ _. top)
  unfolding init_cluster
  init_cluster-Climb rc endpoints pod master_ips slave_ips =
      let fails = λ (e : Error).
        fail_with-Climb env {rank = rank} rc endpoints Phase.failed e (λ _. top) refl failing
          failed_last in
      let nodes = exec_cluster_nodes-Emits env run-Silent in
      Climb-checked _ _ _ _ (created-Silent env master_ips pod) fails (λ _.
        Climb-lifted (deref (get_elem? master_ips 0)) _ _ (λ first.
          Climb-checked _ _ _ _ (nodes first pod) fails (λ infos. Climb-if _ _ _ _ (fails _) (
            Climb-checked _ _ _ _
              (add_slave_to_cluster_master-Emits env any-Silent slave_ips master_ips _ pod) fails
              (λ _.
                Climb-checked _ _ _ _ (nodes first _) fails
                  (λ _. mark_running-Climb env rc endpoints top ending running_last))))))

  pub create_and_init-Climb :
      (rc : RedisCluster) → Climb rank lo (create_and_init env rc) (λ _. top)
  unfolding create_and_init
  create_and_init-Climb rc =
      let fails = λ (endpoints : Endpoints) (e : Error).
        fail_with-Climb env {rank = rank} rc endpoints Phase.failed e (λ _. top) refl failing
          failed_last in
      Climb-checked _ _ _ _ (check_pods_ready-Emits env Reads-Silent rc) (fails no_endpoints)
        (λ found. Climb-if _ _ _ _ (Climb-pure (err subsets_nil) _ (omega arith)) (
          Climb-lifted (assign_address (sort_endpoints found) none) _ _ (λ addressed.
            Climb-on_error addressed _ _ _ (fails (sort_endpoints found)) (λ addresses.
              Climb-lifted (assign_master_slave_ip addresses) _ _ (λ assigned.
                Climb-on_error assigned _ _ _ (fails (sort_endpoints found)) (λ ips.
                  Climb-lifted (deref (get_elem? addresses 0)) _ _ (λ first.
                    init_cluster-Climb rc (sort_endpoints found) first.target ips.0 ips.1)))))))

  assign_slots-Climb :
      (rc : RedisCluster) (endpoints old : Endpoints) (looked_in : ObjectReference → String)
      (hand_out : String → ObjectReference → List String → M (Result Error (Unit {0})))
      → ((ip : String) (pod : ObjectReference) (ids : List String)
          → Emits Silent (hand_out ip pod ids))
      → Climb rank lo (assign_slots env rc endpoints old looked_in hand_out) (λ _. top)
  unfolding assign_slots
  assign_slots-Climb rc endpoints old looked_in hand_out handed =
      let fails = λ (e : Error).
        fail_with-Climb env {rank = rank} rc endpoints Phase.running e (λ _. top) refl ending
          running_last in
      Climb-checked _ _ _ _ (scale_redis_cluster-Emits env any-Silent endpoints old) fails (λ ips.
        Climb-lifted (subset_addresses endpoints) _ _ (λ addresses.
          Climb-lifted (deref (get_elem? addresses 0)) _ _ (λ first.
            Climb-lifted (deref (get_elem? ips.0 0)) _ _ (λ exist_ip.
              Climb-checked _ _ _ _ (handed exist_ip first.target ips.1) fails (λ _.
                Climb-checked _ _ _ _ (exec_cluster_nodes-Emits env run-Silent exist_ip _)
                  (λ e. Climb-pure (err e) _ (omega arith))
                  (λ _. mark_running-Climb env rc endpoints top ending running_last))))))

  auto_assign-Climb :
      (rc : RedisCluster) (endpoints old : Endpoints)
      → Climb rank lo (auto_assign env rc endpoints old) (λ _. top)
  unfolding auto_assign
  auto_assign-Climb rc endpoints old =
      assign_slots-Climb rc endpoints old (λ pod. pod.namespace) _
        (λ ip pod ids. rebalance_slots-Emits env any-Silent ip pod rc.spec.update_strategy.pipeline)

  manual_assign-Climb :
      (rc : RedisCluster) (endpoints old : Endpoints)
      → Climb rank lo (manual_assign env rc endpoints old) (λ _. top)
  unfolding manual_assign
  manual_assign-Climb rc endpoints old =
      assign_slots-Climb rc endpoints old (λ pod. rc.namespace) _
        (λ ip pod ids. reshard_slots-Emits env any-Silent rc.spec.update_strategy ip pod ids)

  -- The errors are wrapped, and nothing more is written.
  wrapped-Climb :
      (m : M (Result Error (Unit {0}))) (wrap : Error → Error)
      → Climb rank lo m (λ _. top)
      → Climb rank lo
          (m >>= λ r. on_error r (λ e. pure (err (wrap e))) λ _. pure (ok tt))
          (λ _. top)
  wrapped-Climb m wrap k =
      Climb-bind m _ (λ _. top) _ k
        (λ r.
          Climb-on_error r _ _ _ (λ e. Climb-pure _ _ (omega arith))
            (λ _. Climb-pure _ _ (omega arith)))

  upgrade_by-Climb :
      (type : String) (rc : RedisCluster) (endpoints old : Endpoints)
      → Climb rank lo (upgrade_by env type rc endpoints old) (λ _. top)
  unfolding upgrade_by
  upgrade_by-Climb type rc endpoints old =
      Climb-if _ _ _ _ (wrapped-Climb _ upgrade_auto (auto_assign-Climb rc endpoints old)) (
        Climb-if _ _ _ _ (wrapped-Climb _ upgrade_manual (manual_assign-Climb rc endpoints old))
          (Climb-pure (err (strategy_type_error type)) _ (omega arith)))

module _ (env : Env) {rank : RedisClusterPhase → ℕ} {lo top : ℕ}
    (starting : lo < rank Phase.upgrading) (failing : rank Phase.upgrading < rank Phase.failed)
    (ending : rank Phase.upgrading < rank Phase.running) (failed_last : rank Phase.failed ≤ top)
    (running_last : rank Phase.running ≤ top) where
  pub upgrade_redis_cluster-Climb :
      (rc : RedisCluster) (old : Endpoints)
      → Climb rank lo (upgrade_redis_cluster env rc old) (λ _. top)
  unfolding upgrade_redis_cluster
  upgrade_redis_cluster-Climb rc old =
      Climb-if _ _ _ _ (Climb-pure (err old_endpoints_empty) _ (omega arith)) (
        Climb-checked _ _ _ _ (check_pods_ready-Emits env Reads-Silent rc)
          (λ e.
            fail_with-Climb env rc no_endpoints Phase.running e _ refl (omega arith) running_last)
          (λ endpoints.
            Climb-bind _ _ (λ _. rank Phase.upgrading) _
              (update_redis_cluster_status-Climb env rc none Phase.upgrading "" refl starting)
              (λ updated.
                Climb-on_option updated.error _ _ _
                  (upgrade_by-Climb env failing ending failed_last running_last
                    updated.returned.spec.update_strategy.type updated.returned
                    (sort_endpoints endpoints) (sort_endpoints old))
                  (λ e. Climb-pure (err e) _ (omega arith)))))
