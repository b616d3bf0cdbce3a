-- ===== src/Sync/Steady.antt =====
-- Syncs (redis_operator.go) of a cluster that does not change, in surroundings where nothing goes wrong
-- and the cache holds what was written last.
use mathlib.Core.List.{append_assoc}
use middleware_operator_mana.Base.{
  All-append, ℕ, ◌≤◌, ◌≡◌, ◌≢◌, refl, sym, ap, subst, ◌∙◌, inl, inr, true, List, [], ◌∷◌, ◌++◌,
  String, some, length, sort_stable, All,
}
use middleware_operator_mana.Commands.Joining.{Calm}
use middleware_operator_mana.Commands.{exec_cluster_info, run_command}
use middleware_operator_mana.Errors.{ok, cluster_info}
use middleware_operator_mana.Lifecycle.Endpoints.{by_pod_name}
use middleware_operator_mana.Lifecycle.Formed.{has_address, sort_endpoints-addressed}
use middleware_operator_mana.Repair.Check.{check_and_update}
use middleware_operator_mana.Repair.Parts.{may_be_settled}
use middleware_operator_mana.Repair.State.{report_state, mark_running_checked}
use middleware_operator_mana.Sync.Core.{find_stateful_set, get_stateful_set_for, handle, sync}
use middleware_operator_mana.Sync.Decisions.{handle_flag_cases}
use middleware_operator_mana.Text.{contains, known_nodes}
use middleware_operator_mana.Lifecycle.Order.{Shows}
use middleware_operator_mana.Lifecycle.Running.{addressed}
use middleware_operator_mana.Lifecycle.Reports.{
  with_status, Reports, Reports-counted, update_status-Reports,
}
use middleware_operator_mana.Outcome.{done}
use middleware_operator_mana.Types.{
  EndpointAddress, EndpointSubset, Endpoints, Node, RedisCluster, RedisClusterStatus, RedisNodeInfo,
}
use middleware_operator_mana.Types.Objects.{StatefulSet}
use middleware_operator_mana.World.{
  Env, Event, Trace, updated_cluster, got_endpoints, executed, cached_cluster, cached_stateful_sets,
}
use middleware_operator_mana.World.Ascends.{Silent}
use middleware_operator_mana.Sync.Settled.{
  cached_at, cached_at-Silent, find_stateful_set-with_status, is_settled-counted, Running-settled,
}

module _ (env : Env) (rc : RedisCluster) (base : Endpoints) (first : EndpointAddress)
    (rest : List EndpointAddress) (others : List EndpointSubset) (infos : List RedisNodeInfo)
    (nodes : List Node) (sts : StatefulSet) (n : ℕ) (calm : Calm env first.target)
    (listed : (t : Trace) → env.list_nodes t ≡ ok nodes)
    (stored : (t : Trace) → env.get_stateful_set t rc.namespace rc.name ≡ ok sts)
    (replicas : sts.spec.replicas ≡ some n)
    (shows : (t : Trace) → Shows env first.target first.ip infos t)
    (updates : (t : Trace) (c : RedisCluster) → env.update_cluster t c ≡ ok c) where
  abbrev endpoints : Endpoints
  endpoints = addressed base (first ∷ rest) others

  abbrev Here : RedisClusterStatus → Type 0
  Here = Reports endpoints (first ∷ rest) nodes infos n

  module _ (addresses : List EndpointAddress) (sets : List StatefulSet) (owner : StatefulSet)
      (wanted current : ℕ) (info count : String)
      (named : (t : Trace) → env.get_endpoints t rc.namespace rc.name ≡ ok base)
      (subsets : base.subsets ≡ some (record { addresses = addresses } ∷ others))
      (sorted : sort_stable by_pod_name addresses ≡ first ∷ rest)
      (cached : (t : Trace) → env.cached_cluster t rc.namespace rc.name ≡ ok (cached_at rc t))
      (listed_sets : (t : Trace) → env.cached_stateful_sets t rc.namespace ≡ ok sets)
      (owned : find_stateful_set rc sets ≡ some owner) (counts : owner.status_replicas ≢ 0)
      (has : owner.spec.replicas ≡ some current) (wants : rc.spec.replicas ≡ some wanted)
      (enough : wanted ≤ current)
      (prints : (t : Trace) → (env.exec t first.target (cluster_info first.ip)).stdout ≡ info)
      (knows : known_nodes info ≡ some count)
      (is_ok : contains info "cluster_state:ok" ≡ true) where
    report_state-marks :
        (s : RedisClusterStatus) (t : Trace)
        → report_state env (with_status rc s) t
          ≡ mark_running_checked env (with_status rc s) endpoints (
              executed first.target (cluster_info first.ip)
              ∷ got_endpoints rc.namespace rc.name
              ∷ t)
    unfolding report_state exec_cluster_info run_command
    report_state-marks s t =
        let got = got_endpoints rc.namespace rc.name ∷ t in
        let (sound, _) = calm got (cluster_info first.ip) in
        rw
          (
            named t,
            has_address env base addresses others first rest subsets sorted,
            sort_endpoints-addressed base addresses (first ∷ rest) others subsets sorted,
            sound,
            prints got,
            knows,
            prints got,
            is_ok,
          )
          refl

    -- The calls of a sync of a settled cluster before it looks at the status.
    abbrev visited : Trace → Trace
    visited t =
        executed first.target (cluster_info first.ip)
        ∷ got_endpoints rc.namespace rc.name
        ∷ cached_stateful_sets rc.namespace
        ∷ cached_cluster rc.namespace rc.name
        ∷ t

    sync-marks :
        (s : RedisClusterStatus) (t : Trace)
        → cached_at rc t ≡ with_status rc s
        → may_be_settled s.phase ≡ true
        → length s.conditions ≡ wanted
        → sync env rc.namespace rc.name t
          ≡ mark_running_checked env (with_status rc s) endpoints (visited t)
    unfolding sync get_stateful_set_for handle check_and_update
    sync-marks s t held phase counted =
        let c = with_status rc s in
        let (_, decided, _) = handle_flag_cases c owner wanted current wants has in
        rw
          (
            cached t ∙ ap ok held,
            listed_sets (cached_cluster rc.namespace rc.name ∷ t),
            find_stateful_set-with_status rc s sets ∙ owned,
            decided.1 (counts, enough),
            is_settled-counted c wanted phase wants counted,
          )
          (report_state-marks s
            (cached_stateful_sets rc.namespace ∷ cached_cluster rc.namespace rc.name ∷ t))

    -- The status after a sync, which reports the cluster; where it did before, nothing was written.
    reports :
        (s : RedisClusterStatus) (t : Trace)
        → cached_at rc t ≡ with_status rc s
        → may_be_settled s.phase ≡ true
        → length s.conditions ≡ wanted
        → (s' : RedisClusterStatus) × (calls : List Event) × (sync env rc.namespace rc.name t
            ≡ (done (ok tt), calls ++ t))
          × (cached_at rc (calls ++ t) ≡ with_status rc s')
          × Here s'
          × (Here s → All Silent calls)
    unfolding mark_running_checked
    reports s t held phase counted =
        let seen =
          executed first.target (cluster_info first.ip)
          ∷ got_endpoints rc.namespace rc.name
          ∷ cached_stateful_sets rc.namespace
          ∷ cached_cluster rc.namespace rc.name
          ∷ [] in
        let started = sync-marks s t held phase counted in
        let (calls, silent, ending) =
          update_status-Reports env rc base first rest others infos nodes sts n calm listed stored
            replicas shows updates s (visited t) in
        let all = calls ++ seen in
        let joined : calls ++ visited t ≡ all ++ t = sym (append_assoc calls seen t) in
        let quiet : All Silent all =
          All-append Silent calls seen silent (tt, (tt, (tt, (tt, tt)))) in
        let kept : cached_at rc (all ++ t) ≡ with_status rc s =
          cached_at-Silent rc all t quiet ∙ held in
        elim ending [
          | inl (h, e) ↦
              (s, all, started ∙ rw e (ap (λ x. (done (ok tt), x)) joined), kept, h, (λ _. quiet))
          | inr (differs, (s', h, e)) ↦ (
            s',
            updated_cluster (with_status rc s') ∷ all,
            started
                ∙ rw e (ap (λ x. (done (ok tt), updated_cluster (with_status rc s') ∷ x)) joined),
            refl,
            h,
            (λ same. absurd (differs same)),
          )
        ]

    -- Let the API server store what is sent to it and the cache hold what was written last; let the pods
    -- be named, no command fail in the pod that is asked, `cluster info` say that the state is ok, and
    -- each look show the same members, as many as replicas are wanted. Let the custom resource have a
    -- condition for each of them, in a phase of a settled cluster, and own a set that reports replicas and
    -- has no less than are wanted. Then a sync returns without an error, and leaves a status that says
    -- Running, with the replicas of the set and a condition for each member; and the sync behind it
    -- returns without an error too, and writes nothing.
    pub sync-settles :
        (t : Trace)
        → cached_at rc t ≡ rc
        → may_be_settled rc.status.phase ≡ true
        → length rc.status.conditions ≡ wanted
        → length infos ≡ wanted
        → (calls calls' : List Event) × (sync env rc.namespace rc.name t
            ≡ (done (ok tt), calls ++ t))
          × Here (cached_at rc (calls ++ t)).status
          × (sync env rc.namespace rc.name (calls ++ t) ≡ (done (ok tt), calls' ++ (calls ++ t)))
          × All Silent calls'
    sync-settles t held phase counted members =
        let (s, calls, first_run, left, h, _) = reports rc.status t held phase counted in
        let again = calls ++ t in
        let (_, calls', second_run, _, _, quiet) =
          reports s again left (Running-settled s h.2)
            (Reports-counted endpoints (first ∷ rest) nodes infos n s h ∙ members) in
        (calls, calls', first_run, subst (λ c. Here c.status) (sym left) h, second_run, quiet h)
