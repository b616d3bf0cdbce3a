-- ===== src/Lifecycle/Reports.antt =====
-- The status that reports a running cluster (`updateRedisClusterStatus`, sync_rediscluster.go), in
-- surroundings where nothing goes wrong.
use middleware_operator_mana.Base.{
  length-map, length-perm, sort_stable-perm, ℕ, ◌≡◌, refl, sym, ap, ◌∙◌, ◌⊎◌, inl, inr, Bool-cases,
  List, ◌∷◌, ◌++◌, map, none, some, length, sort_stable, sort_stable-map, All,
}
use middleware_operator_mana.Commands.Joining.{Calm}
use middleware_operator_mana.Errors.{ok}
use middleware_operator_mana.Lifecycle.Order.{Shows}
use middleware_operator_mana.Lifecycle.Running.{addressed}
use middleware_operator_mana.Lifecycle.Lines.{lines, looked}
use middleware_operator_mana.Outcome.{done}
use middleware_operator_mana.Status.{
  by_name, sort_conditions, write_status, update_redis_cluster_status, status_of, Updated,
  shares_conditions,
}
use middleware_operator_mana.Status.Phases.{run-Silent, Reads-Silent}
use middleware_operator_mana.Status.Quiet.{temp_status-Emits}
use middleware_operator_mana.Types.{
  EndpointAddress, EndpointSubset, Endpoints, Node, RedisCluster, RedisClusterStatus, RedisNodeInfo,
}
use middleware_operator_mana.Types.Objects.{StatefulSet}
use middleware_operator_mana.Types.Phase
use middleware_operator_mana.Util.Status.{deep_equal, deep_equal-timeless, timeless}
use middleware_operator_mana.World.{Env, Event, Trace, updated_cluster}
use middleware_operator_mana.World.Ascends.{Silent}

abbrev pub with_status : RedisCluster → RedisClusterStatus → RedisCluster
with_status rc s = record rc { status = s }

-- The status says Running, with `n` replicas and a condition for each node, in the order of their names,
-- at whatever times.
abbrev pub Reports :
    Endpoints
    → List EndpointAddress
    → List Node
    → List RedisNodeInfo
    → ℕ
    → RedisClusterStatus
    → Type 0
Reports endpoints addresses nodes infos n s =
    (s.replicas ≡ n)
    × (s.reason ≡ "")
    × (s.phase ≡ Phase.running)
    × (map timeless s.conditions ≡ sort_stable by_name (lines nodes endpoints addresses infos))

-- There is a condition for each node.
pub Reports-counted :
    (endpoints : Endpoints) (addresses : List EndpointAddress) (nodes : List Node)
    (infos : List RedisNodeInfo) (n : ℕ) (s : RedisClusterStatus)
    → Reports endpoints addresses nodes infos n s
    → length s.conditions ≡ length infos
Reports-counted endpoints addresses nodes infos n s h =
    sym (length-map timeless s.conditions)
    ∙ ap length h.3
    ∙ length-perm (sort_stable-perm by_name (lines nodes endpoints addresses infos))
    ∙ length-map _ infos

-- The outcome of a write that went well, or that was not needed.
abbrev pub reported : RedisCluster → Updated
reported c = record { object = c; returned = c; error = none }

module _ (env : Env) (rc : RedisCluster) (base : Endpoints) (first : EndpointAddress)
    (rest : List EndpointAddress) (others : List EndpointSubset) (infos : List RedisNodeInfo)
    (nodes : List Node) (sts : StatefulSet) (n : ℕ) (calm : Calm env first.target)
    (listed : (t : Trace) → env.list_nodes t ≡ ok nodes)
    (stored : (t : Trace) → env.get_stateful_set t rc.namespace rc.name ≡ ok sts)
    (replicas : sts.spec.replicas ≡ some n)
    (shows : (t : Trace) → Shows env first.target first.ip infos t)
    (updates : (t : Trace) (c : RedisCluster) → env.update_cluster t c ≡ ok c) where
  abbrev endpoints : Endpoints
  endpoints = addressed base (first ∷ rest) others

  abbrev Here : RedisClusterStatus → Type 0
  Here = Reports endpoints (first ∷ rest) nodes infos n

  -- Unless the status reports the cluster already, a status that does is written.
  pub update_status-Reports :
      (s : RedisClusterStatus) (t : Trace)
      → (calls : List Event) × All Silent calls
        × ((Here s
              × (update_redis_cluster_status env
                    (with_status rc s)
                    (some endpoints)
                    Phase.running
                    ""
                    t
                  ≡ (done (reported (with_status rc s)), calls ++ t)))
            ⊎ ((¬ Here s)
                × ((s' : RedisClusterStatus) × Here s'
                    × (update_redis_cluster_status env
                          (with_status rc s)
                          (some endpoints)
                          Phase.running
                          ""
                          t
                        ≡ (
                          done (reported (with_status rc s')),
                          updated_cluster (with_status rc s') ∷ (calls ++ t),
                        )))))
  unfolding update_redis_cluster_status write_status shares_conditions
  update_status-Reports s t =
      let c = with_status rc s in
      let (cs, t', made, d) =
        looked env base first rest others infos nodes calm listed rc.namespace rc.name sts n stored
          replicas c t refl refl (shows _) in
      let run =
        (temp_status-Emits env {P = Silent} run-Silent Reads-Silent c (some endpoints) Phase.running
            "").at
          t in
      let grown : t' ≡ run.calls ++ t = sym (ap (λ r. r.1) made) ∙ run.added in
      let sorted : map timeless (sort_stable by_name cs)
          ≡ sort_stable by_name (lines nodes endpoints (first ∷ rest) infos) =
        sort_stable-map by_name by_name timeless (λ x y. refl) cs ∙ ap (sort_stable by_name) d in
      let temp = sort_conditions (status_of n Phase.running "" cs) in
      let agree = deep_equal-timeless temp s in
      (
        run.calls,
        run.allowed,
        elim (Bool-cases (deep_equal temp s)) [
          | inl e ↦
              let (p, q, r, l) = agree.0 e in
              inl (
                (sym p, sym q, sym r, sym l ∙ sorted),
                rw (made, e) (ap (λ x. (done (reported c), x)) grown),
              )
          | inr e ↦ inr (
            (λ h. absurd (cc (e, agree.1 (sym h.0, sym h.1, sym h.2, sorted ∙ sym h.3)))),
            (
              temp,
              (refl, refl, refl, sorted),
              rw (made, e, updates t' (with_status rc temp))
                  (ap
                    (λ x. (
                      done (reported (with_status rc temp)),
                      updated_cluster (with_status rc temp) ∷ x,
                    ))
                    grown),
            ),
          )
        ],
      )
