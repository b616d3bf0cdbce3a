-- ===== src/Lifecycle/Running.antt =====
-- The write of the phase Running that ends a creation or a scaling (sync_rediscluster.go), in surroundings where
-- nothing goes wrong.
use middleware_operator_mana.Base.{
  ℕ, ◌≡◌, ◌≢◌, refl, sym, ap, ◌∙◌, [], String, inl, inr, List, ◌∷◌, some, Perm,
}
use middleware_operator_mana.Commands.Joining.{Calm}
use middleware_operator_mana.Errors.{ok, cluster_nodes, trib_check}
use middleware_operator_mana.Lifecycle.Order.{Shows, nodes_calls, nodes-Calm}
use middleware_operator_mana.Lifecycle.Ready.{mark_running}
use middleware_operator_mana.Outcome.{done}
use middleware_operator_mana.Status.{
  running_status, temp_status, update_redis_cluster_status, status_of,
}
use middleware_operator_mana.Status.Conditions.{conditions_from, build_conditions}
use middleware_operator_mana.Status.Nodes.{Described, conditions_from-Described}
use middleware_operator_mana.Status.Writes.{write_status-writes}
use middleware_operator_mana.Types.{
  EndpointAddress, EndpointSubset, Endpoints, Node, RedisCluster, RedisClusterCondition,
  RedisNodeInfo,
}
use middleware_operator_mana.Types.Objects.{StatefulSet}
use middleware_operator_mana.Types.Phase
use middleware_operator_mana.World.{
  Env, Trace, executed, looked_at_clock, got_stateful_set, listed_nodes, updated_cluster,
}

-- The clock is looked at for each line.
abbrev pub clock_calls : List RedisNodeInfo → Trace → Trace
clock_calls [] t = t
clock_calls (info ∷ infos) t = clock_calls infos (looked_at_clock ∷ t)

-- The calls for a status that says Running, the latest first: the set, the nodes as `first` sees them
-- behind a check, the nodes of Kubernetes, and the clock for each line.
abbrev pub status_calls : String → String → EndpointAddress → List RedisNodeInfo → Trace → Trace
status_calls namespace name first infos t = clock_calls infos (
    listed_nodes
    ∷ executed first.target (cluster_nodes first.ip)
    ∷ executed first.target (trib_check first.ip)
    ∷ got_stateful_set namespace name
    ∷ t)

-- The history when the nodes are looked at.
abbrev pub looking : String → String → EndpointAddress → Trace → Trace
looking namespace name first t =
    executed first.target (trib_check first.ip) ∷ got_stateful_set namespace name ∷ t

conditions_from-clock :
    (env : Env) (nodes : List Node) (endpoints : Endpoints) (addresses : List EndpointAddress)
    (infos : List RedisNodeInfo) (t : Trace)
    → (conditions_from env nodes endpoints addresses infos t).1 ≡ clock_calls infos t
unfolding conditions_from
conditions_from-clock env nodes endpoints addresses [] t = refl
conditions_from-clock env nodes endpoints addresses (info ∷ infos) t =
    let (cs, t', e, _) =
      conditions_from-Described env nodes endpoints addresses infos (looked_at_clock ∷ t) in
    rw e (
      sym (ap (λ r. r.1) e)
      ∙ conditions_from-clock env nodes endpoints addresses infos (looked_at_clock ∷ t))

-- The endpoints with the addresses of the first subset.
abbrev pub addressed : Endpoints → List EndpointAddress → List EndpointSubset → Endpoints
addressed base addresses others = record base {
  subsets = some (record { addresses = addresses } ∷ others);
}

module _ (env : Env) (base : Endpoints) (first : EndpointAddress) (rest : List EndpointAddress)
    (others : List EndpointSubset) (infos : List RedisNodeInfo) (nodes : List Node)
    (calm : Calm env first.target) (listed : (t : Trace) → env.list_nodes t ≡ ok nodes) where
  abbrev endpoints : Endpoints
  endpoints = addressed base (first ∷ rest) others

  -- The history when the conditions are made.
  abbrev pub described : Trace → Trace
  described t = listed_nodes ∷ nodes_calls first.target first.ip t

  build_conditions-made :
      (t t' : Trace) (cs : List RedisClusterCondition)
      → Shows env first.target first.ip infos t
      → conditions_from env nodes endpoints (first ∷ rest) infos (described t) ≡ (done cs, t')
      → build_conditions env endpoints t ≡ (done (ok cs), t')
  unfolding build_conditions
  build_conditions-made t t' cs shows made =
      let looked = nodes_calls first.target first.ip t in
      rw (nodes-Calm env first.target calm first.ip infos t shows, listed looked, made) refl

  module _ (rc : RedisCluster) (sts : StatefulSet) (n : ℕ)
      (replicas : sts.spec.replicas ≡ some n) where
    pub temp_status-made :
        (t t' : Trace) (cs : List RedisClusterCondition)
        → env.get_stateful_set t rc.namespace rc.name ≡ ok sts
        → Shows env first.target first.ip infos (got_stateful_set rc.namespace rc.name ∷ t)
        → conditions_from env nodes endpoints
            (first ∷ rest)
            infos
            (described (got_stateful_set rc.namespace rc.name ∷ t))
          ≡ (done cs, t')
        → temp_status env rc (some endpoints) Phase.running "" t
          ≡ (done (ok (status_of n Phase.running "" cs)), t')
    unfolding temp_status running_status
    temp_status-made t t' cs stored shows made =
        let got = got_stateful_set rc.namespace rc.name ∷ t in
        rw (stored, build_conditions-made got t' cs shows made, replicas) refl

    -- Unless the status says so already, Running is written, with the replicas of the stateful set and a
    -- condition for each node.
    pub mark_running-writes :
        (t : Trace)
        → env.get_stateful_set t rc.namespace rc.name ≡ ok sts
        → Shows env first.target first.ip infos (got_stateful_set rc.namespace rc.name ∷ t)
        → rc.status.phase ≢ Phase.running
        → (changed : RedisCluster) × (cs : List RedisClusterCondition) × (mark_running env rc
              endpoints t
            ≡ (
              done (ok tt),
              updated_cluster changed ∷ status_calls rc.namespace rc.name first infos t,
            ))
          × (changed.status.phase ≡ Phase.running)
          × (changed.status.replicas ≡ n)
          × Perm changed.status.conditions cs
          × Described nodes endpoints (first ∷ rest) infos cs
    unfolding mark_running update_redis_cluster_status
    mark_running-writes t stored shows fresh =
        let got = got_stateful_set rc.namespace rc.name ∷ t in
        let (cs, t', made, d) =
          conditions_from-Described env nodes endpoints (first ∷ rest) infos (described got) in
        let e = temp_status-made t t' cs stored shows made in
        let ended : t' ≡ status_calls rc.namespace rc.name first infos t =
          sym (ap (λ r. r.1) made)
          ∙ conditions_from-clock env nodes endpoints (first ∷ rest) infos (described got) in
        elim (write_status-writes env rc Phase.running (status_of n Phase.running "" cs) t') [
          | inl ((_, _, same, _), _) ↦ absurd (fresh (sym same))
          | inr (_, (changed, u, w, o, r, _, p, perm, _)) ↦ (
            changed,
            cs,
            rw (e, w) (ap (λ x. (done (ok tt), updated_cluster changed ∷ x)) ended),
            p,
            r,
            perm,
            d,
          )
        ]
