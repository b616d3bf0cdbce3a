-- ===== src/Lifecycle/Lines.antt =====
-- What a look at the members of a cluster makes of them for the status (sync_rediscluster.go), but for
-- the times.
use middleware_operator_mana.Base.{ℕ, ◌≡◌, refl, ap, List, [], ◌∷◌, map, String, some}
use middleware_operator_mana.Commands.Joining.{Calm}
use middleware_operator_mana.Errors.{ok}
use middleware_operator_mana.Lifecycle.Order.{Shows}
use middleware_operator_mana.Lifecycle.Running.{addressed, described, temp_status-made}
use middleware_operator_mana.Outcome.{done}
use middleware_operator_mana.Status.{temp_status, status_of}
use middleware_operator_mana.Status.Conditions.{
  condition_of, instance_at, no_instance, conditions_from,
}
use middleware_operator_mana.Types.{
  EndpointAddress, EndpointSubset, Endpoints, Node, RedisCluster, RedisClusterCondition,
  RedisNodeInfo,
}
use middleware_operator_mana.Types.Objects.{StatefulSet}
use middleware_operator_mana.Types.Phase
use middleware_operator_mana.Util.Status.{timeless}
use middleware_operator_mana.World.{Env, Trace, looked_at_clock, got_stateful_set}

-- The condition of each line, but for the time.
abbrev pub lines :
    List Node → Endpoints → List EndpointAddress → List RedisNodeInfo → List RedisClusterCondition
lines nodes endpoints addresses infos =
    map
      (λ (info : RedisNodeInfo).
        condition_of (instance_at no_instance nodes endpoints info.ip_port addresses) 0 info)
      infos

conditions_from-lines :
    (env : Env) (nodes : List Node) (endpoints : Endpoints) (addresses : List EndpointAddress)
    (infos : List RedisNodeInfo) (t : Trace)
    → (cs : List RedisClusterCondition) × (t' : Trace) × (conditions_from env nodes endpoints
          addresses infos t
        ≡ (done cs, t'))
      × (map timeless cs ≡ lines nodes endpoints addresses infos)
unfolding conditions_from condition_of
conditions_from-lines env nodes endpoints addresses [] t = ([], t, refl, refl)
conditions_from-lines env nodes endpoints addresses (info ∷ infos) t =
    let (cs, t', e, d) =
      conditions_from-lines env nodes endpoints addresses infos (looked_at_clock ∷ t) in
    let line =
      condition_of (instance_at no_instance nodes endpoints info.ip_port addresses) (env.clock t)
        info in
    (line ∷ cs, t', rw e refl, ap (λ l. timeless line ∷ l) d)

module _ (env : Env) (base : Endpoints) (first : EndpointAddress) (rest : List EndpointAddress)
    (others : List EndpointSubset) (infos : List RedisNodeInfo) (nodes : List Node)
    (calm : Calm env first.target) (listed : (t : Trace) → env.list_nodes t ≡ ok nodes)
    (namespace name : String) (sts : StatefulSet) (n : ℕ)
    (stored : (t : Trace) → env.get_stateful_set t namespace name ≡ ok sts)
    (replicas : sts.spec.replicas ≡ some n) where
  abbrev endpoints : Endpoints
  endpoints = addressed base (first ∷ rest) others

  -- What a look at the cluster finds.
  pub looked :
      (rc : RedisCluster) (t : Trace)
      → rc.namespace ≡ namespace
      → rc.name ≡ name
      → Shows env first.target first.ip infos (got_stateful_set rc.namespace rc.name ∷ t)
      → (cs : List RedisClusterCondition) × (t' : Trace) × (temp_status env rc
            (some endpoints)
            Phase.running
            ""
            t
          ≡ (done (ok (status_of n Phase.running "" cs)), t'))
        × (map timeless cs ≡ lines nodes endpoints (first ∷ rest) infos)
  looked rc t in_namespace named shows =
      let (cs, t', made, d) = conditions_from-lines env nodes endpoints (first ∷ rest) infos (
        described env base first rest others infos nodes calm listed
          (got_stateful_set rc.namespace rc.name ∷ t)) in
      let there : env.get_stateful_set t rc.namespace rc.name ≡ ok sts =
        rw (in_namespace, named) (stored t) in
      (
        cs,
        t',
        temp_status-made env base first rest others infos nodes calm listed rc sts n replicas t t'
            cs there shows made,
        d,
      )
