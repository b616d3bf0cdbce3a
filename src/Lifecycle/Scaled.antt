-- ===== src/Lifecycle/Scaled.antt =====
-- The upgrade of a cluster (`upgradeRedisCluster`, sync_rediscluster.go) in surroundings where nothing
-- goes wrong, from the look at the joining instances to the write of the phase Running.
use mathlib.Core.List.{append_assoc}
use middleware_operator_mana.Base.{
  ◌++◌, [], sym, Option-cases, ℕ, ◌≤◌, ◌≡◌, ◌≢◌, refl, ap, ◌∙◌, ◌⊎◌, inl, inr, List, ◌∷◌, map,
  String, str_eq, eq_iff, none, length, ◌==◌, ==_iff, Bool-cases, false, All, arith,
}
use middleware_operator_mana.Commands.{pipeline_of, rebalance_slots, reshard_slots}
use middleware_operator_mana.Commands.Joining.{Calm, wait_calm, do_calm, master_calls, slave_calls}
use middleware_operator_mana.Commands.Slots.{slot_calls, reshard-calls}
use middleware_operator_mana.Compose.{build_will_add}
use middleware_operator_mana.Errors.{ok, Error, Result, trib_check, rebalance, reshard}
use middleware_operator_mana.Lifecycle.Endpoints.{node_ids_containing}
use middleware_operator_mana.Lifecycle.Order.{nodes_calls, nodes-Calm, Shows, join_instances-found}
use middleware_operator_mana.Lifecycle.Ready.{mark_running}
use middleware_operator_mana.Lifecycle.Running.{addressed}
use middleware_operator_mana.Lifecycle.Upgrade.{
  current_info, scale_redis_cluster, assign_slots, auto_assign, manual_assign, upgrade_by,
}
use middleware_operator_mana.Outcome.{done}
use middleware_operator_mana.Types.{
  EndpointAddress, EndpointSubset, Endpoints, ObjectReference, RedisCluster, RedisNodeInfo,
  RedisClusterUpdateStrategy, SlotsAssignStrategy, auto_receive, assign_receive,
}
use middleware_operator_mana.World.{Env, Event, Trace, M, executed}

-- The strategy gives slots to `n` new masters.
abbrev pub Hands : RedisClusterUpdateStrategy → ℕ → Type 0
Hands strategy n =
    (strategy.type ≡ auto_receive)
    ⊎ ((strategy.type ≡ assign_receive)
        × All (λ s. s.slots ≢ none) strategy.assign_strategies
        × (n ≤ length strategy.assign_strategies))

-- The new masters join behind a look at the nodes, then, behind another, each slave joins its master by
-- the master's id.
abbrev pub grown_calls :
    ObjectReference → String → String → List String → List String → List String → Trace → Trace
grown_calls pod exist_ip m masters slaves ids t = slave_calls pod m slaves (m ∷ masters) ids (
    nodes_calls pod exist_ip (master_calls pod exist_ip (m ∷ masters) (nodes_calls pod exist_ip t)))

slot_calls-behind :
    (pod : ObjectReference) (pipeline exist_ip : String) (strategies : List SlotsAssignStrategy)
    (node_ids : List String) (t : Trace)
    → (calls : List Event) × (slot_calls pod pipeline exist_ip strategies node_ids t ≡ calls ++ t)
slot_calls-behind pod pipeline exist_ip [] node_ids t = ([], refl)
slot_calls-behind pod pipeline exist_ip (s ∷ strategies) [] t = ([], refl)
slot_calls-behind pod pipeline exist_ip (s ∷ strategies) (id ∷ node_ids) t =
    elim (Option-cases s.slots) [
      | inl e ↦ ([], rw e refl)
      | inr (slots, e) ↦
          let two =
            executed pod (reshard s.from_replicas id slots pipeline exist_ip)
            ∷ executed pod (trib_check exist_ip)
            ∷ [] in
          let (calls, h) = slot_calls-behind pod pipeline exist_ip strategies node_ids (two ++ t) in
          (calls ++ two, rw e (h ∙ sym (append_assoc calls two t)))
    ]

rebalance_slots-Calm :
    (env : Env) (pod : ObjectReference)
    → Calm env pod
    → (exist_ip pipeline : String) (t : Trace)
    → rebalance_slots env exist_ip pod pipeline t ≡ (
      done (ok tt),
      executed pod (rebalance (pipeline_of pipeline) exist_ip)
          ∷ executed pod (trib_check exist_ip)
          ∷ t,
    )
unfolding rebalance_slots
rebalance_slots-Calm env pod calm exist_ip pipeline t =
    rw
      (
        wait_calm env pod calm exist_ip t,
        do_calm env pod calm (rebalance (pipeline_of pipeline) exist_ip)
            (executed pod (trib_check exist_ip) ∷ t),
      )
      refl

not_empty : {A : Type 0} (a : A) (rest : List A) → (length (a ∷ rest) == 0) ≡ false
not_empty a rest = elim (Bool-cases (length (a ∷ rest) == 0)) [
  | inl e ↦ let n = (==_iff (length (a ∷ rest)) 0).0 e in absurd (omega (arith, n))
  | inr e ↦ e
]

module _ (env : Env) (base old : Endpoints) (first o : EndpointAddress)
    (rest olds : List EndpointAddress) (others others' : List EndpointSubset) (m : String)
    (masters slaves parents : List String) (infos later : List RedisNodeInfo) (t : Trace)
    (calm : (pod : ObjectReference) → Calm env pod) (shows : Shows env first.target o.ip infos t)
    (shows' : Shows env first.target o.ip later
      (master_calls first.target o.ip (m ∷ masters) (nodes_calls first.target o.ip t)))
    (planned : build_will_add infos (addressed base (first ∷ rest) others)
      ≡ done (ok (record { master_ips = m ∷ masters; slave_ips = slaves; parent_ips = parents })))
    (known : length (node_ids_containing (m ∷ masters) later) ≡ length (m ∷ masters))
    (paired : length slaves ≡ length (m ∷ masters)) where
  abbrev now : Endpoints
  now = addressed base (first ∷ rest) others

  abbrev before : Endpoints
  before = addressed old (o ∷ olds) others'

  abbrev ids : List String
  ids = node_ids_containing (m ∷ masters) later

  abbrev joined : Trace
  joined = grown_calls first.target o.ip m masters slaves ids t

  scale_redis_cluster-order :
      scale_redis_cluster env now before t ≡ (done (ok (map (λ a. a.ip) (o ∷ olds), ids)), joined)
  unfolding scale_redis_cluster current_info
  scale_redis_cluster-order =
      rw
        (
          not_empty first rest,
          not_empty o olds,
          nodes-Calm env first.target (calm first.target) o.ip infos t shows,
          planned,
        )
        (join_instances-found env first.target o.ip m (map (λ a. a.ip) (o ∷ olds)) masters slaves
          parents later (nodes_calls first.target o.ip t) (calm first.target) shows' known paired)

  -- The slots are handed out behind the joins, and the cluster is marked Running behind one more look.
  assign_slots-order :
      (rc : RedisCluster) (looked_in : ObjectReference → String)
      (hand_out : String → ObjectReference → List String → M (Result Error (Unit {0})))
      (handed : Trace) (last : List RedisNodeInfo)
      → hand_out o.ip first.target ids joined ≡ (done (ok tt), handed)
      → Shows env
          (record { name = first.target.name; namespace = looked_in first.target })
          o.ip
          last
          handed
      → assign_slots env rc now before looked_in hand_out t
        ≡ mark_running env rc now (
            nodes_calls
              (record { name = first.target.name; namespace = looked_in first.target })
              o.ip
              handed)
  unfolding assign_slots
  assign_slots-order rc looked_in hand_out handed last h shows'' =
      let pod' : ObjectReference = record {
        name = first.target.name;
        namespace = looked_in first.target;
      } in
      rw (scale_redis_cluster-order, h, nodes-Calm env pod' (calm pod') o.ip last handed shows'')
        refl

  -- The slots, rebalanced over all masters.
  abbrev rebalanced : RedisCluster → Trace
  rebalanced rc =
      executed first.target (rebalance (pipeline_of rc.spec.update_strategy.pipeline) o.ip)
      ∷ executed first.target (trib_check o.ip)
      ∷ joined

  -- The slots, given to each new master by its own strategy.
  abbrev resharded : RedisCluster → Trace
  resharded rc =
      slot_calls first.target (pipeline_of rc.spec.update_strategy.pipeline) o.ip
        rc.spec.update_strategy.assign_strategies ids joined

  module _ (rc : RedisCluster) (seen : ObjectReference → Trace → List RedisNodeInfo)
      (shown : (t : Trace) (pod : ObjectReference) → Shows env pod o.ip (seen pod t) t) where
    auto_assign-order :
        auto_assign env rc now before t
        ≡ mark_running env rc now (
            nodes_calls
              (record { name = first.target.name; namespace = first.target.namespace })
              o.ip
              (rebalanced rc))
    unfolding auto_assign
    auto_assign-order =
        assign_slots-order rc (λ pod. pod.namespace)
          (λ exist_ip pod node_ids.
            rebalance_slots env exist_ip pod rc.spec.update_strategy.pipeline)
          (rebalanced rc) (seen _ (rebalanced rc))
          (rebalance_slots-Calm env first.target (calm first.target) o.ip
            rc.spec.update_strategy.pipeline joined)
          (shown (rebalanced rc) _)

    manual_assign-order :
        All (λ s. s.slots ≢ none) rc.spec.update_strategy.assign_strategies
        → length (m ∷ masters) ≤ length rc.spec.update_strategy.assign_strategies
        → manual_assign env rc now before t
          ≡ mark_running env rc now (
              nodes_calls
                (record { name = first.target.name; namespace = rc.namespace })
                o.ip
                (resharded rc))
    unfolding manual_assign
    manual_assign-order given enough =
        let handed : reshard_slots env rc.spec.update_strategy o.ip first.target ids joined
            ≡ (done (ok tt), resharded rc) =
          elim (reshard-calls env first.target (calm first.target) rc.spec.update_strategy o.ip ids
            joined given) [
              | inl (_, r) ↦ r
              | inr (few, _) ↦ absurd (omega (arith, few, enough, known))
            ] in
        assign_slots-order rc (λ pod. rc.namespace)
          (λ exist_ip pod node_ids. reshard_slots env rc.spec.update_strategy exist_ip pod node_ids)
          (resharded rc) (seen _ (resharded rc)) handed (shown (resharded rc) _)

    -- The joining instances get roles and join, the slots are handed out, and the cluster is marked
    -- Running behind one more look.
    pub upgrade_by-order :
        Hands rc.spec.update_strategy (length (m ∷ masters))
        → (pod : ObjectReference) × (handed : List Event) × ((marked : Trace)
            → mark_running env rc now (nodes_calls pod o.ip (handed ++ joined))
              ≡ (done (ok tt), marked)
            → upgrade_by env rc.spec.update_strategy.type rc now before t ≡ (done (ok tt), marked))
    unfolding upgrade_by
    upgrade_by-order (inl auto) = (
      record { name = first.target.name; namespace = first.target.namespace },
      executed first.target (rebalance (pipeline_of rc.spec.update_strategy.pipeline) o.ip)
          ∷ executed first.target (trib_check o.ip)
          ∷ [],
      λ marked marks.
          rw ((eq_iff rc.spec.update_strategy.type auto_receive).1 auto, auto_assign-order ∙ marks)
            refl,
    )
    upgrade_by-order (inr (by_hand, given, enough)) =
        let type = rc.spec.update_strategy.type in
        let not_auto : str_eq type auto_receive ≡ false = ap (λ s. str_eq s auto_receive) by_hand in
        let pod : ObjectReference = record { name = first.target.name; namespace = rc.namespace } in
        let (handed, e) =
          slot_calls-behind first.target (pipeline_of rc.spec.update_strategy.pipeline) o.ip
            rc.spec.update_strategy.assign_strategies ids joined in
        (
          pod,
          handed,
          λ marked marks.
              rw
                (
                  not_auto,
                  (eq_iff type assign_receive).1 by_hand,
                  manual_assign-order given enough
                      ∙ ap (λ x. mark_running env rc now (nodes_calls pod o.ip x)) e
                      ∙ marks,
                )
                refl,
        )
