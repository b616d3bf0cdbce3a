-- ===== src/Commands/Slots.antt =====
-- `reshareRedisClusterSlotsToMasterNode` (sync_rediscluster.go): which commands it runs, and in which
-- order, while all goes well.
use middleware_operator_mana.Base.{
  ◌≤◌, ◌<◌, ◌≡◌, ◌≢◌, refl, ◌⊎◌, inl, inr, List, [], ◌∷◌, String, none, some, Option-cases, All,
  arith, length,
}
use middleware_operator_mana.Commands.{pipeline_of, reshard_each, reshard_slots}
use middleware_operator_mana.Commands.Joining.{Calm, wait_calm, do_calm}
use middleware_operator_mana.Errors.{Result, ok, Error, trib_check, reshard}
use middleware_operator_mana.Outcome.{Outcome, done, panic}
use middleware_operator_mana.Types.{
  ObjectReference, RedisClusterUpdateStrategy, SlotsAssignStrategy,
}
use middleware_operator_mana.World.{Env, executed, Trace}

-- A check through `exist_ip`, then slots for a master, as its own strategy says.
abbrev pub slot_calls :
    ObjectReference → String → String → List SlotsAssignStrategy → List String → Trace → Trace
slot_calls pod pipeline exist_ip (s ∷ strategies) (node_id ∷ node_ids) t = elim s.slots [
  | none ↦ t
  | some slots ↦ slot_calls pod pipeline exist_ip strategies node_ids (
      executed pod (reshard s.from_replicas node_id slots pipeline exist_ip)
      ∷ executed pod (trib_check exist_ip)
      ∷ t)
]
slot_calls pod pipeline exist_ip _ _ t = t

module _ (env : Env) (pod : ObjectReference) (calm : Calm env pod)
    (pipeline exist_ip : String) where
  abbrev Ends :
      List SlotsAssignStrategy
      → List String
      → Trace
      → Outcome (Result Error (Unit {0})) × Trace
      → Type 0
  Ends strategies node_ids t r =
      ((length node_ids ≤ length strategies)
        × (r ≡ (done (ok tt), slot_calls pod pipeline exist_ip strategies node_ids t)))
      ⊎ ((length strategies < length node_ids) × (r.0 ≡ panic))

  reshard_each-Ends :
      (strategies : List SlotsAssignStrategy) (node_ids : List String) (t : Trace)
      → All (λ s. s.slots ≢ none) strategies
      → Ends strategies node_ids t (reshard_each env strategies pipeline exist_ip pod node_ids t)
  unfolding reshard_each
  reshard_each-Ends [] [] t h = inl (omega arith, refl)
  reshard_each-Ends (s ∷ strategies) [] t h = inl (omega arith, refl)
  reshard_each-Ends [] (node_id ∷ node_ids) t h =
      inr (omega arith, rw (wait_calm env pod calm exist_ip t) refl)
  reshard_each-Ends (s ∷ strategies) (node_id ∷ node_ids) t h = elim (Option-cases s.slots) [
    | inl e ↦ absurd (h.0 e)
    | inr (slots, e) ↦
        let checked = executed pod (trib_check exist_ip) ∷ t in
        let command = reshard s.from_replicas node_id slots pipeline exist_ip in
        let rest = reshard_each-Ends strategies node_ids (executed pod command ∷ checked) h.1 in
        rw (wait_calm env pod calm exist_ip t, e, do_calm env pod calm command checked)
          (elim rest [
            | inl (l, r) ↦ inl (omega (arith, l), r)
            | inr (l, r) ↦ inr (omega (arith, l), r)
          ])
  ]

module _ (env : Env) (pod : ObjectReference) (calm : Calm env pod) where
  -- While no command fails and no check finds errors, and all strategies give slots: if there is a
  -- strategy for each new master, each gets its slots by its own strategy, in their order, each by one
  -- command behind one check, with the pipeline of the custom resource or the default; if there are
  -- more new masters than strategies, the code panics.
  pub reshard-calls :
      (strategy : RedisClusterUpdateStrategy) (exist_ip : String) (node_ids : List String)
      (t : Trace)
      → All (λ s. s.slots ≢ none) strategy.assign_strategies
      → ((length node_ids ≤ length strategy.assign_strategies)
          × (reshard_slots env strategy exist_ip pod node_ids t ≡ (
            done (ok tt),
            slot_calls pod
                (pipeline_of strategy.pipeline)
                exist_ip
                strategy.assign_strategies
                node_ids
                t,
          )))
        ⊎ ((length strategy.assign_strategies < length node_ids)
            × ((reshard_slots env strategy exist_ip pod node_ids t).0 ≡ panic))
  unfolding reshard_slots
  reshard-calls strategy exist_ip node_ids t h =
      reshard_each-Ends env pod calm (pipeline_of strategy.pipeline) exist_ip
        strategy.assign_strategies node_ids t h
