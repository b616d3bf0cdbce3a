-- ===== src/Manager/Order.antt =====
-- The order of the actions of a run of the manager.
use middleware_operator_mana.Base.{
  ◌≡◌, ◌⊎◌, refl, inl, inr, Bool, true, false, List, [], ◌∷◌, ◌++◌, String, none, if◌then◌else◌,
  Bool-cases,
}
use middleware_operator_mana.Errors.{ok}
use middleware_operator_mana.Manager.Enabled.{is_operator_enabled}
use middleware_operator_mana.Manager.Options.{OperatorManagerServer}
use middleware_operator_mana.Manager.Start.{
  Action, asked_for_crd, serving, elected, started, started_informers, Machine, InitFunc,
  redis_cluster_crd, profiling_paths, start_redis_cluster_controller, new_operator_initializers,
  start_operators, lead, crd_error,
}

-- With the operators of the program no start fails: the one operator is started, with the number of
-- workers of the options, if it is enabled, and nothing is if not.
start_operators-known :
    (s : OperatorManagerServer)
    → start_operators s new_operator_initializers ≡ (
      if is_operator_enabled "rediscluster" s.operators
          then started "rediscluster" s.concurrent_redis_cluster_syncs ∷ []
          else [],
      none,
    )
unfolding start_operators new_operator_initializers start_redis_cluster_controller
start_operators-known s = elim (Bool-cases (is_operator_enabled "rediscluster" s.operators)) [
  | inl e ↦ rw e refl
  | inr e ↦ rw e refl
]

-- The enabled operators start in their order, none fails, and these are their actions.
abbrev pub Started : OperatorManagerServer → List (String × InitFunc) → List Action → Type 0
Started s [] actions = actions ≡ []
Started s ((name, init) ∷ operators) actions =
    ((is_operator_enabled name s.operators ≡ true)
      × ((b : Bool) × (later : List Action) × ((init s).1 ≡ ok b)
          × (actions ≡ (init s).0 ++ later)
          × Started s operators later))
    ⊎ ((is_operator_enabled name s.operators ≡ false) × Started s operators actions)

-- A run that serves for ever.
abbrev pub Serving :
    Machine → OperatorManagerServer → List (String × InitFunc) → List Action → Type 0
Serving m s operators actions =
    (crd_error (m.crd redis_cluster_crd) ≡ none)
    × (((s.leader_election.leader_elect ≡ true)
          × (m.lead ≡ none)
          × (actions ≡ asked_for_crd redis_cluster_crd ∷ serving (profiling_paths s) ∷ []))
        ⊎ ((begun : List Action) × Started s operators begun
            × (actions
                ≡ asked_for_crd redis_cluster_crd
                    ∷ serving (profiling_paths s)
                    ∷ (if s.leader_election.leader_elect then elected ∷ [] else [])
                  ++ begun
                  ++ started_informers ∷ [])))
