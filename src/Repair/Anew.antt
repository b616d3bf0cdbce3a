-- ===== src/Repair/Anew.antt =====
-- What `checkAndUpdateRedisClusterStatus` (check_rediscluster.go) makes of a cluster of which some
-- instance knows others while its state is not ok.
use middleware_operator_mana.Base.{
  ℕ, ◌≡◌, ◌≢◌, refl, ap, ◌∙◌, ◌⊎◌, inl, inr, Bool, true, false, Bool-cases, List, [], ◌∷◌, ◌++◌,
  String, str_eq, eq_iff, some, length, sort_stable, All, ◌||◌,
}
use middleware_operator_mana.Commands.{exec_cluster_info, run_command}
use middleware_operator_mana.Commands.Joining.{Calm}
use middleware_operator_mana.Errors.{ok, cluster_info}
use middleware_operator_mana.Lifecycle.Create.{create_and_init}
use middleware_operator_mana.Lifecycle.Endpoints.{by_pod_name}
use middleware_operator_mana.Lifecycle.Formed.{
  check_pods_ready-ready, has_address, sort_endpoints-addressed,
}
use middleware_operator_mana.Lifecycle.Running.{addressed}
use middleware_operator_mana.Outcome.{done}
use middleware_operator_mana.Repair.Check.{repair, repair_by}
use middleware_operator_mana.Repair.Parts.{repair_phase}
use middleware_operator_mana.Repair.State.{get_clustered}
use middleware_operator_mana.Text.{contains, known_nodes}
use middleware_operator_mana.Types.{
  EndpointAddress, EndpointSubset, Endpoints, ObjectReference, RedisCluster, RedisClusterCondition,
}
use middleware_operator_mana.Types.Phase.{RedisClusterPhase}
use middleware_operator_mana.Types.Phase
use middleware_operator_mana.World.{Env, Trace, executed, got_endpoints}

-- `cluster info` of each instance, in their order.
abbrev pub info_calls : List EndpointAddress → Trace → Trace
info_calls [] t = t
info_calls (a ∷ rest) t = info_calls rest (executed a.target (cluster_info a.ip) ∷ t)

-- The text says that the state is ok, or that the instance knows itself only.
abbrev pub Fine : String → Type 0
Fine text =
    (contains text "cluster_state:ok" ≡ true) × ((count : String) × (known_nodes text ≡ some count))
    ⊎ (known_nodes text ≡ some "1")

-- The text says that the instance knows others, and not that the state is ok.
abbrev pub Broken : String → Type 0
Broken text =
    (contains text "cluster_state:ok" ≡ false)
    × ((count : String) × (known_nodes text ≡ some count) × (count ≢ "1"))

-- The phases of a custom resource whose repair looks at the instances.
abbrev pub Unfinished : RedisClusterPhase → Type 0
Unfinished phase =
    (phase ≡ Phase.creating)
    ⊎ ((phase ≡ Phase.scaling) ⊎ ((phase ≡ Phase.upgrading) ⊎ (phase ≡ Phase.failed)))

looks_at : RedisClusterPhase → Bool
looks_at phase =
    str_eq phase Phase.creating || (str_eq phase Phase.scaling || str_eq phase Phase.upgrading)

retaken :
    (cs : List RedisClusterCondition)
    → looks_at (elim cs [ [] ↦ Phase.creating | _ ↦ Phase.upgrading ]) ≡ true
unfolding looks_at
retaken [] = refl
retaken (_ ∷ _) = refl

repair_phase-Unfinished :
    (rc : RedisCluster) → Unfinished rc.status.phase → looks_at (repair_phase rc) ≡ true
unfolding repair_phase looks_at
repair_phase-Unfinished rc (inl e) = rw e refl
repair_phase-Unfinished rc (inr (inl e)) = rw e refl
repair_phase-Unfinished rc (inr (inr (inl e))) = rw e refl
repair_phase-Unfinished rc (inr (inr (inr e))) = rw e (retaken rc.status.conditions)

module _ (env : Env) (report : String → String) (calm : (pod : ObjectReference) → Calm env pod)
    (tells : (t : Trace) (a : EndpointAddress)
      → (env.exec t a.target (cluster_info a.ip)).stdout ≡ report a.ip) where
  info-reported :
      (a : EndpointAddress) (count : String) (t : Trace)
      → known_nodes (report a.ip) ≡ some count
      → exec_cluster_info env a.ip a.target t ≡ (
        done (ok (contains (report a.ip) "cluster_state:ok", str_eq count "1")),
        executed a.target (cluster_info a.ip) ∷ t,
      )
  unfolding exec_cluster_info run_command
  info-reported a count t knows =
      let (sound, _) = calm a.target t (cluster_info a.ip) in
      rw (sound, tells t a, knows, tells t a) refl

  -- An instance that is fine does not end the search.
  get_clustered-goes_on :
      (clustered only_self rest : List EndpointAddress) (a : EndpointAddress) (t : Trace)
      → Fine (report a.ip)
      → (clustered' only_self' : List EndpointAddress) × (get_clustered env clustered only_self
            (a ∷ rest)
            t
          ≡ get_clustered env clustered' only_self' rest
              (executed a.target (cluster_info a.ip) ∷ t))
  unfolding get_clustered
  get_clustered-goes_on clustered only_self rest a t (inl (is_ok, (count, knows))) =
      elim (Bool-cases (str_eq count "1")) [
        | inl e ↦
            (clustered, only_self ++ a ∷ [], rw (info-reported a count t knows, is_ok, e) refl)
        | inr e ↦
            (clustered ++ a ∷ [], only_self, rw (info-reported a count t knows, is_ok, e) refl)
      ]
  get_clustered-goes_on clustered only_self rest a t (inr knows) =
      (clustered, only_self ++ a ∷ [], rw (info-reported a "1" t knows) refl)

  -- The first broken instance ends the search with nothing known, and no error.
  get_clustered-Broken :
      (clustered only_self earlier later : List EndpointAddress) (broken : EndpointAddress)
      (t : Trace)
      → All (λ a. Fine (report a.ip)) earlier
      → Broken (report broken.ip)
      → get_clustered env clustered only_self (earlier ++ broken ∷ later) t ≡ (
        done (ok ([], [])),
        executed broken.target (cluster_info broken.ip) ∷ info_calls earlier t,
      )
  unfolding get_clustered
  get_clustered-Broken clustered only_self [] later broken t h (bad, (count, knows, others)) =
      elim (Bool-cases (str_eq count "1")) [
        | inl e ↦ absurd (others ((eq_iff count "1").0 e))
        | inr e ↦ rw (info-reported broken count t knows, bad, e) refl
      ]
  get_clustered-Broken clustered only_self (a ∷ earlier) later broken t h bad =
      let (clustered', only_self', e) =
        get_clustered-goes_on clustered only_self (earlier ++ broken ∷ later) a t h.0 in
      e
      ∙ get_clustered-Broken clustered' only_self' earlier later broken
          (executed a.target (cluster_info a.ip) ∷ t) h.1 bad

  repair_by_unknown :
      (phase : RedisClusterPhase) (rc : RedisCluster) (endpoints : Endpoints)
      (addresses only_self : List EndpointAddress) (n : ℕ) (t : Trace)
      → rc.spec.replicas ≡ some n
      → repair_by env phase rc endpoints addresses [] only_self t ≡ create_and_init env rc t
  unfolding repair_by
  repair_by_unknown phase rc endpoints addresses only_self n t r = rw r refl

  -- The repair asks the instances, and creates the cluster.
  pub repair-creates :
      (rc : RedisCluster) (found : Endpoints) (addresses : List EndpointAddress)
      (others : List EndpointSubset) (first : EndpointAddress)
      (rest earlier later : List EndpointAddress) (broken : EndpointAddress) (t : Trace)
      → env.get_endpoints t rc.namespace rc.name ≡ ok found
      → found.subsets ≡ some (record { addresses = addresses } ∷ others)
      → rc.spec.replicas ≡ some (length addresses)
      → sort_stable by_pod_name addresses ≡ first ∷ rest
      → first ∷ rest ≡ earlier ++ broken ∷ later
      → Unfinished rc.status.phase
      → All (λ a. Fine (report a.ip)) earlier
      → Broken (report broken.ip)
      → repair env rc t
        ≡ create_and_init env rc (
            executed broken.target (cluster_info broken.ip)
            ∷ info_calls earlier (got_endpoints rc.namespace rc.name ∷ t))
  unfolding repair looks_at
  repair-creates rc found addresses others first rest earlier later broken t got subsets ready
        sorted parts unfinished fine bad =
      rw
        (
          check_pods_ready-ready env rc found addresses others t got subsets ready,
          has_address env found addresses others first rest subsets sorted,
          sort_endpoints-addressed found addresses (first ∷ rest) others subsets sorted,
          repair_phase-Unfinished rc unfinished,
          ap (λ l. get_clustered env [] [] l (got_endpoints rc.namespace rc.name ∷ t)) parts
              ∙ get_clustered-Broken [] [] earlier later broken
                  (got_endpoints rc.namespace rc.name ∷ t) fine bad,
        )
        (repair_by_unknown (repair_phase rc) rc (addressed found (first ∷ rest) others)
          (first ∷ rest) [] (length addresses) _ ready)
