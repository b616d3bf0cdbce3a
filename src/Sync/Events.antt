-- ===== src/Sync/Events.antt =====
-- Which custom resource the events of a stateful set wake up (redis_operator.go,
-- expansion_generated.go).
use mathlib.Core.List.{mem-cons, mem-cons_of_mem, not-mem-nil}
use mathlib.Core.HLevel.{⊥_prop}
use mathlib.Core.Logic.Or
use middleware_operator_mana.Base.{
  ◌≡◌, ◌≢◌, refl, sym, ap, ◌⊎◌, inl, inr, Bool, true, false, Bool-cases, List, [], ◌∷◌, String,
  str_eq, eq_iff, none, some, Option-cases, Mem, arith,
}
use middleware_operator_mana.Errors.{Result, ok, err, Error, Result-cases}
use middleware_operator_mana.Sync.Core.{manages, find_redis_cluster}
use middleware_operator_mana.Sync.Decisions.{Owns, manages-Owns}
use middleware_operator_mana.Sync.Queue.{
  WorkQueue, enqueue, stateful_set_event, update_stateful_set,
}
use middleware_operator_mana.Types.{RedisCluster}
use middleware_operator_mana.Types.Objects.{StatefulSet}

find_redis_cluster_sound :
    (sts : StatefulSet) (rcs : List RedisCluster) (rc : RedisCluster)
    → find_redis_cluster sts rcs ≡ some rc
    → Mem rc rcs × (manages rc sts ≡ true)
unfolding find_redis_cluster
find_redis_cluster_sound sts [] rc h = cc
find_redis_cluster_sound sts (r ∷ rcs) rc h = elim (Bool-cases (manages r sts)) [
  | inl m ↦ let q : r ≡ rc = ground arith in (mem-cons.1 (Or.inl (sym q)), ground arith)
  | inr m ↦
      let found = find_redis_cluster_sound sts rcs rc (ground arith) in
      (mem-cons_of_mem r found.0, found.1)
]

find_redis_cluster-none :
    (sts : StatefulSet) (rcs : List RedisCluster)
    → find_redis_cluster sts rcs ≡ none
    → (rc : RedisCluster) → Mem rc rcs
    → manages rc sts ≢ true
unfolding find_redis_cluster
find_redis_cluster-none sts [] h rc m = absurd (not-mem-nil m)
find_redis_cluster-none sts (r ∷ rcs) h rc m = elim (Bool-cases (manages r sts)) [
  | inl e ↦ λ _. ground arith
  | inr e ↦ λ q.
      Or.elim ⊥_prop (mem-cons.0 m) (λ same. cc (ap (λ x. manages x sts) same))
        (λ t. find_redis_cluster-none sts rcs (ground arith) rc t q)
]

module _ (w : WorkQueue) where
  open w use {Queue, add}

  -- The key of the custom resource is added, if it has one.
  abbrev pub Queued : (RedisCluster → Result Error String) → RedisCluster → Queue → Queue → Type 0
  Queued key_of rc q q' =
      ((key : String) × (key_of rc ≡ ok key) × (q' ≡ add key q))
      ⊎ ((e : Error) × (key_of rc ≡ err e) × (q' ≡ q))

  pub enqueue-Queued :
      (key_of : RedisCluster → Result Error String) (rc : RedisCluster) (q : Queue)
      → Queued key_of rc q (enqueue w key_of rc q)
  unfolding enqueue
  enqueue-Queued key_of rc q = elim (Result-cases (key_of rc)) [
    | inl (key, e) ↦ inl (key, e, rw (e, enqueue) refl)
    | inr (e, h) ↦ inr (e, h, rw (h, enqueue) refl)
  ]

  -- What an event of `sts` does to the queue: the key of a listed custom resource that owns the set is
  -- added, or nothing where none listed owns it.
  abbrev pub Woken :
      (RedisCluster → Result Error String)
      → List RedisCluster
      → StatefulSet
      → Queue
      → Queue
      → Type 0
  Woken key_of rcs sts q q' =
      ((rc : RedisCluster) × Mem rc rcs × Owns rc sts × Queued key_of rc q q')
      ⊎ (((rc : RedisCluster) → Mem rc rcs → ¬ Owns rc sts) × (q' ≡ q))

  pub stateful_set_event-Woken :
      (key_of : RedisCluster → Result Error String) (rcs : List RedisCluster) (sts : StatefulSet)
      (q : Queue)
      → Woken key_of rcs sts q (stateful_set_event w key_of rcs sts q)
  unfolding stateful_set_event
  stateful_set_event-Woken key_of rcs sts q = elim (Option-cases (find_redis_cluster sts rcs)) [
    | inl e ↦ inr (
      (λ rc m o. find_redis_cluster-none sts rcs e rc m ((manages-Owns rc sts).1 o)),
      rw (e, stateful_set_event) refl,
    )
    | inr (rc, e) ↦
        let found = find_redis_cluster_sound sts rcs rc e in
        inl (
          rc,
          found.0,
          (manages-Owns rc sts).0 found.1,
          rw (e, stateful_set_event) (enqueue-Queued key_of rc q),
        )
  ]

  -- An update of a stateful set with a new version and a status that differs wakes its custom resource;
  -- any other leaves the queue as it is.
  pub update_stateful_set-Woken :
      (key_of : RedisCluster → Result Error String) (rcs : List RedisCluster) (changed : Bool)
      (old cur : StatefulSet) (q : Queue)
      → ((cur.resource_version ≢ old.resource_version)
          × (changed ≡ true)
          × Woken key_of rcs cur q (update_stateful_set w key_of rcs changed old cur q))
        ⊎ (((cur.resource_version ≡ old.resource_version) ⊎ (changed ≡ false))
            × (update_stateful_set w key_of rcs changed old cur q ≡ q))
  unfolding update_stateful_set
  update_stateful_set-Woken key_of rcs changed old cur q =
      let versions = eq_iff cur.resource_version old.resource_version in
      elim (Bool-cases (str_eq cur.resource_version old.resource_version)) [
        | inl e ↦ inr (inl (versions.0 e), rw e refl)
        | inr e ↦ elim (Bool-cases changed) [
          | inl c ↦ inl (
            (λ h. cc (e, versions.1 h)),
            c,
            rw (e, c) (stateful_set_event-Woken key_of rcs cur q),
          )
          | inr c ↦ inr (inr c, rw (e, c) refl)
        ]
      ]
