-- ===== src/Workers/Marks.antt =====
-- What the operator's calls do to the marks of the queue, and the end of a sync to the syncs in flight.
use middleware_operator_mana.Base.{
  ◌-◌, ◌≡◌, refl, sym, ◌⊎◌, true, false, not, ◌&&◌, List, [], ◌∷◌, String, str_eq, eq_iff, Option,
  none, some, if◌then◌else◌, ltb, Bool-cases, inl, inr, arith, Option-cases,
}
use middleware_operator_mana.Errors.{Result, ok, err, Error}
use middleware_operator_mana.Outcome.{Outcome, done, panic, diverge}
use middleware_operator_mana.Sync.Core.{sync, find_redis_cluster}
use middleware_operator_mana.Sync.Queue.{
  WorkQueue, seen_error, handle_err, deferred, sync_redis_cluster, enqueue, stateful_set_event,
  update_stateful_set,
}
use middleware_operator_mana.Types.{RedisCluster}
use middleware_operator_mana.Types.Objects.{StatefulSet}
use middleware_operator_mana.World.{Env, Trace}
use middleware_operator_mana.Workers.Handlers.{
  InformerEvent, Deleted, object, deleted_object, added_cluster, updated_cluster, deleted_cluster,
  added_set, updated_set, deleted_set, add_redis_cluster, update_redis_cluster,
  delete_redis_cluster, delete_stateful_set, add_stateful_set, on_event,
}
use middleware_operator_mana.Workers.Steps.{Processing, in_flight, one_ended}

pub in_flight-one_ended :
    (j key : String) (keys : List String)
    → in_flight j (one_ended key keys) ≡ in_flight j keys - (if str_eq key j then 1 else 0)
unfolding in_flight one_ended
in_flight-one_ended j key [] = elim (Bool-cases (str_eq key j)) [
  | inl e ↦ rw e refl
  | inr e ↦ rw e refl
]
in_flight-one_ended j key (k ∷ keys) =
    let earlier = in_flight-one_ended j key keys in
    elim (Bool-cases (str_eq key k)) [
      | inl e ↦
          let same : k ≡ key = sym ((eq_iff key k).0 e) in
          elim (Bool-cases (str_eq key j)) [
            | inl f ↦ let g : str_eq k j ≡ true = rw same f in rw (e, f, g) (omega arith)
            | inr f ↦ let g : str_eq k j ≡ false = rw same f in rw (e, f, g) (omega arith)
          ]
      | inr e ↦ elim (Bool-cases (str_eq k j)) [
        | inl g ↦
            let f : str_eq key j ≡ false = rw⁻¹ ((eq_iff k j).0 g) e in
            let same : in_flight j (one_ended key keys) ≡ in_flight j keys - 0 = rw f at earlier in
            rw (e, f, g) (omega arith)
        | inr g ↦ rw (e, g) earlier
      ]
    ]

Result-cases : {E A : Type 0} (r : Result E A) → ((e : E) × (r ≡ err e)) ⊎ ((a : A) × (r ≡ ok a))
Result-cases (err e) = inl (e, refl)
Result-cases (ok a) = inr (a, refl)

module _ (w : WorkQueue) (p : Processing w) where
  open w use {Queue}

  -- The marks of the queue are those of another.
  abbrev pub Unmoved : Queue → Queue → Type 0
  Unmoved q q' = (j : String) → p.processing q' j ≡ p.processing q j

  handle_err-Unmoved :
      (e : Option Error) (key : String) (q : Queue) → Unmoved q (handle_err w e key q)
  unfolding handle_err
  handle_err-Unmoved none key q = λ j. p.processing-forget key j q
  handle_err-Unmoved (some e) key q = elim (Bool-cases (ltb (w.num_requeues q key) 15)) [
    | inl h ↦ λ j. rw h (p.processing-add_rate_limited key j q)
    | inr h ↦ λ j. rw h (p.processing-forget key j q)
  ]

  deferred-ends :
      (o : Outcome (Option Error)) (key j : String) (q q' : Queue)
      → deferred w o key q ≡ some q'
      → p.processing q' j ≡ (not (str_eq key j) && p.processing q j)
  unfolding deferred
  deferred-ends (done e) key j q q' h =
      let moved = handle_err-Unmoved e key q j in
      let same : q' ≡ w.finish key (handle_err w e key q) = cc in
      rw (same, p.processing-finish key j (handle_err w e key q), moved) refl
  deferred-ends panic key j q q' h = cc
  deferred-ends diverge key j q q' h = cc

  pub sync-ends :
      (env : Env) (split : String → Result Error (String × String)) (key j : String) (t : Trace)
      (q q' : Queue)
      → (sync_redis_cluster w env split key t q).1 ≡ some q'
      → p.processing q' j ≡ (not (str_eq key j) && p.processing q j)
  unfolding sync_redis_cluster
  sync-ends env split key j t q q' h = elim (Result-cases (split key)) [
    | inl (e, f) ↦ deferred-ends (done (some e)) key j q q' (rw (f, sync_redis_cluster) at h)
    | inr (names, f) ↦
        deferred-ends (seen_error (sync env names.0 names.1 t).0) key j q q'
          (rw (f, sync_redis_cluster) at h)
  ]

  enqueue-Unmoved :
      (key_of : RedisCluster → Result Error String) (rc : RedisCluster) (q : Queue)
      → Unmoved q (enqueue w key_of rc q)
  unfolding enqueue
  enqueue-Unmoved key_of rc q = elim (Result-cases (key_of rc)) [
    | inl (e, f) ↦ λ j. rw (f, enqueue) refl
    | inr (key, f) ↦ λ j. rw (f, enqueue) (p.processing-add key j q)
  ]

  stateful_set_event-Unmoved :
      (key_of : RedisCluster → Result Error String) (rcs : List RedisCluster) (sts : StatefulSet)
      (q : Queue)
      → Unmoved q (stateful_set_event w key_of rcs sts q)
  unfolding stateful_set_event
  stateful_set_event-Unmoved key_of rcs sts q = elim (Option-cases (find_redis_cluster sts rcs)) [
    | inl e ↦ λ j. rw (e, stateful_set_event) refl
    | inr (rc, e) ↦ λ j. rw (e, stateful_set_event) (enqueue-Unmoved key_of rc q j)
  ]

  delete_stateful_set-Unmoved :
      (key_of : RedisCluster → Result Error String) (rcs : List RedisCluster)
      (obj : Deleted StatefulSet) (q : Queue)
      → Unmoved q (delete_stateful_set w key_of rcs obj q)
  unfolding delete_stateful_set
  delete_stateful_set-Unmoved key_of rcs obj q = elim (Option-cases (deleted_object obj)) [
    | inl e ↦ λ j. rw (e, delete_stateful_set) refl
    | inr (sts, e) ↦
        λ j. rw (e, delete_stateful_set) (stateful_set_event-Unmoved key_of rcs sts q j)
  ]

  pub on_event-Unmoved :
      (key_of : RedisCluster → Result Error String) (rcs : List RedisCluster) (e : InformerEvent)
      (q : Queue)
      → Unmoved q (on_event w key_of rcs e q)
  unfolding on_event add_redis_cluster update_redis_cluster
  on_event-Unmoved key_of rcs (added_cluster rc) q = enqueue-Unmoved key_of rc q
  on_event-Unmoved key_of rcs (updated_cluster old cur) q = enqueue-Unmoved key_of cur q
  on_event-Unmoved key_of rcs (deleted_cluster obj) q = elim (Option-cases (deleted_object obj)) [
    | inl e ↦ λ j. rw (e, delete_redis_cluster) refl
    | inr (rc, e) ↦ λ j. rw (e, delete_redis_cluster) (enqueue-Unmoved key_of rc q j)
  ]
  on_event-Unmoved key_of rcs (added_set sts) q = elim (Option-cases sts.deletion_timestamp) [
    | inl e ↦ λ j. rw (e, add_stateful_set) (stateful_set_event-Unmoved key_of rcs sts q j)
    | inr (n, e) ↦
        λ j. rw (e, add_stateful_set) (delete_stateful_set-Unmoved key_of rcs (object sts) q j)
  ]
  on_event-Unmoved key_of rcs (updated_set changed old cur) q =
      elim (Bool-cases (str_eq cur.resource_version old.resource_version)) [
        | inl e ↦ λ j. rw (e, update_stateful_set) refl
        | inr e ↦ elim (Bool-cases changed) [
          | inl c ↦
              λ j. rw (e, c, update_stateful_set) (stateful_set_event-Unmoved key_of rcs cur q j)
          | inr c ↦ λ j. rw (e, c, update_stateful_set) refl
        ]
      ]
  on_event-Unmoved key_of rcs (deleted_set obj) q = delete_stateful_set-Unmoved key_of rcs obj q
