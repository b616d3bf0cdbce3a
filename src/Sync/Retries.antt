-- ===== src/Sync/Retries.antt =====
-- How often a key is retried.
use middleware_operator_mana.Base.{
  ℕ, suc, ◌≤◌, ◌≡◌, refl, ap, ◌∙◌, String, Option, none, some, if◌then◌else◌, ltb, ltb→lt, arith,
  Bool-cases, inl, inr,
}
use middleware_operator_mana.Errors.{Result, ok, Error}
use middleware_operator_mana.Outcome.{done, panic}
use middleware_operator_mana.Sync.Core.{sync}
use middleware_operator_mana.Sync.Queue.{
  WorkQueue, max_retries, seen_error, handle_err, deferred, sync_redis_cluster,
}
use middleware_operator_mana.World.{Env, Trace}

-- The number of requeues after a sync that ended with `e`.
abbrev pub next_requeues : Option Error → ℕ → ℕ
next_requeues none n = 0
next_requeues (some e) n = if ltb n max_retries then suc n else 0

next_requeues_le : (e : Option Error) (m : ℕ) → m ≤ max_retries → next_requeues e m ≤ max_retries
next_requeues_le none m h = omega arith
next_requeues_le (some e) m h = elim (Bool-cases (ltb m max_retries)) [
  | inl l ↦ rw l (ltb→lt m max_retries l)
  | inr l ↦ rw l (omega arith)
]

module _ (w : WorkQueue) where
  open w use {
    Queue, num_requeues, num_requeues-add_rate_limited, num_requeues-forget, num_requeues-finish,
    finish, forget, add_rate_limited,
  }

  -- The queue after a sync: the key is added anew after an error, up to the limit, and forgotten else.
  abbrev pub left_queue : Option Error → String → Queue → Queue
  left_queue none key q = finish key (forget key q)
  left_queue (some e) key q =
      finish key
        (if ltb (num_requeues q key) max_retries then add_rate_limited key q else forget key q)

  handle_err-requeues :
      (e : Option Error) (key : String) (q : Queue)
      → num_requeues (handle_err w e key q) key ≡ next_requeues e (num_requeues q key)
  unfolding handle_err
  handle_err-requeues none key q = num_requeues-forget key q
  handle_err-requeues (some e) key q = elim (Bool-cases (ltb (num_requeues q key) max_retries)) [
    | inl h ↦ rw h (num_requeues-add_rate_limited key q)
    | inr h ↦ rw h (num_requeues-forget key q)
  ]

  deferred-requeues :
      (e : Option Error) (key : String) (q : Queue)
      → (q' : Queue) × (deferred w (done e) key q ≡ some q')
        × (num_requeues q' key ≡ next_requeues e (num_requeues q key))
  unfolding deferred
  deferred-requeues e key q =
      (_, refl, num_requeues-finish key (handle_err w e key q) ∙ handle_err-requeues e key q)

  -- The queue that is left by a sync that comes to an end.
  pub sync-leaves :
      (env : Env) (split : String → Result Error (String × String)) (key namespace name : String)
      (t : Trace) (q : Queue) (e : Option Error)
      → split key ≡ ok (namespace, name)
      → seen_error (sync env namespace name t).0 ≡ done e
      → (sync_redis_cluster w env split key t q).1 ≡ some (left_queue e key q)
  unfolding sync_redis_cluster deferred handle_err
  sync-leaves env split key namespace name t q none h k =
      rw (h, sync_redis_cluster) (rw (k, deferred) refl)
  sync-leaves env split key namespace name t q (some e) h k =
      rw (h, sync_redis_cluster) (rw (k, deferred) refl)

  -- When the key splits and the sync comes to an end, with an error or without, the queue is left with
  -- the number of requeues of the key: none after a success, one more after an error if they were fewer
  -- than the limit, and none if not, when the key is given up. The limit is never exceeded.
  pub sync-requeues :
      (env : Env) (split : String → Result Error (String × String)) (key namespace name : String)
      (t : Trace) (q : Queue) (e : Option Error)
      → split key ≡ ok (namespace, name)
      → seen_error (sync env namespace name t).0 ≡ done e
      → (q' : Queue) × ((sync_redis_cluster w env split key t q).1 ≡ some q')
        × (num_requeues q' key ≡ next_requeues e (num_requeues q key))
        × (num_requeues q key ≤ max_retries → num_requeues q' key ≤ max_retries)
  unfolding sync_redis_cluster
  sync-requeues env split key namespace name t q e h k =
      let (q', f, n) = deferred-requeues e key q in
      (
        q',
        rw (h, sync_redis_cluster) (rw (k, deferred) f),
        n,
        λ bound. rw n (next_requeues_le e (num_requeues q key) bound),
      )

  -- When the key splits and the sync panics, the key is forgotten and marked as done, as after a success,
  -- and nothing else happens to the queue: the key is not added again, and has no requeues.
  pub sync-panic :
      (env : Env) (split : String → Result Error (String × String)) (key namespace name : String)
      (t : Trace) (q : Queue)
      → split key ≡ ok (namespace, name)
      → (sync env namespace name t).0 ≡ panic
      → ((sync_redis_cluster w env split key t q).1 ≡ some (finish key (forget key q)))
        × (num_requeues (finish key (forget key q)) key ≡ 0)
  unfolding seen_error
  sync-panic env split key namespace name t q h p =
      let seen : seen_error (sync env namespace name t).0 ≡ done none = ap seen_error p in
      (
        sync-leaves env split key namespace name t q none h seen,
        num_requeues-finish key (forget key q) ∙ num_requeues-forget key q,
      )
