-- ===== src/Sync/Attempts.antt =====
-- A key whose sync fails again and again.
use middleware_operator_mana.Base.{
  ℕ, zero, suc, ◌%◌, ◌<◌, ◌≡◌, ◌∙◌, ◌⊎◌, refl, String, Option, none, some, ltb, Bool-cases, inl,
  inr, arith, ltb→lt,
}
use middleware_operator_mana.Errors.{Result, ok, Error}
use middleware_operator_mana.Outcome.{done}
use middleware_operator_mana.Sync.Core.{sync}
use middleware_operator_mana.Sync.Queue.{WorkQueue, max_retries, seen_error, sync_redis_cluster}
use middleware_operator_mana.Sync.Retries.{next_requeues, sync-requeues, left_queue, sync-leaves}
use middleware_operator_mana.World.{Env, Trace}

next_requeues-mod : (n : ℕ) (e : Error) → next_requeues (some e) (n % 16) ≡ suc n % 16
next_requeues-mod n e = elim (Bool-cases (ltb (n % 16) max_retries)) [
  | inl l ↦ let few : n % 16 < 15 = ltb→lt (n % 16) 15 l in rw l (omega arith)
  | inr l ↦ ground arith
]

module _ (w : WorkQueue) (env : Env) (split : String → Result Error (String × String))
    (key : String) where
  open w use {Queue, num_requeues, add_rate_limited, forget, finish}

  -- Syncs of the key one after the other, each with what happened before it.
  unfoldable pub attempts : ℕ → (ℕ → Trace) → Queue → Option Queue
  unfolding sync_redis_cluster
  attempts zero before q = some q
  attempts (suc n) before q = elim (attempts n before q) [
    | none ↦ none
    | some q' ↦ (sync_redis_cluster w env split key (before n) q').1
  ]

  -- The number of requeues after `n` attempts.
  attempts-counts :
      (namespace name : String) (before : ℕ → Trace) (q : Queue) (n : ℕ)
      → split key ≡ ok (namespace, name)
      → ((t : Trace) → (e : Error) × (seen_error (sync env namespace name t).0 ≡ done (some e)))
      → num_requeues q key ≡ 0
      → (q' : Queue) × (attempts n before q ≡ some q') × (num_requeues q' key ≡ n % 16)
  unfolding attempts
  attempts-counts namespace name before q zero h fails fresh = (q, refl, fresh)
  attempts-counts namespace name before q (suc n) h fails fresh =
      let (q', ran, count) = attempts-counts namespace name before q n h fails fresh in
      let (e, seen) = fails (before n) in
      let (q'', next, requeued, _) =
        sync-requeues w env split key namespace name (before n) q' (some e) h seen in
      (q'', rw (ran, attempts) next, requeued ∙ rw count (next_requeues-mod n e))

  -- Let every sync of a key that was not requeued yet end with an error. After `n` of them the number of
  -- its requeues is `n % 16`, and what the next one does to the queue is this: while that number is less
  -- than fifteen, the key is added again, rate limited, and marked as done; at fifteen, which is in
  -- every sixteenth attempt, it is forgotten in place of being added, and marked as done.
  pub attempts-requeues :
      (namespace name : String) (before : ℕ → Trace) (q : Queue) (n : ℕ)
      → split key ≡ ok (namespace, name)
      → ((t : Trace) → (e : Error) × (seen_error (sync env namespace name t).0 ≡ done (some e)))
      → num_requeues q key ≡ 0
      → (q' q'' : Queue) × (attempts n before q ≡ some q')
        × (num_requeues q' key ≡ n % 16)
        × (attempts (suc n) before q ≡ some q'')
        × (((n % 16 < 15) × (q'' ≡ finish key (add_rate_limited key q')))
            ⊎ ((n % 16 ≡ 15) × (q'' ≡ finish key (forget key q'))))
  unfolding attempts
  attempts-requeues namespace name before q n h fails fresh =
      let (q', ran, count) = attempts-counts namespace name before q n h fails fresh in
      let (e, seen) = fails (before n) in
      let next = sync-leaves w env split key namespace name (before n) q' (some e) h seen in
      (
        q',
        left_queue w (some e) key q',
        ran,
        count,
        rw (ran, attempts) next,
        elim (Bool-cases (ltb (num_requeues q' key) max_retries)) [
          | inl l ↦
              let few : num_requeues q' key < 15 = ltb→lt (num_requeues q' key) 15 l in
              inl (omega (arith, few, count), rw (l, left_queue) refl)
          | inr l ↦ inr (ground (arith, count, l), rw (l, left_queue) refl)
        ],
      )
