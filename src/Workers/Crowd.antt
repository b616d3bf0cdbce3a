-- ===== src/Workers/Crowd.antt =====
-- How many syncs run at the same time.
use middleware_operator_mana.Base.{
  ◌<◌, ◌≡◌, refl, ap, true, false, List, [], ◌∷◌, map, String, Bool-cases, inl, inr, arith,
}
use middleware_operator_mana.Errors.{Result, ok, Error}
use middleware_operator_mana.Sync.Queue.{WorkQueue, enqueue}
use middleware_operator_mana.Types.{RedisCluster}
use middleware_operator_mana.Workers.Handlers.{added_cluster, add_redis_cluster, on_event}
use middleware_operator_mana.Workers.Single.{IsTracked, Reach-IsTracked}
use middleware_operator_mana.Workers.Steps.{
  blocked, item, Processing, in_flight, Running, run, process_next_work_item, Step, event, work,
  Reach, here, next,
}

-- The keys of these custom resources, which all differ.
abbrev pub Keyed : (RedisCluster → Result Error String) → List (RedisCluster × String) → Type 0
Keyed key_of [] = Unit
Keyed key_of ((rc, key) ∷ others) =
    (key_of rc ≡ ok key) × (in_flight key (map (λ x. x.1) others) ≡ 0) × Keyed key_of others

module _ (w : WorkQueue) (p : Processing w) where
  open w use {Queue}

  -- A key that is added to a queue with nothing to do, and is not being processed, is the next that
  -- `Get` gives; then there is nothing to do again.
  abbrev pub Serves : Type 0
  Serves =
      (q : Queue) (key : String)
      → p.get q ≡ blocked
      → p.processing q key ≡ false
      → (q' : Queue) × (p.get (w.add key q) ≡ item key q') × (p.get q' ≡ blocked)

  not_marked :
      (s : Running w p) (key : String)
      → IsTracked w p s
      → in_flight key s.syncing ≡ 0
      → p.processing s.queue key ≡ false
  not_marked s key h none_yet = elim (Bool-cases (p.processing s.queue key)) [
    | inl e ↦ let once : in_flight key s.syncing ≡ 1 = rw e at (h key) in absurd (omega arith)
    | inr e ↦ e
  ]

  -- One custom resource after the other is added and dispatched.
  joined :
      (key_of : RedisCluster → Result Error String) (s : Running w p) (rc : RedisCluster)
      (key : String) (q' : Queue)
      → key_of rc ≡ ok key
      → 0 < s.workers
      → p.get (w.add key s.queue) ≡ item key q'
      → (r : Running w p) × Step w p s r
        × Step w p r (record s { queue = q'; syncing = key ∷ s.syncing })
  unfolding on_event add_redis_cluster enqueue process_next_work_item
  joined key_of s rc key q' k alive g = (
    _,
    event key_of [] (added_cluster rc),
    work {go_on = true} alive (rw (k, enqueue, process_next_work_item, g) refl),
  )

  -- With a single worker, and a queue that serves what is added to it: for every list of custom
  -- resources with keys that differ, a state is reached in which the syncs of all of them are in flight.
  pub Reach-crowd :
      (key_of : RedisCluster → Result Error String) (q : Queue)
      (named : List (RedisCluster × String))
      → Serves
      → p.get q ≡ blocked
      → ((j : String) → p.processing q j ≡ false)
      → Keyed key_of named
      → (s : Running w p) × Reach w p (run w p true 1 q) s
        × (s.syncing ≡ map (λ x. x.1) named)
        × (s.workers ≡ 1)
        × (p.get s.queue ≡ blocked)
  unfolding run in_flight
  Reach-crowd key_of q [] serves idle unmarked keyed = (_, here, refl, refl, idle)
  Reach-crowd key_of q ((rc, key) ∷ others) serves idle unmarked (k, fresh, keyed) =
      let (s, r, e, one, waits) = Reach-crowd key_of q others serves idle unmarked keyed in
      let tracked = Reach-IsTracked w p (λ j. rw (unmarked j) refl) r in
      let (q', given, waits') = serves s.queue key waits (not_marked s key tracked (rw e fresh)) in
      let (u, queued, taken) = joined key_of s rc key q' k (rw one (omega arith)) given in
      (_, next (next r queued) taken, ap (λ l. key ∷ l) e, one, waits')
