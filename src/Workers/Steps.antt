-- ===== src/Workers/Steps.antt =====
-- The workers of redis_operator.go: `Run`, `worker` and `processNextWorkItem`. A worker takes a key from
-- the queue and starts `syncHandler` for it as a goroutine; what a sync does to the queue, it does at its
-- end.
use middleware_operator_mana.Base.{
  ℕ, suc, ◌<◌, ◌≡◌, Bool, true, false, not, ◌&&◌, ◌||◌, List, [], ◌∷◌, String, str_eq, Option, none,
  some, if◌then◌else◌,
}
use middleware_operator_mana.Errors.{Result, Error}
use middleware_operator_mana.Sync.Queue.{WorkQueue, sync_redis_cluster}
use middleware_operator_mana.Types.{RedisCluster}
use middleware_operator_mana.World.{Env, Trace}
use middleware_operator_mana.Workers.Handlers.{InformerEvent, on_event}

-- What `Get` answers: it blocks while there is nothing, and tells when the queue is shut down.
pub data Got (Q : Type 0) : Type 0 where
  blocked shut_down : Got Q
  item : (key : String) → Q → Got Q

-- client-go's queue as the workers use it: `Get` marks a key as being processed, and gives none that is;
-- `Done` takes the mark off; nothing else touches the marks.
pub record Processing (w : WorkQueue) : Type 0 where
  pub get : w.Queue → Got w.Queue
  pub processing : w.Queue → String → Bool
  pub get-free : (q q' : w.Queue) (key : String) → get q ≡ item key q' → processing q key ≡ false
  pub get-marks :
      (q q' : w.Queue) (key j : String)
      → get q ≡ item key q'
      → processing q' j ≡ (str_eq key j || processing q j)
  pub processing-add : (key j : String) (q : w.Queue) → processing (w.add key q) j ≡ processing q j
  pub processing-add_rate_limited :
      (key j : String) (q : w.Queue) → processing (w.add_rate_limited key q) j ≡ processing q j
  pub processing-forget :
      (key j : String) (q : w.Queue) → processing (w.forget key q) j ≡ processing q j
  pub processing-finish :
      (key j : String) (q : w.Queue)
      → processing (w.finish key q) j ≡ (not (str_eq key j) && processing q j)

-- How many syncs of a key are in flight.
unfoldable pub in_flight : String → List String → ℕ
in_flight j [] = 0
in_flight j (key ∷ keys) = let rest = in_flight j keys in if str_eq key j then suc rest else rest

-- One sync of the key is over.
unfoldable pub one_ended : String → List String → List String
one_ended key [] = []
one_ended key (k ∷ keys) = if str_eq key k then keys else k ∷ one_ended key keys

module _ (w : WorkQueue) (p : Processing w) where
  open w use {Queue}

  -- The queue, the keys whose `syncHandler` runs, and the number of workers that loop.
  pub record Running : Type 0 where
    pub queue : Queue
    pub syncing : List String
    pub workers : ℕ

  -- `Run`: no worker starts unless the caches were synced.
  unfoldable pub run : Bool → ℕ → Queue → Running
  run synced workers q = record { queue = q; syncing = []; workers = if synced then workers else 0 }

  -- `processNextWorkItem`: whether the worker goes on, and the state; `none` while `Get` blocks.
  unfoldable pub process_next_work_item : Running → Option (Bool × Running)
  process_next_work_item s = elim (p.get s.queue) [
    | blocked ↦ none
    | shut_down ↦ some (false, s)
    | item key q ↦ some (true, record s { queue = q; syncing = key ∷ s.syncing })
  ]

  -- The steps of the operator's goroutines: an informer calls a handler, a worker goes once round its
  -- loop (one that is told to quit is started again by `wait.Until`), a sync comes to its end.
  pub data Step (s : Running) : Running → Type 0 where
    event :
        (key_of : RedisCluster → Result Error String) (rcs : List RedisCluster) (e : InformerEvent)
        → Step s (record s { queue = on_event w key_of rcs e s.queue })
    work :
        {go_on : Bool} {s' : Running}
        → 0 < s.workers
        → process_next_work_item s ≡ some (go_on, s')
        → Step s s'
    ended :
        (env : Env) (split : String → Result Error (String × String)) (key : String) (t : Trace)
        {q' : Queue}
        → 0 < in_flight key s.syncing
        → (sync_redis_cluster w env split key t s.queue).1 ≡ some q'
        → Step s (record s { queue = q'; syncing = one_ended key s.syncing })

  pub data Reach (s : Running) : Running → Type 0 where
    here : Reach s s
    next : {t u : Running} → Reach s t → Step t u → Reach s u
