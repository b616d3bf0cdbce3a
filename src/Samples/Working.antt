-- ===== src/Samples/Working.antt =====
-- A work queue that gives the keys that are not being processed, latest first, and workers on it.
use middleware_operator_mana.Base.{
  ℕ, suc, ◌≤◌, ◌≡◌, ◌↔◌, refl, Bool, true, false, not, ◌&&◌, ◌||◌, List, [], ◌∷◌, String, str_eq,
  Option, none, some, if◌then◌else◌, Option-cases, Bool-cases, inl, inr, arith,
}
use middleware_operator_mana.Errors.{Result, ok, err, Error, wait_timeout}
use middleware_operator_mana.Samples.{cluster_of, printing, put, put-same}
use middleware_operator_mana.Sync.Queue.{
  WorkQueue, enqueue, sync_redis_cluster, deferred, handle_err,
}
use middleware_operator_mana.Types.{RedisCluster}
use middleware_operator_mana.Workers.Crowd.{Serves, Reach-crowd}
use middleware_operator_mana.Workers.Handlers.{added_cluster, on_event, add_redis_cluster}
use middleware_operator_mana.Workers.Spec.{Turn, seen, Step-Turn}
use middleware_operator_mana.Workers.Single.{Reach-single}
use middleware_operator_mana.Workers.Steps.{
  Got, blocked, item, Processing, in_flight, Running, run, process_next_work_item, one_ended, Step,
  event, work, ended, Reach, here, next,
}

record Keys : Type 0 where
  counts : String → ℕ
  waiting : List String
  marks : String → Bool

-- The first key without a mark, and the others.
unfoldable first_free : (String → Bool) → List String → Option (String × List String)
first_free marks [] = none
first_free marks (key ∷ keys) =
    let later = first_free marks keys in
    if marks key
    then elim later [ none ↦ none | some found ↦ some (found.0, key ∷ found.1) ]
    else some (key, keys)

abbrev mark : String → (String → Bool) → String → Bool
mark key marks j = str_eq key j || marks j

abbrev giving : Keys → Option (String × List String) → Got Keys
giving q none = blocked
giving q (some found) = item found.0 (record q { waiting = found.1; marks = mark found.0 q.marks })

abbrev marking : WorkQueue
marking = record {
  Queue = Keys;
  add = λ key q. record q { waiting = key ∷ q.waiting };
  add_rate_limited = λ key q. record q {
    waiting = key ∷ q.waiting;
    counts = put key (suc (q.counts key)) q.counts;
  };
  add_after = λ key duration q. record q { waiting = key ∷ q.waiting };
  forget = λ key q. record q { counts = put key 0 q.counts };
  finish = λ key q. record q { marks = λ j. not (str_eq key j) && q.marks j };
  num_requeues = λ q key. q.counts key;
  num_requeues-add_rate_limited = λ key q. put-same key (suc (q.counts key)) q.counts;
  num_requeues-forget = λ key q. put-same key 0 q.counts;
  num_requeues-finish = λ key q. refl;
}

first_free-free :
    (marks : String → Bool) (keys others : List String) (key : String)
    → first_free marks keys ≡ some (key, others)
    → marks key ≡ false
unfolding first_free
first_free-free marks [] others key h = cc
first_free-free marks (k ∷ keys) others key h = elim (Bool-cases (marks k)) [
  | inl e ↦ elim (Option-cases (first_free marks keys)) [
    | inl f ↦ absurd (ground (arith, e, f, h))
    | inr (found, f) ↦
        let same : found.0 ≡ key = ground (arith, e, f, h) in
        rw⁻¹ same (first_free-free marks keys found.1 found.0 f)
  ]
  | inr e ↦ let same : k ≡ key = ground (arith, e, h) in rw⁻¹ same e
]

first_free-mark :
    (marks : String → Bool) (keys : List String) (key : String)
    → first_free marks keys ≡ none
    → first_free (mark key marks) keys ≡ none
unfolding first_free
first_free-mark marks [] key h = refl
first_free-mark marks (k ∷ keys) key h = elim (Bool-cases (marks k)) [
  | inl e ↦ elim (Option-cases (first_free marks keys)) [
    | inl f ↦
        let both : mark key marks k ≡ true = ground (arith, e) in
        rw (both, first_free-mark marks keys key f) refl
    | inr (found, f) ↦ absurd (ground (arith, e, f, h))
  ]
  | inr e ↦ absurd (ground (arith, e, h))
]

giving-item :
    (q q' : Keys) (key : String) (found : Option (String × List String))
    → giving q found ≡ item key q'
    → (others : List String) × (found ≡ some (key, others))
      × (q' ≡ record q { waiting = others; marks = mark key q.marks })
giving-item q q' key none h = cc
giving-item q q' key (some (k, others)) h = (others, cc, ground (arith, h))

giving-blocked :
    (q : Keys) (found : Option (String × List String)) → giving q found ≡ blocked → found ≡ none
giving-blocked q none h = refl
giving-blocked q (some found) h = cc

abbrev marking_keys : Processing marking
marking_keys = record {
  get = λ q. giving q (first_free q.marks q.waiting);
  processing = λ q j. q.marks j;
  get-free = λ q q' key h.
      let (others, e, _) = giving-item q q' key (first_free q.marks q.waiting) h in
      first_free-free q.marks q.waiting others key e;
  get-marks = λ q q' key j h.
      let (others, _, same) = giving-item q q' key (first_free q.marks q.waiting) h in rw same refl;
  processing-add = λ key j q. refl;
  processing-add_rate_limited = λ key j q. refl;
  processing-forget = λ key j q. refl;
  processing-finish = λ key j q. refl;
}

marking-Serves : Serves marking marking_keys
unfolding first_free
marking-Serves q key h free =
    let none_free = giving-blocked q (first_free q.marks q.waiting) h in
    (
      record q { marks = mark key q.marks },
      rw free refl,
      rw (first_free-mark q.marks q.waiting key none_free) refl,
    )

abbrev at_rest : Keys
at_rest = record { counts = λ j. 0; waiting = []; marks = λ j. false }

abbrev keyed : RedisCluster → Result Error String
keyed rc = ok rc.name

abbrev named : String → RedisCluster
named name = record (cluster_of (some 6)) { name = name }

-- A custom resource was added, and its key was dispatched.
abbrev one_syncing : Running marking marking_keys
one_syncing = record {
  queue = record at_rest { marks = mark "r" (λ j. false) };
  syncing = "r" ∷ [];
  workers = 2;
}

one_syncing-Reach : Reach marking marking_keys (run marking marking_keys true 2 at_rest) one_syncing
unfolding run on_event add_redis_cluster enqueue process_next_work_item first_free
one_syncing-Reach =
    next (next here (event keyed [] (added_cluster (named "r"))))
      (work {go_on = true} (omega arith) refl)

Reach-single_example :
    (in_flight "r" ("r" ∷ []) ≤ 1)
    × ((mark "r" (λ j. false) "r" ≡ true) ↔ (in_flight "r" ("r" ∷ []) ≡ 1))
Reach-single_example =
    Reach-single marking marking_keys true 2 at_rest one_syncing (λ j. refl) one_syncing-Reach "r"

Reach-crowd_example :
    (s : Running marking marking_keys) × Reach marking marking_keys
      (run marking marking_keys true 1 at_rest)
      s
    × (s.syncing ≡ "r" ∷ "s" ∷ "t" ∷ [])
    × (s.workers ≡ 1)
    × (marking_keys.get s.queue ≡ blocked)
unfolding in_flight first_free
Reach-crowd_example =
    Reach-crowd marking marking_keys keyed at_rest
      ((named "r", "r") ∷ (named "s", "s") ∷ (named "t", "t") ∷ []) marking-Serves refl (λ j. refl)
      (refl, refl, (refl, refl, (refl, refl, tt)))

-- The sync of a key that does not split ends.
abbrev no_split : String → Result Error (String × String)
no_split key = err wait_timeout

abbrev none_syncing : Running marking marking_keys
none_syncing = record one_syncing {
  queue = record at_rest {
    counts = put "r" 1 (λ j. 0);
    waiting = "r" ∷ [];
    marks = λ j. not (str_eq "r" j) && mark "r" (λ k. false) j;
  };
  syncing = [];
}

one_syncing-ends : Step marking marking_keys one_syncing none_syncing
unfolding one_ended in_flight sync_redis_cluster deferred handle_err
one_syncing-ends = ended (printing "") no_split "r" [] (omega arith) refl

Step-Turn_example :
    Turn (seen marking marking_keys one_syncing) (seen marking marking_keys none_syncing)
Step-Turn_example =
    Step-Turn marking marking_keys true 2 at_rest one_syncing none_syncing (λ j. refl)
      one_syncing-Reach one_syncing-ends
