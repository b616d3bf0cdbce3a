-- ===== src/Sync/Queue.antt =====
-- The work queue of redis_operator.go. The queue itself is client-go's: an interface with the laws that
-- its documentation gives for the number of requeues. What runs on it is the operator's: `enqueue`,
-- the handlers of informer events, `handleErr` and `syncRedisCluster`.
use middleware_operator_mana.Base.{
  ℕ, suc, Bool, List, String, str_eq, Option, none, some, if◌then◌else◌, ltb, ◌≡◌,
}
use middleware_operator_mana.Errors.{Result, ok, err, Error}
use middleware_operator_mana.Outcome.{Outcome, done, panic, diverge}
use middleware_operator_mana.Sync.Core.{sync, find_redis_cluster}
use middleware_operator_mana.Types.{RedisCluster}
use middleware_operator_mana.Types.Objects.{StatefulSet}
use middleware_operator_mana.World.{Env, Trace}

-- `workqueue.RateLimitingInterface`.
pub record WorkQueue : Type 1 where
  pub Queue : Type 0
  pub add : String → Queue → Queue
  pub add_rate_limited : String → Queue → Queue
  -- `AddAfter(key, duration)`
  pub add_after : String → ℕ → Queue → Queue
  pub forget : String → Queue → Queue
  -- `Done(key)`
  pub finish : String → Queue → Queue
  pub num_requeues : Queue → String → ℕ
  pub num_requeues-add_rate_limited :
      (key : String) (q : Queue)
      → num_requeues (add_rate_limited key q) key ≡ suc (num_requeues q key)
  pub num_requeues-forget : (key : String) (q : Queue) → num_requeues (forget key q) key ≡ 0
  pub num_requeues-finish :
      (key : String) (q : Queue) → num_requeues (finish key q) key ≡ num_requeues q key

abbrev pub max_retries : ℕ
max_retries = 15

-- The error that the deferred calls of `syncRedisCluster` see: a panic is recovered, and leaves the
-- named result nil. A body that never returns runs none of them.
unfoldable pub seen_error : Outcome (Result Error (Unit {0})) → Outcome (Option Error)
seen_error (done (ok _)) = done none
seen_error (done (err e)) = done (some e)
seen_error panic = done none
seen_error diverge = diverge

module _ (w : WorkQueue) where
  open w use {Queue, add, add_rate_limited, add_after, forget, finish, num_requeues}

  -- `handleErr`
  unfoldable pub handle_err : Option Error → String → Queue → Queue
  handle_err none key q = forget key q
  handle_err (some e) key q =
      if ltb (num_requeues q key) max_retries then add_rate_limited key q else forget key q

  -- The deferred calls, in the order in which they run.
  unfoldable pub deferred : Outcome (Option Error) → String → Queue → Option Queue
  unfolding handle_err
  deferred (done e) key q = some (finish key (handle_err e key q))
  deferred panic key q = none
  deferred diverge key q = none

  -- `syncRedisCluster`; `split` is client-go's `SplitMetaNamespaceKey`. No queue is left where the
  -- call never returns.
  unfoldable pub sync_redis_cluster :
      Env
      → (String → Result Error (String × String))
      → String
      → Trace
      → Queue
      → Trace × Option Queue
  unfolding sync seen_error deferred
  sync_redis_cluster env split key t q = elim (split key) [
    | err e ↦ (t, deferred (done (some e)) key q)
    | ok names ↦
        let (outcome, t') = sync env names.0 names.1 t in (t', deferred (seen_error outcome) key q)
  ]

  -- `enqueue`; `key_of` is client-go's `KeyFunc`.
  unfoldable pub enqueue : (RedisCluster → Result Error String) → RedisCluster → Queue → Queue
  enqueue key_of rc q = elim (key_of rc) [ err e ↦ q | ok key ↦ add key q ]

  -- `enqueueRateLimited`
  unfoldable pub enqueue_rate_limited :
      (RedisCluster → Result Error String) → RedisCluster → Queue → Queue
  enqueue_rate_limited key_of rc q = elim (key_of rc) [
    | err e ↦ q
    | ok key ↦ add_rate_limited key q
  ]

  -- `enqueueAfter`
  unfoldable pub enqueue_after :
      (RedisCluster → Result Error String) → RedisCluster → ℕ → Queue → Queue
  enqueue_after key_of rc after q = elim (key_of rc) [ err e ↦ q | ok key ↦ add_after key after q ]

  -- `addStatefulSet` and `deleteStatefulSet`: the custom resource of the set is queued, if there is one.
  unfoldable pub stateful_set_event :
      (RedisCluster → Result Error String) → List RedisCluster → StatefulSet → Queue → Queue
  unfolding enqueue find_redis_cluster
  stateful_set_event key_of rcs sts q = elim (find_redis_cluster sts rcs) [
    | none ↦ q
    | some rc ↦ enqueue key_of rc q
  ]

  -- `updateStatefulSet`; `status_changed` is the outcome of `reflect.DeepEqual`, negated.
  unfoldable pub update_stateful_set :
      (RedisCluster → Result Error String)
      → List RedisCluster
      → Bool
      → StatefulSet
      → StatefulSet
      → Queue
      → Queue
  unfolding stateful_set_event
  update_stateful_set key_of rcs status_changed old cur q =
      if str_eq cur.resource_version old.resource_version
      then q
      else if status_changed
      then stateful_set_event key_of rcs cur q
      else q
