-- ===== src/Workers/Handlers.antt =====
-- The informer events of redis_operator.go, and the handlers that `NewRedisClusterOperator` installs
-- for them.
use middleware_operator_mana.Base.{Bool, List, Option, none, some, String}
use middleware_operator_mana.Errors.{Result, Error}
use middleware_operator_mana.Sync.Queue.{
  WorkQueue, enqueue, stateful_set_event, update_stateful_set,
}
use middleware_operator_mana.Types.{RedisCluster}
use middleware_operator_mana.Types.Objects.{StatefulSet}

-- What a delete handler gets: the object, a `DeletedFinalStateUnknown` that holds one or something
-- else, or neither.
pub data Deleted (A : Type 0) : Type 0 where
  object : A → Deleted A
  tombstone : Option A → Deleted A
  neither : Deleted A

-- The object behind it, by the type assertions of the handlers.
unfoldable pub deleted_object : {A : Type 0} → Deleted A → Option A
deleted_object (object a) = some a
deleted_object (tombstone found) = found
deleted_object neither = none

pub data InformerEvent : Type 0 where
  added_cluster : RedisCluster → InformerEvent
  updated_cluster : (old cur : RedisCluster) → InformerEvent
  deleted_cluster : Deleted RedisCluster → InformerEvent
  added_set : StatefulSet → InformerEvent
  -- With the outcome of `reflect.DeepEqual` on the statuses, negated.
  updated_set : (changed : Bool) → (old cur : StatefulSet) → InformerEvent
  deleted_set : Deleted StatefulSet → InformerEvent

module _ (w : WorkQueue) (key_of : RedisCluster → Result Error String) where
  open w use {Queue}

  -- `addRedisCluster`
  unfoldable pub add_redis_cluster : RedisCluster → Queue → Queue
  unfolding enqueue
  add_redis_cluster rc q = enqueue w key_of rc q

  -- `updateRedisCluster`: an equal version is logged, and does not end the handler.
  unfoldable pub update_redis_cluster : RedisCluster → RedisCluster → Queue → Queue
  unfolding enqueue
  update_redis_cluster old cur q = enqueue w key_of cur q

  -- `deleteRedisCluster`
  unfoldable pub delete_redis_cluster : Deleted RedisCluster → Queue → Queue
  unfolding enqueue deleted_object
  delete_redis_cluster obj q = elim (deleted_object obj) [
    | none ↦ q
    | some rc ↦ enqueue w key_of rc q
  ]

  -- `deleteStatefulSet`; the custom resources are those of the lister's cache.
  unfoldable pub delete_stateful_set : List RedisCluster → Deleted StatefulSet → Queue → Queue
  unfolding stateful_set_event deleted_object
  delete_stateful_set rcs obj q = elim (deleted_object obj) [
    | none ↦ q
    | some sts ↦ stateful_set_event w key_of rcs sts q
  ]

  -- `addStatefulSet`: a set that is being deleted is handled as deleted.
  unfoldable pub add_stateful_set : List RedisCluster → StatefulSet → Queue → Queue
  unfolding stateful_set_event delete_stateful_set
  add_stateful_set rcs sts q = elim sts.deletion_timestamp [
    | some _ ↦ delete_stateful_set rcs (object sts) q
    | none ↦ stateful_set_event w key_of rcs sts q
  ]

  -- The handlers, as `NewRedisClusterOperator` gives them to the informers.
  unfoldable pub on_event : List RedisCluster → InformerEvent → Queue → Queue
  unfolding add_redis_cluster update_redis_cluster delete_redis_cluster add_stateful_set
      update_stateful_set delete_stateful_set
  on_event rcs (added_cluster rc) q = add_redis_cluster rc q
  on_event rcs (updated_cluster old cur) q = update_redis_cluster old cur q
  on_event rcs (deleted_cluster obj) q = delete_redis_cluster obj q
  on_event rcs (added_set sts) q = add_stateful_set rcs sts q
  on_event rcs (updated_set changed old cur) q = update_stateful_set w key_of rcs changed old cur q
  on_event rcs (deleted_set obj) q = delete_stateful_set rcs obj q
