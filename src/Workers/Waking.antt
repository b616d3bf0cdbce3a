-- ===== src/Workers/Waking.antt =====
-- Which keys the informer events of redis_operator.go add to the work queue, by the handlers that
-- `NewRedisClusterOperator` installs.
use middleware_operator_mana.Base.{◌≡◌, ◌≢◌, ◌⊎◌, true, List, none, some, String}
use middleware_operator_mana.Errors.{Result, Error}
use middleware_operator_mana.Sync.Events.{Queued, Woken}
use middleware_operator_mana.Sync.Queue.{WorkQueue}
use middleware_operator_mana.Types.{RedisCluster}
use middleware_operator_mana.Workers.Handlers.{
  object, tombstone, neither, InformerEvent, added_cluster, updated_cluster, deleted_cluster,
  added_set, updated_set, deleted_set,
}

-- What `reflect.DeepEqual` says of the statuses agrees with the replicas that they report.
abbrev pub Compares : InformerEvent → Type 0
Compares (updated_set changed old cur) =
    (old.status_replicas ≢ cur.status_replicas) → changed ≡ true
Compares _ = Unit

module _ (w : WorkQueue) (key_of : RedisCluster → Result Error String)
    (rcs : List RedisCluster) where
  open w use {Queue}

  -- What an event does to the queue.
  abbrev pub Wakes : InformerEvent → Queue → Queue → Type 0
  Wakes (added_cluster rc) q q' = Queued w key_of rc q q'
  Wakes (updated_cluster old cur) q q' = Queued w key_of cur q q'
  Wakes (deleted_cluster (object rc)) q q' = Queued w key_of rc q q'
  Wakes (deleted_cluster (tombstone (some rc))) q q' = Queued w key_of rc q q'
  Wakes (deleted_cluster (tombstone none)) q q' = q' ≡ q
  Wakes (deleted_cluster neither) q q' = q' ≡ q
  Wakes (added_set sts) q q' = Woken w key_of rcs sts q q'
  Wakes (updated_set changed old cur) q q' =
      ((cur.resource_version ≢ old.resource_version)
        × (changed ≡ true)
        × Woken w key_of rcs cur q q')
      ⊎ (((cur.resource_version ≡ old.resource_version)
            ⊎ (old.status_replicas ≡ cur.status_replicas))
          × (q' ≡ q))
  Wakes (deleted_set (object sts)) q q' = Woken w key_of rcs sts q q'
  Wakes (deleted_set (tombstone (some sts))) q q' = Woken w key_of rcs sts q q'
  Wakes (deleted_set (tombstone none)) q q' = q' ≡ q
  Wakes (deleted_set neither) q q' = q' ≡ q
