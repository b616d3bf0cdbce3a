-- ===== src/Samples/Syncing.antt =====
-- Syncs, waits, writes of the status and a repair in the surroundings of `Samples`.
use middleware_operator_mana.Base.{
  ℕ, suc, ◌≤◌, ◌<◌, ◌≡◌, ◌⊎◌, refl, [], ◌∷◌, String, Perm, Mem, none, some,
}
use middleware_operator_mana.Commands.{wait_redis_status_ok}
use middleware_operator_mana.Commands.Waiting.{checked, reply, Failed, Clean, Unclean, wait-checks}
use middleware_operator_mana.Errors.{Result, ok, err, Error, api, other_api}
use middleware_operator_mana.Outcome.{done, panic}
use middleware_operator_mana.Samples.{pod, printing, cluster_of, set_of, without_replicas, counting}
use middleware_operator_mana.Status.{sort_conditions, Updated, write_status, status_of}
use middleware_operator_mana.Status.Writes.{held, Unchanged, Answered, write_status-writes}
use middleware_operator_mana.Sync.Core.{
  sync, get_stateful_set_for, find_stateful_set, manages, value_at, handle_flag,
}
use middleware_operator_mana.Sync.Decisions.{Owns, find_stateful_set-Owns}
use middleware_operator_mana.Sync.Queue.{sync_redis_cluster, max_retries, seen_error}
use middleware_operator_mana.Sync.Retries.{next_requeues, sync-requeues, sync-panic}
use middleware_operator_mana.Types.{EndpointAddress, RedisCluster, RedisClusterStatus}
use middleware_operator_mana.Types.Objects.{StatefulSet}
use middleware_operator_mana.Types.Phase
use middleware_operator_mana.World.{Env, updated_cluster}

abbrev split_key : String → Result Error (String × String)
split_key key = ok ("ns", "r")

abbrev twice : String → ℕ
twice key = 2

-- The cache does not answer.
unanswered : seen_error (sync (printing "") "ns" "r" []).0 ≡ done (some (api (other_api "down")))
unfolding seen_error sync
unanswered = refl

sync-requeues_example :
    (q' : String → ℕ) × ((sync_redis_cluster counting (printing "") split_key "ns/r" [] twice).1
      ≡ some q')
    × (q' "ns/r" ≡ next_requeues (some (api (other_api "down"))) 2)
    × (2 ≤ max_retries → q' "ns/r" ≤ max_retries)
sync-requeues_example =
    sync-requeues counting (printing "") split_key "ns/r" "ns" "r" [] twice
      (some (api (other_api "down"))) refl unanswered

-- The replicas of the custom resource are nil.
unset : (sync without_replicas "ns" "r" []).0 ≡ panic
unfolding sync get_stateful_set_for find_stateful_set manages value_at handle_flag
unset = refl

sync-panic_example :
    ((sync_redis_cluster counting without_replicas split_key "ns/r" [] twice).1
      ≡ some (counting.finish "ns/r" (counting.forget "ns/r" twice)))
    × (counting.num_requeues (counting.finish "ns/r" (counting.forget "ns/r" twice)) "ns/r" ≡ 0)
sync-panic_example =
    sync-panic counting without_replicas split_key "ns/r" "ns" "r" [] twice refl unset

find_stateful_set-Owns_example :
    ((sts : StatefulSet) × (find_stateful_set (cluster_of (some 6)) (set_of 6 ∷ []) ≡ some sts)
      × Mem sts (set_of 6 ∷ [])
      × Owns (cluster_of (some 6)) sts)
    ⊎ ((find_stateful_set (cluster_of (some 6)) (set_of 6 ∷ []) ≡ none)
        × ((sts : StatefulSet) → Mem sts (set_of 6 ∷ []) → ¬ Owns (cluster_of (some 6)) sts))
find_stateful_set-Owns_example = find_stateful_set-Owns (cluster_of (some 6)) (set_of 6 ∷ [])

abbrev agreeing : Env
agreeing = printing "[OK] All nodes agree about slots configuration."

abbrev first_pod : EndpointAddress
first_pod = pod "r-0" "10.0.0.1" "a"

wait-checks_example :
    (k : ℕ) × (k ≤ 3)
    × ((i : ℕ)
        → i < k
        → Unclean agreeing "10.0.0.1" first_pod.target
            (reply agreeing "10.0.0.1" first_pod.target i []))
    × (((wait_redis_status_ok agreeing "10.0.0.1" first_pod.target []
            ≡ (done (ok tt), checked agreeing "10.0.0.1" first_pod.target (suc k) []))
          × Clean agreeing "10.0.0.1" first_pod.target
              (reply agreeing "10.0.0.1" first_pod.target k []))
        ⊎ ((e : Error) × (wait_redis_status_ok agreeing "10.0.0.1" first_pod.target []
              ≡ (done (err e), checked agreeing "10.0.0.1" first_pod.target (suc k) []))
            × (Failed agreeing "10.0.0.1" first_pod.target
                  (reply agreeing "10.0.0.1" first_pod.target k [])
                ⊎ ((k ≡ 3)
                    × Unclean agreeing "10.0.0.1" first_pod.target
                        (reply agreeing "10.0.0.1" first_pod.target k [])))))
wait-checks_example = wait-checks agreeing "10.0.0.1" first_pod.target []

abbrev creating_status : RedisClusterStatus
creating_status = status_of 0 Phase.creating "" []

write_status-writes_example :
    (Unchanged (sort_conditions creating_status) (held (cluster_of (some 6)) Phase.creating).status
      × (write_status (printing "") (cluster_of (some 6)) Phase.creating creating_status [] ≡ (
        done (record {
          object = held (cluster_of (some 6)) Phase.creating;
          returned = held (cluster_of (some 6)) Phase.creating;
          error = none;
        }),
        [],
      )))
    ⊎ ((¬ Unchanged
          (sort_conditions creating_status)
          (held (cluster_of (some 6)) Phase.creating).status)
        × ((changed : RedisCluster) × (u : Updated) × (write_status
                (printing "")
                (cluster_of (some 6))
                Phase.creating
                creating_status
                []
              ≡ (done u, updated_cluster changed ∷ []))
            × (u.object ≡ changed)
            × (changed.status.replicas ≡ 0)
            × (changed.status.reason ≡ "")
            × (changed.status.phase ≡ Phase.creating)
            × Perm changed.status.conditions []
            × Answered ((printing "").update_cluster [] changed) u))
write_status-writes_example =
    write_status-writes (printing "") (cluster_of (some 6)) Phase.creating creating_status []
