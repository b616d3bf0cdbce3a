-- ===== src/Status/Writes.antt =====
-- When `updateRedisClusterStatus` (sync_rediscluster.go) writes, and what.
use middleware_operator_mana.Base.{
  ◌≡◌, refl, ap, ◌⊎◌, inl, inr, Bool-cases, ◌∷◌, map, Perm, none, some, if◌then◌else◌,
  sort_stable-perm,
}
use middleware_operator_mana.Errors.{Result, ok, err, ApiError, api, status_error}
use middleware_operator_mana.Outcome.{done}
use middleware_operator_mana.Status.{
  shares_conditions, by_name, sort_conditions, Updated, no_cluster, write_status,
}
use middleware_operator_mana.Types.{RedisCluster, RedisClusterStatus}
use middleware_operator_mana.Types.Phase.{RedisClusterPhase}
use middleware_operator_mana.Util.Status.{deep_equal, deep_equal-timeless, timeless}
use middleware_operator_mana.World.{Env, updated_cluster, Trace}

-- The object after the sort in place.
abbrev pub held : RedisCluster → RedisClusterPhase → RedisCluster
held rc phase =
    if shares_conditions phase then record rc { status = sort_conditions rc.status } else rc

-- Nothing would change but transition times.
abbrev pub Unchanged : RedisClusterStatus → RedisClusterStatus → Type 0
Unchanged a b =
    (a.replicas ≡ b.replicas)
    × (a.reason ≡ b.reason)
    × (a.phase ≡ b.phase)
    × (map timeless a.conditions ≡ map timeless b.conditions)

-- The object as it was stored is returned, or the error of the update, wrapped.
abbrev pub Answered : Result ApiError RedisCluster → Updated → Type 0
Answered answer u =
    ((stored : RedisCluster) × (answer ≡ ok stored) × (u.returned ≡ stored) × (u.error ≡ none))
    ⊎ ((e : ApiError) × (answer ≡ err e) × (u.error ≡ some (status_error (api e))))

-- What becomes of the answer to the update.
written :
    (changed : RedisCluster) (answer : Result ApiError RedisCluster)
    → (u : Updated) × ((elim answer [
      | ok stored ↦ record { object = changed; returned = stored; error = none }
      | err e ↦ record {
        object = changed;
        returned = no_cluster;
        error = some (status_error (api e));
      }
    ])
        ≡ u)
      × (u.object ≡ changed)
      × Answered answer u
written changed (ok stored) = (_, refl, refl, inl (stored, refl, refl, refl))
written changed (err e) = (_, refl, refl, inr (e, refl, refl))

module _ (env : Env) where
  -- The status is written exactly when it differs from the object's in more than transition times,
  -- its conditions sorted by name. If nothing differs, no call is made and the object is returned; if
  -- something does, one update is made, of an object with the wanted replicas, reason and phase and a
  -- reordering of the wanted conditions, and the call's error, if any, is the one returned.
  pub write_status-writes :
      (rc : RedisCluster) (phase : RedisClusterPhase) (temp : RedisClusterStatus) (t : Trace)
      → (Unchanged (sort_conditions temp) (held rc phase).status
          × (write_status env rc phase temp t ≡ (
            done (record { object = held rc phase; returned = held rc phase; error = none }),
            t,
          )))
        ⊎ ((¬ Unchanged (sort_conditions temp) (held rc phase).status)
            × ((changed : RedisCluster) × (u : Updated) × (write_status env rc phase temp t
                  ≡ (done u, updated_cluster changed ∷ t))
                × (u.object ≡ changed)
                × (changed.status.replicas ≡ temp.replicas)
                × (changed.status.reason ≡ temp.reason)
                × (changed.status.phase ≡ temp.phase)
                × Perm changed.status.conditions temp.conditions
                × Answered (env.update_cluster t changed) u))
  unfolding write_status
  write_status-writes rc phase temp t =
      let agree = deep_equal-timeless (sort_conditions temp) (held rc phase).status in
      elim (Bool-cases (deep_equal (sort_conditions temp) (held rc phase).status)) [
        | inl e ↦ inl (agree.0 e, rw e refl)
        | inr e ↦
            let changed = record (held rc phase) { status = sort_conditions temp } in
            let (u, h, o, f) = written changed (env.update_cluster t changed) in
            inr (
              (λ same. absurd (cc (e, agree.1 same))),
              (
                changed,
                u,
                rw e (ap (λ x. (done x, updated_cluster changed ∷ t)) h),
                o,
                refl,
                refl,
                refl,
                sort_stable-perm by_name temp.conditions,
                f,
              ),
            )
      ]
