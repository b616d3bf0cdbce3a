-- ===== src/Sync/Settled.antt =====
-- What the cache holds, and what settles a custom resource whatever its status (check_rediscluster.go).
use middleware_operator_mana.Base.{
  ℕ, ◌≡◌, refl, sym, ap, subst, if◌then◌else◌, ◌==◌, ==_iff, true, false, List, [], ◌∷◌, ◌++◌, none,
  some, length, All,
}
use middleware_operator_mana.Repair.Parts.{is_settled, may_be_settled}
use middleware_operator_mana.Sync.Core.{manages, find_stateful_set}
use middleware_operator_mana.Lifecycle.Reports.{with_status}
use middleware_operator_mana.Outcome.{done, panic}
use middleware_operator_mana.Types.{RedisCluster, RedisClusterStatus}
use middleware_operator_mana.Types.Objects.{StatefulSet}
use middleware_operator_mana.Types.Phase
use middleware_operator_mana.World.{Event, Trace, updated_cluster}
use middleware_operator_mana.World.Ascends.{Silent}

-- What the cache holds: the custom resource that was written last, or else `base`.
abbrev pub cached_at : RedisCluster → Trace → RedisCluster
cached_at base [] = base
cached_at base (updated_cluster c ∷ t) = c
cached_at base (_ ∷ t) = cached_at base t

pub cached_at-Silent :
    (base : RedisCluster) (calls : List Event) (t : Trace)
    → All Silent calls
    → cached_at base (calls ++ t) ≡ cached_at base t
cached_at-Silent base [] t h = refl
cached_at-Silent base (updated_cluster c ∷ calls) t h = absurd h.0
cached_at-Silent base (_ ∷ calls) t h = cached_at-Silent base calls t h.1

pub find_stateful_set-with_status :
    (rc : RedisCluster) (s : RedisClusterStatus) (sets : List StatefulSet)
    → find_stateful_set (with_status rc s) sets ≡ find_stateful_set rc sets
unfolding find_stateful_set
find_stateful_set-with_status rc s [] = refl
find_stateful_set-with_status rc s (sts ∷ sets) =
    ap (λ found. if manages rc sts then some sts else found)
      (find_stateful_set-with_status rc s sets)

pub is_settled-counted :
    (c : RedisCluster) (wanted : ℕ)
    → may_be_settled c.status.phase ≡ true
    → c.spec.replicas ≡ some wanted
    → length c.status.conditions ≡ wanted
    → is_settled c ≡ done true
unfolding is_settled
is_settled-counted c wanted phase wants counted =
    subst
      (λ b.
        elim b [
          | false ↦ done false
          | true ↦ elim c.spec.replicas [
            | none ↦ panic
            | some replicas ↦ done (length c.status.conditions == replicas)
          ]
        ]
        ≡ done true)
      (sym phase) (rw (wants, (==_iff _ _).1 counted) refl)

pub Running-settled :
    (s : RedisClusterStatus) → s.phase ≡ Phase.running → may_be_settled s.phase ≡ true
unfolding may_be_settled
Running-settled s e = rw e refl
