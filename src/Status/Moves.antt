-- ===== src/Status/Moves.antt =====
-- The write of a phase in passing, Scaling or Upgrading (`updateRedisClusterStatus`,
-- sync_rediscluster.go), where it is new and is stored.
use middleware_operator_mana.Base.{
  ℕ, ◌≡◌, ◌≢◌, subst, refl, sym, ap, Bool, if◌then◌else◌, ◌⊎◌, inl, inr, ◌∙◌, ◌∷◌, Bool-cases, true,
  some, none,
}
use middleware_operator_mana.Errors.{ok}
use middleware_operator_mana.Outcome.{done}
use middleware_operator_mana.Status.{
  status_of, temp_status, write_status, update_redis_cluster_status, shares_conditions,
  sort_conditions,
}
use middleware_operator_mana.Status.Writes.{held}
use middleware_operator_mana.Types.{RedisCluster}
use middleware_operator_mana.Types.Objects.{StatefulSet}
use middleware_operator_mana.Types.Phase.{RedisClusterPhase}
use middleware_operator_mana.Types.Phase
use middleware_operator_mana.Util.Status.{deep_equal, deep_equal-timeless}
use middleware_operator_mana.World.{Env, Trace, got_stateful_set, updated_cluster}

-- The custom resource in another phase, with the replicas of its set and its conditions sorted.
abbrev pub moved : RedisClusterPhase → ℕ → RedisCluster → RedisCluster
moved phase n rc = record rc {
  status = sort_conditions (status_of n phase "" rc.status.conditions);
}

abbrev pub Passing : RedisClusterPhase → Type 0
Passing phase = (phase ≡ Phase.scaling) ⊎ (phase ≡ Phase.upgrading)

Passing-shares : (phase : RedisClusterPhase) → Passing phase → shares_conditions phase ≡ true
unfolding shares_conditions
Passing-shares phase (inl e) = subst (λ f. shares_conditions f ≡ true) (sym e) refl
Passing-shares phase (inr e) = subst (λ f. shares_conditions f ≡ true) (sym e) refl

held-phase :
    (rc : RedisCluster) (phase : RedisClusterPhase) → (held rc phase).status.phase ≡ rc.status.phase
held-phase rc phase = elim (Bool-cases (shares_conditions phase)) [
  | inl e ↦ rw e refl
  | inr e ↦ rw e refl
]

module _ (env : Env) (rc : RedisCluster) (sts : StatefulSet) (n : ℕ) (t : Trace)
    (stored : env.get_stateful_set t rc.namespace rc.name ≡ ok sts)
    (replicas : sts.spec.replicas ≡ some n) where
  abbrev looked : Trace
  looked = got_stateful_set rc.namespace rc.name ∷ t

  temp_status-Passing :
      (phase : RedisClusterPhase)
      → Passing phase
      → temp_status env rc none phase "" t
        ≡ (done (ok (status_of n phase "" rc.status.conditions)), looked)
  unfolding temp_status shares_conditions
  temp_status-Passing phase (inl e) =
      subst
        (λ f.
          temp_status env rc none f "" t
          ≡ (done (ok (status_of n f "" rc.status.conditions)), looked))
        (sym e) (rw (stored, replicas) refl)
  temp_status-Passing phase (inr e) =
      subst
        (λ f.
          temp_status env rc none f "" t
          ≡ (done (ok (status_of n f "" rc.status.conditions)), looked))
        (sym e) (rw (stored, replicas) refl)

  pub update_status-moves :
      (phase : RedisClusterPhase)
      → Passing phase
      → rc.status.phase ≢ phase
      → env.update_cluster looked (moved phase n rc) ≡ ok (moved phase n rc)
      → update_redis_cluster_status env rc none phase "" t ≡ (
        done (record { object = moved phase n rc; returned = moved phase n rc; error = none }),
        updated_cluster (moved phase n rc) ∷ looked,
      )
  unfolding update_redis_cluster_status write_status
  update_status-moves phase p fresh stores =
      let temp = status_of n phase "" rc.status.conditions in
      let change : Bool → RedisCluster = λ b.
        record (if b then record rc { status = sort_conditions rc.status } else rc) {
          status = sort_conditions temp;
        } in
      let same : change (shares_conditions phase) ≡ moved phase n rc =
        ap change (Passing-shares phase p) in
      let stores' = subst (λ c. env.update_cluster looked c ≡ ok c) (sym same) stores in
      elim (Bool-cases (deep_equal (sort_conditions temp) (held rc phase).status)) [
        | inl e ↦
            let (_, _, q, _) =
              (deep_equal-timeless (sort_conditions temp) (held rc phase).status).0 e in
            absurd (fresh (sym (q ∙ held-phase rc phase)))
        | inr e ↦ rw (temp_status-Passing phase p) (
            subst
              (λ c. write_status env rc phase temp looked ≡ (
                done (record { object = c; returned = c; error = none }),
                updated_cluster c ∷ looked,
              ))
              same (rw (e, stores') refl))
      ]
