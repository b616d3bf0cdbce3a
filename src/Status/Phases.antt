-- ===== src/Status/Phases.antt =====
-- Which phase `updateRedisClusterStatus` (sync_rediscluster.go) writes.
use middleware_operator_mana.Base.{
  ℕ, ◌<◌, ◌≡◌, refl, sym, subst, inl, inr, ◌∷◌, [], true, false, some, none, ◌||◌, String, str_eq,
  eq_iff, Option, arith, Bool,
}
use middleware_operator_mana.Commands.Quiet.{Looks, Reads}
use middleware_operator_mana.Errors.{Result, ok, err, Error, ApiError, Command}
use middleware_operator_mana.Status.{
  shares_conditions, with_replicas, running_status, temp_status, write_status, get_endpoints,
  update_redis_cluster_status,
}
use middleware_operator_mana.Status.Quiet.{temp_status-Emits}
use middleware_operator_mana.Status.Writes.{write_status-writes}
use middleware_operator_mana.Types.{Endpoints, ObjectReference, RedisCluster, RedisClusterStatus}
use middleware_operator_mana.Types.Phase.{RedisClusterPhase}
use middleware_operator_mana.Types.Phase
use middleware_operator_mana.World.{Env, Event, executed, updated_cluster, M, on_error, pure}
use middleware_operator_mana.World.Ascends.{Silent}
use middleware_operator_mana.World.Climbs.{still, Climb, Climb-pure, Climb-given}
use middleware_operator_mana.World.Gives.{
  Gives, Gives-pure, Gives-if, Gives-bind, Gives-elim, Gives-on_error, gives_rules,
}

-- Neither a command nor a read writes the status.
pub run-Silent : (pod : ObjectReference) (c : Command) → Looks c → Silent (executed pod c)
run-Silent pod c h = tt

pub Reads-Silent : (e : Event) → Reads e → Silent e
Reads-Silent (updated_cluster rc) h = h
Reads-Silent _ h = tt

-- A status of the phase, if it could be made.
data HasPhase (phase : RedisClusterPhase) : Result Error RedisClusterStatus → Type 0 where
  made : (status : RedisClusterStatus) → status.phase ≡ phase → HasPhase phase (ok status)
  not_made : (e : Error) → HasPhase phase (err e)

-- The phases that have a case in the switch.
abbrev pub is_known : RedisClusterPhase → Bool
is_known phase =
    str_eq phase Phase.fresh
    || (str_eq phase Phase.creating || (str_eq phase Phase.running || shares_conditions phase))

pub failed-is_known : is_known Phase.failed ≡ true
unfolding shares_conditions
failed-is_known = refl

or-false : (a b : Bool) → (a || b) ≡ true → a ≡ false → b ≡ true
or-false a b h e = ground arith

module _ (env : Env) where
  with_replicas-HasPhase :
      (rc : RedisCluster) (phase : RedisClusterPhase) (status : ℕ → RedisClusterStatus)
      → ((n : ℕ) → (status n).phase ≡ phase)
      → Gives (HasPhase phase) (with_replicas env rc status)
  unfolding with_replicas
  with_replicas-HasPhase rc phase status h = search (gives_rules, made, not_made) depth 12

  running_status-HasPhase :
      (rc : RedisCluster) (given : Option Endpoints) (reason : String)
      → Gives (HasPhase Phase.running) (running_status env rc given reason)
  unfolding running_status
  running_status-HasPhase rc given reason =
      let fetch : M (Result ApiError Endpoints) = elim given [
        | some endpoints ↦ pure (ok endpoints)
        | none ↦ get_endpoints env rc.namespace rc.name
      ] in
      Gives-bind fetch _ (λ fetched.
        Gives-on_error fetched _ _ (λ e. Gives-pure _ (not_made _))
          (λ (endpoints : Endpoints).
            Gives-elim endpoints.subsets _ _ (Gives-pure _ (not_made _))
              (λ subsets. search (gives_rules, made, not_made) depth 20)))

  -- The status that is to be written has the phase that was asked for.
  temp_status-HasPhase :
      (rc : RedisCluster) (given : Option Endpoints) (phase : RedisClusterPhase) (reason : String)
      → is_known phase ≡ true
      → Gives (HasPhase phase) (temp_status env rc given phase reason)
  unfolding temp_status
  temp_status-HasPhase rc given phase reason known =
      Gives-if (str_eq phase Phase.fresh) _ _
        (λ e. Gives-pure _ (made _ (sym ((eq_iff phase Phase.fresh).0 e))))
        (λ a.
          Gives-if (str_eq phase Phase.creating) _ _
            (λ e. Gives-pure _ (made _ (sym ((eq_iff phase Phase.creating).0 e))))
            (λ b.
              Gives-if (str_eq phase Phase.running) _ _
                (λ e.
                  rw ((eq_iff phase Phase.running).0 e) (running_status-HasPhase rc given reason))
                (λ c.
                  Gives-if (shares_conditions phase) _ _
                    (λ e. with_replicas-HasPhase rc phase _ (λ n. refl))
                    (λ d.
                      absurd (cc (d, or-false _ _ (or-false _ _ (or-false _ _ known a) b) c))))))

  write_status-Climb :
      (rank : RedisClusterPhase → ℕ) (lo : ℕ) (rc : RedisCluster) (phase : RedisClusterPhase)
      (temp : RedisClusterStatus)
      → lo < rank temp.phase
      → Climb rank lo (write_status env rc phase temp) (λ _. rank temp.phase)
  write_status-Climb rank lo rc phase temp above = record {
    at = λ t. elim (write_status-writes env rc phase temp t) [
      | inl (same, e) ↦ rw e (still _ (λ _. rank temp.phase) t (omega arith))
      | inr (differs, (changed, u, e, o, n, r, p, perm, rest)) ↦ rw e (record {
        calls = updated_cluster changed ∷ [];
        added = refl;
        ascends = (rw p above, tt);
        below = rw p (omega arith);
      })
    ];
  }

  write_temp-Climb :
      (rank : RedisClusterPhase → ℕ) (lo : ℕ) (rc : RedisCluster) (phase : RedisClusterPhase)
      (r : Result Error RedisClusterStatus)
      → lo < rank phase
      → HasPhase phase r
      → Climb rank lo
          (on_error r
            (λ e. pure (record { object = rc; returned = rc; error = some e }))
            λ temp. write_status env rc phase temp)
          (λ _. rank phase)
  write_temp-Climb rank lo rc phase (ok temp) above (made _ h) =
      subst (λ p. Climb rank lo (write_status env rc phase temp) (λ _. rank p)) h
        (write_status-Climb rank lo rc phase temp (rw h above))
  write_temp-Climb rank lo rc phase (err e) above (not_made _) = Climb-pure _ _ (omega arith)

  -- One write at most, of the phase that was asked for.
  pub update_redis_cluster_status-Climb :
      {rank : RedisClusterPhase → ℕ} {lo : ℕ} (rc : RedisCluster) (given : Option Endpoints)
      (phase : RedisClusterPhase) (reason : String)
      → is_known phase ≡ true
      → lo < rank phase
      → Climb rank lo (update_redis_cluster_status env rc given phase reason) (λ _. rank phase)
  unfolding update_redis_cluster_status
  update_redis_cluster_status-Climb {rank} {lo} rc given phase reason known above =
      Climb-given {Q = HasPhase phase} (temp_status env rc given phase reason) _ _
        (temp_status-Emits env {P = Silent} run-Silent Reads-Silent rc given phase reason)
        (temp_status-HasPhase rc given phase reason known)
        (λ r h. write_temp-Climb rank lo rc phase r above h)
