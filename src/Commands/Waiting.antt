-- ===== src/Commands/Waiting.antt =====
-- `waitRedisStatusOK` (sync_rediscluster.go): how often `redis-trib.rb check` is run, and what ends it.
use middleware_operator_mana.Base.{
  ℕ, zero, suc, ◌≤◌, ◌<◌, ◌≡◌, refl, ap, ◌⊎◌, inl, inr, true, false, Bool-cases, ◌∷◌, String, none,
  some, arith,
}
use middleware_operator_mana.Commands.{
  has_failed, run_command, exec_check_redis_cluster, status_ok, wait_redis_status_ok,
}
use middleware_operator_mana.Errors.{
  Result, ok, err, Error, ExecReply, trib_check, command_failed, check_cluster, cluster_not_ok,
  wait_timeout,
}
use middleware_operator_mana.Outcome.{Outcome, done}
use middleware_operator_mana.Text.{contains}
use middleware_operator_mana.Types.{ObjectReference}
use middleware_operator_mana.World.{Env, executed, Trace, poll, poll_rounds}

module _ (env : Env) (ip : String) (pod : ObjectReference) where
  -- The history after `k` more checks.
  abbrev pub checked : ℕ → Trace → Trace
  checked zero t = t
  checked (suc k) t = checked k (executed pod (trib_check ip) ∷ t)

  -- The reply to the check made after `k` others.
  abbrev pub reply : ℕ → Trace → ExecReply
  reply k t = env.exec (checked k t) pod (trib_check ip)

  abbrev pub Failed : ExecReply → Type 0
  Failed r = has_failed r ≡ true

  abbrev pub Clean : ExecReply → Type 0
  Clean r = (has_failed r ≡ false) × (contains r.stdout "[ERR]" ≡ false)

  abbrev pub Unclean : ExecReply → Type 0
  Unclean r = (has_failed r ≡ false) × (contains r.stdout "[ERR]" ≡ true)

  status_ok_cases :
      (t : Trace)
      → ((status_ok env ip pod t ≡ (done (ok (some tt)), checked 1 t)) × Clean (reply 0 t))
        ⊎ (((status_ok env ip pod t ≡ (done (ok none), checked 1 t)) × Unclean (reply 0 t))
            ⊎ ((e : Error) × (status_ok env ip pod t ≡ (done (err e), checked 1 t))
                × Failed (reply 0 t)))
  unfolding status_ok exec_check_redis_cluster run_command
  status_ok_cases t = elim (Bool-cases (has_failed (reply 0 t))) [
    | inl f ↦
        inr (inr (check_cluster (command_failed pod (trib_check ip) (reply 0 t)), rw f refl, f))
    | inr f ↦ elim (Bool-cases (contains (reply 0 t).stdout "[ERR]")) [
      | inl c ↦ inr (inl (rw (f, c) refl, (f, c)))
      | inr c ↦ inl (rw (f, c) refl, (f, c))
    ]
  ]

  -- How a run of at most `suc n` checks ends: after `k` unclean ones, with a clean one, a failed one,
  -- or the last.
  record Ended (n : ℕ) (t : Trace) (r : Outcome (Result Error (Unit {0})) × Trace) : Type 0 where
    k : ℕ
    bounded : k ≤ n
    earlier : (i : ℕ) → i < k → Unclean (reply i t)
    ending :
        ((r ≡ (done (ok tt), checked (suc k) t)) × Clean (reply k t))
        ⊎ ((e : Error) × (r ≡ (done (err e), checked (suc k) t))
            × (Failed (reply k t) ⊎ ((k ≡ n) × Unclean (reply k t))))

  poll_rounds-Ended : (n : ℕ) (t : Trace) → Ended n t (poll_rounds n (status_ok env ip pod) t)
  unfolding poll_rounds
  poll_rounds-Ended zero t = elim (status_ok_cases t) [
    | inl (h, c) ↦ record {
      k = 0;
      bounded = omega arith;
      earlier = λ i l. absurd (omega arith);
      ending = inl (rw h refl, c);
    }
    | inr (inl (h, u)) ↦ record {
      k = 0;
      bounded = omega arith;
      earlier = λ i l. absurd (omega arith);
      ending = inr (wait_timeout, rw h refl, inr (refl, u));
    }
    | inr (inr (e, h, f)) ↦ record {
      k = 0;
      bounded = omega arith;
      earlier = λ i l. absurd (omega arith);
      ending = inr (e, rw h refl, inl f);
    }
  ]
  poll_rounds-Ended (suc n) t = elim (status_ok_cases t) [
    | inl (h, c) ↦ record {
      k = 0;
      bounded = omega arith;
      earlier = λ i l. absurd (omega arith);
      ending = inl (rw h refl, c);
    }
    | inr (inr (e, h, f)) ↦ record {
      k = 0;
      bounded = omega arith;
      earlier = λ i l. absurd (omega arith);
      ending = inr (e, rw h refl, inl f);
    }
    | inr (inl (h, u)) ↦
        let more = poll_rounds-Ended n (checked 1 t) in
        record {
          k = suc more.k;
          bounded = omega (arith, more.bounded);
          earlier = earlier_suc t more.k u (λ i l. more.earlier i l);
          ending = elim more.ending [
            | inl (r, c) ↦ inl (rw h r, c)
            | inr (e, r, inl f) ↦ inr (e, rw h r, inl f)
            | inr (e, r, inr (l, v)) ↦ inr (e, rw h r, inr (ap suc l, v))
          ];
        }
  ]
    where
      earlier_suc :
          (t : Trace) (k : ℕ)
          → Unclean (reply 0 t)
          → ((i : ℕ) → i < k → Unclean (reply i (checked 1 t)))
          → (i : ℕ) → i < suc k
          → Unclean (reply i t)
      earlier_suc t k u rest zero l = u
      earlier_suc t k u rest (suc i) l = rest i (omega arith)

  -- The wait runs `redis-trib.rb check` at most once more than the timer ticks, and nothing else. All
  -- checks but the last found errors in the cluster. It succeeds exactly after a clean check; it fails
  -- after a check that could not be run, or when the check after the last tick found errors still.
  pub wait-checks :
      (t : Trace)
      → (k : ℕ) × (k ≤ env.ticks t)
        × ((i : ℕ) → i < k → Unclean (reply i t))
        × (((wait_redis_status_ok env ip pod t ≡ (done (ok tt), checked (suc k) t))
              × Clean (reply k t))
            ⊎ ((e : Error) × (wait_redis_status_ok env ip pod t ≡ (done (err e), checked (suc k) t))
                × (Failed (reply k t) ⊎ ((k ≡ env.ticks t) × Unclean (reply k t)))))
  unfolding wait_redis_status_ok poll
  wait-checks t =
      let r = poll_rounds-Ended (env.ticks t) t in
      (
        r.k,
        r.bounded,
        r.earlier,
        elim r.ending [
          | inl (h, c) ↦ inl (rw h refl, c)
          | inr (e, h, why) ↦ inr (cluster_not_ok e, rw h refl, why)
        ],
      )
