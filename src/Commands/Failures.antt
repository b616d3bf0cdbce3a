-- ===== src/Commands/Failures.antt =====
-- When a command that is run in a pod through the streams of the API succeeds.
use middleware_operator_mana.Base.{
  ℕ, ◌≡◌, ◌↔◌, refl, ap, ◌∙◌, ◌∷◌, String, eq_iff, Option, none, some, Option-cases, inl, inr,
  if◌then◌else◌, arith,
}
use middleware_operator_mana.Commands.{run_command, has_failed}
use middleware_operator_mana.Commands.Exec.{Streams, pod_exec, exec_to_pod}
use middleware_operator_mana.Errors.{Result, ok, err, command_failed, Error, Command}
use middleware_operator_mana.Outcome.{Outcome, done}
use middleware_operator_mana.Types.{ObjectReference}
use middleware_operator_mana.World.{Env, Trace, executed}

-- The command was started, and its stream ended without an error, with nothing on standard error and
-- this on standard output.
abbrev pub Clean : (ℕ → String) → Streams → Trace → ObjectReference → Command → String → Type 0
Clean decimal s t pod command out =
    (s.add_to_scheme ≡ none)
    × (s.new_executor (pod_exec decimal pod command) ≡ none)
    × ((s.stream t (pod_exec decimal pod command)).error ≡ none)
    × ((s.stream t (pod_exec decimal pod command)).stderr ≡ "")
    × ((s.stream t (pod_exec decimal pod command)).stdout ≡ out)

-- The environment whose commands are run through the streams.
abbrev pub streaming : (ℕ → String) → Streams → Env → Env
streaming decimal s env = record env { exec = exec_to_pod decimal s }

result_of :
    (x y : Result Error String) (t : Trace)
    → Path (Outcome (Result Error String) × Trace) (done x, t) (done y, t)
    → x ≡ y
result_of x y t h = let same : done x ≡ done y = ap (λ o. o.0) h in cc

answer_iff :
    (stdout stderr : String) (error : Option String) (e : Error) (out : String)
    → ((if has_failed (record { stdout = stdout; stderr = stderr; error = error })
          then err e
          else ok stdout)
        ≡ ok out)
      ↔ ((error ≡ none) × (stderr ≡ "") × (stdout ≡ out))
answer_iff stdout stderr (some x) e out = ((λ h. absurd (cc h)), (λ h. absurd (cc h.0)))
answer_iff stdout stderr none e out =
    let quiet = eq_iff stderr "" in
    ((λ h. (refl, ground (arith, quiet), ground (arith, quiet))), (λ h. ground (arith, quiet)))

module _ (decimal : ℕ → String) (s : Streams) (pod : ObjectReference) (command : Command)
    (t : Trace) where
  ends :
      s.add_to_scheme ≡ none
      → s.new_executor (pod_exec decimal pod command) ≡ none
      → (s.stream t (pod_exec decimal pod command)).error ≡ none
      → exec_to_pod decimal s t pod command
        ≡ record (s.stream t (pod_exec decimal pod command)) { error = none }
  unfolding exec_to_pod
  ends a b c = rw (a, b, c, exec_to_pod) refl

  started :
      (exec_to_pod decimal s t pod command).error ≡ none
      → (s.add_to_scheme ≡ none)
        × (s.new_executor (pod_exec decimal pod command) ≡ none)
        × ((s.stream t (pod_exec decimal pod command)).error ≡ none)
  unfolding exec_to_pod
  started h = elim (Option-cases s.add_to_scheme) [
    | inr (x, e) ↦ let never = rw (e, exec_to_pod) at h in absurd (cc never)
    | inl a ↦ elim (Option-cases (s.new_executor (pod_exec decimal pod command))) [
      | inr (x, e) ↦ let never = rw (a, e, exec_to_pod) at h in absurd (cc never)
      | inl b ↦ elim (Option-cases (s.stream t (pod_exec decimal pod command)).error) [
        | inr (x, e) ↦ let never = rw (a, b, e, exec_to_pod) at h in absurd (cc never)
        | inl c ↦ (a, b, c)
      ]
    ]
  ]

module _ (decimal : ℕ → String) (s : Streams) (env : Env) (pod : ObjectReference)
    (command : Command) (t : Trace) where
  -- Through the streams of the API a command succeeds with an output exactly if it could be started, its
  -- stream ended without an error, nothing was written to standard error, and that output to standard
  -- output; it is run once in any case.
  pub run_command-streams :
      (out : String)
      → ((run_command (streaming decimal s env) pod command t
            ≡ (done (ok out), executed pod command ∷ t))
          ↔ Clean decimal s t pod command out)
        × ((run_command (streaming decimal s env) pod command t).1 ≡ executed pod command ∷ t)
  unfolding run_command exec_to_pod
  run_command-streams out =
      let reply = exec_to_pod decimal s t pod command in
      let answer =
        answer_iff reply.stdout reply.stderr reply.error (command_failed pod command reply) out in
      (
        (
          (λ h.
              let (calm, quiet, same) = answer.0 (result_of _ _ (executed pod command ∷ t) h) in
              let (a, b, c) = started decimal s pod command t calm in
              let run = ends decimal s pod command t a b c in
              (a, b, c, rw run at quiet, rw run at same)),
          (λ (a, b, c, quiet, same).
              let run = ends decimal s pod command t a b c in
              ap (λ r. (done r, executed pod command ∷ t))
                (answer.1 (
                  ap (λ r. r.error) run,
                  ap (λ r. r.stderr) run ∙ quiet,
                  ap (λ r. r.stdout) run ∙ same,
                ))),
        ),
        refl,
      )
