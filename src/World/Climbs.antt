-- ===== src/World/Climbs.antt =====
-- Which phases a computation writes to the status, and in which order: each ranks above those written
-- before it. One rule for each way to build a computation.
use mathlib.Core.List.{append_assoc}
use middleware_operator_mana.Base.{
  ℕ, ◌≤◌, ◌≡◌, refl, sym, ap, subst, ◌∙◌, Bool, true, false, List, [], ◌∷◌, ◌++◌, Option, none,
  some, if◌then◌else◌, arith,
}
use middleware_operator_mana.Errors.{Result, ok, err}
use middleware_operator_mana.Outcome.{Outcome, done, panic, diverge}
use middleware_operator_mana.Types.Phase.{RedisClusterPhase}
use middleware_operator_mana.World.{
  Event, Trace, M, ◌>>=◌, and_then, pure, lift, on_error, on_option, on_list,
}
use middleware_operator_mana.World.Ascends.{
  phases, Silent, peak, Ascends, phases-append, Silent-phases, Ascends-append,
}
use middleware_operator_mana.World.Emits.{Emits, Emits-lift}
use middleware_operator_mana.World.Gives.{Gives, Holds}

-- When a value is returned, the latest phase ranks no higher than `hi` says of the value.
abbrev pub Below :
    {A : Type 0}
    → (RedisClusterPhase → ℕ)
    → ℕ
    → List RedisClusterPhase
    → (A → ℕ)
    → Outcome A
    → Type 0
Below rank lo ps hi (done a) = peak rank lo ps ≤ hi a
Below rank lo ps hi panic = Unit
Below rank lo ps hi diverge = Unit

-- The calls from `t` to the end of a run, and the phases they write.
pub record Ascent {A : Type 0} (rank : RedisClusterPhase → ℕ) (lo : ℕ) (hi : A → ℕ) (t : Trace)
    (run : Outcome A × Trace) : Type 0 where
  pub calls : List Event
  pub added : run.1 ≡ calls ++ t
  pub ascends : Ascends rank lo (phases calls)
  pub below : Below rank lo (phases calls) hi run.0

-- Where every phase written before ranks at most `lo`, the phases that `m` writes ascend from there.
pub record Climb {A : Type 0} (rank : RedisClusterPhase → ℕ) (lo : ℕ) (m : M A) (hi : A → ℕ)
    : Type 0 where
  pub at : (t : Trace) → Ascent rank lo hi t (m t)

Below-weaken :
    {A : Type 0} (rank : RedisClusterPhase → ℕ) (lo mid : ℕ) (ps qs : List RedisClusterPhase)
    (hi : A → ℕ) (o : Outcome A)
    → peak rank lo qs ≤ peak rank mid ps
    → Below rank mid ps hi o
    → Below rank lo qs hi o
Below-weaken rank lo mid ps qs hi (done a) h b = omega arith
Below-weaken rank lo mid ps qs hi panic h b = tt
Below-weaken rank lo mid ps qs hi diverge h b = tt

everywhere :
    {A : Type 0} (rank : RedisClusterPhase → ℕ) (lo : ℕ) (o : Outcome A) (hi : A → ℕ)
    → ((a : A) → lo ≤ hi a)
    → Below rank lo [] hi o
everywhere rank lo (done a) hi h = h a
everywhere rank lo panic hi h = tt
everywhere rank lo diverge hi h = tt

module _ {A : Type 0} {rank : RedisClusterPhase → ℕ} {lo : ℕ} where
  -- Nothing is called.
  pub still :
      (o : Outcome A) (hi : A → ℕ) (t : Trace) → Below rank lo [] hi o → Ascent rank lo hi t (o, t)
  still o hi t h = record { calls = []; added = refl; ascends = tt; below = h }

  pub Climb-pure : (a : A) (hi : A → ℕ) → lo ≤ hi a → Climb rank lo (pure a) hi
  Climb-pure a hi h = record { at = λ t. still (done a) hi t h }

  pub Climb-Silent :
      {m : M A} (hi : A → ℕ) → Emits Silent m → ((a : A) → lo ≤ hi a) → Climb rank lo m hi
  Climb-Silent {m = m} hi k h = record {
    at = λ t.
        let g = k.at t in
        let none_written = Silent-phases g.calls g.allowed in
        record {
          calls = g.calls;
          added = g.added;
          ascends = rw none_written tt;
          below = rw none_written (everywhere rank lo (m t).0 hi h);
        };
  }

  pub Climb-if :
      (b : Bool) (m n : M A) (hi : A → ℕ)
      → Climb rank lo m hi
      → Climb rank lo n hi
      → Climb rank lo (if b then m else n) hi
  Climb-if true m n hi km kn = km
  Climb-if false m n hi km kn = kn

module _ {A B : Type 0} {rank : RedisClusterPhase → ℕ} {lo : ℕ} where
  Climb-and_then :
      (o : Outcome A) (t u : Trace) (f : A → M B) (mid : A → ℕ) (hi : B → ℕ)
      → Ascent rank lo mid t (o, u)
      → ((a : A) → o ≡ done a → Climb rank (mid a) (f a) hi)
      → Ascent rank lo hi t (and_then (o, u) f)
  Climb-and_then (done a) t u f mid hi g k =
      let h = (k a refl).at u in
      let ps = phases h.calls in
      let qs = phases g.calls in
      let joined = Ascends-append rank lo (mid a) ps qs g.below g.ascends h.ascends in
      record {
        calls = h.calls ++ g.calls;
        added = h.added ∙ ap (λ v. h.calls ++ v) g.added ∙ sym (append_assoc h.calls g.calls t);
        ascends = rw (phases-append h.calls g.calls) joined.0;
        below =
            rw (phases-append h.calls g.calls)
              (Below-weaken rank lo (mid a) ps (ps ++ qs) hi (f a u).0 joined.1 h.below);
      }
  Climb-and_then panic t u f mid hi g k = record {
    calls = g.calls;
    added = g.added;
    ascends = g.ascends;
    below = tt;
  }
  Climb-and_then diverge t u f mid hi g k = record {
    calls = g.calls;
    added = g.added;
    ascends = g.ascends;
    below = tt;
  }

  pub Climb-bind :
      (m : M A) (f : A → M B) (mid : A → ℕ) (hi : B → ℕ)
      → Climb rank lo m mid
      → ((a : A) → Climb rank (mid a) (f a) hi)
      → Climb rank lo (m >>= f) hi
  Climb-bind m f mid hi km kf = record {
    at = λ t. Climb-and_then (m t).0 t (m t).1 f mid hi (km.at t) (λ a e. kf a);
  }

  -- What does not write comes before what does.
  pub Climb-after :
      (m : M A) (f : A → M B) (hi : B → ℕ)
      → Emits Silent m
      → ((a : A) → Climb rank lo (f a) hi)
      → Climb rank lo (m >>= f) hi
  Climb-after m f hi km kf =
      Climb-bind m f (λ a. lo) hi (Climb-Silent (λ a. lo) km (λ a. omega arith)) kf

  -- A part that makes no calls.
  pub Climb-lifted :
      (o : Outcome A) (f : A → M B) (hi : B → ℕ)
      → ((a : A) → Climb rank lo (f a) hi)
      → Climb rank lo (lift o >>= f) hi
  Climb-lifted o f hi kf = Climb-after (lift o) f hi (Emits-lift o) kf

  -- What comes after relies on the value.
  pub Climb-given :
      {Q : A → Type 0} (m : M A) (f : A → M B) (hi : B → ℕ)
      → Emits Silent m
      → Gives Q m
      → ((a : A) → Q a → Climb rank lo (f a) hi)
      → Climb rank lo (m >>= f) hi
  Climb-given {Q = Q} m f hi km kq kf =
      let quiet = Climb-Silent (λ a. lo) km (λ a. omega arith) in
      record {
        at = λ t.
            Climb-and_then (m t).0 t (m t).1 f (λ a. lo) hi (quiet.at t)
              (λ a e. kf a (subst (Holds Q) e (kq.at t)));
      }

  pub Climb-on_option :
      (o : Option A) (absent : M B) (rest : A → M B) (hi : B → ℕ)
      → Climb rank lo absent hi
      → ((a : A) → Climb rank lo (rest a) hi)
      → Climb rank lo (on_option o absent rest) hi
  Climb-on_option none absent rest hi ka kr = ka
  Climb-on_option (some a) absent rest hi ka kr = kr a

  pub Climb-on_list :
      (l : List A) (absent : M B) (rest : A → List A → M B) (hi : B → ℕ)
      → Climb rank lo absent hi
      → ((a : A) (others : List A) → Climb rank lo (rest a others) hi)
      → Climb rank lo (on_list l absent rest) hi
  Climb-on_list [] absent rest hi ka kr = ka
  Climb-on_list (a ∷ others) absent rest hi ka kr = kr a others

pub Climb-on_error :
    {E A B : Type 0} {rank : RedisClusterPhase → ℕ} {lo : ℕ} (r : Result E A) (handler : E → M B)
    (rest : A → M B) (hi : B → ℕ)
    → ((e : E) → Climb rank lo (handler e) hi)
    → ((a : A) → Climb rank lo (rest a) hi)
    → Climb rank lo (on_error r handler rest) hi
Climb-on_error (ok a) handler rest hi kh kr = kr a
Climb-on_error (err e) handler rest hi kh kr = kh e

-- A step that does not write, and may fail.
pub Climb-checked :
    {E A B : Type 0} {rank : RedisClusterPhase → ℕ} {lo : ℕ} (m : M (Result E A))
    (handler : E → M B) (rest : A → M B) (hi : B → ℕ)
    → Emits Silent m
    → ((e : E) → Climb rank lo (handler e) hi)
    → ((a : A) → Climb rank lo (rest a) hi)
    → Climb rank lo (m >>= λ r. on_error r handler rest) hi
Climb-checked m handler rest hi km kh kr =
    Climb-after m _ hi km (λ r. Climb-on_error r handler rest hi kh kr)

-- A rank for each way that a step may end.
abbrev pub by_result : {E A : Type 0} → ℕ → ℕ → Result E A → ℕ
by_result failure success (ok a) = success
by_result failure success (err e) = failure

-- A step that may have written a phase when it fails, and what comes after it.
pub Climb-try :
    {E A B : Type 0} {rank : RedisClusterPhase → ℕ} {lo : ℕ} (failure : ℕ) (m : M (Result E A))
    (handler : E → M B) (rest : A → M B) (hi : B → ℕ)
    → Climb rank lo m (by_result failure lo)
    → ((e : E) → Climb rank failure (handler e) hi)
    → ((a : A) → Climb rank lo (rest a) hi)
    → Climb rank lo (m >>= λ r. on_error r handler rest) hi
Climb-try {lo = lo} failure m handler rest hi km kh kr =
    Climb-bind m _ (by_result failure lo) hi km λ r.
      elim r as (λ r. Climb _ (by_result failure lo r) (on_error r handler rest) hi) [
        | ok a ↦ kr a
        | err e ↦ kh e
      ]

pub ruleset climb_rules =
    (Climb-pure, Climb-if, Climb-on_error, Climb-on_option, Climb-on_list, Climb-after)
