-- ===== src/World/Emits.antt =====
-- Which calls a computation may make: a predicate on events that holds of every call it adds to the
-- history, one rule for each way to build a computation.
use mathlib.Core.List.{append_assoc}
use middleware_operator_mana.Base.{
  ℕ, zero, suc, ◌≡◌, refl, sym, subst, Bool, true, false, List, [], ◌∷◌, ◌++◌, Option, none, some,
  if◌then◌else◌, All, All-append,
}
use middleware_operator_mana.Errors.{Result, ok, err, Error, wait_timeout}
use middleware_operator_mana.Outcome.{Outcome, done, panic, diverge}
use middleware_operator_mana.World.{
  Env, Event, Trace, M, ◌>>=◌, and_then, pure, lift, call, on_error, on_option, on_list,
  poll_rounds, poll,
}

-- `later` is `earlier` with calls added for which `P` holds.
pub record Grown (P : Event → Type 0) (earlier later : Trace) : Type 0 where
  pub calls : List Event
  pub added : later ≡ calls ++ earlier
  pub allowed : All P calls

pub Grown-refl : {P : Event → Type 0} (t : Trace) → Grown P t t
Grown-refl t = record { calls = []; added = refl; allowed = tt }

pub Grown-trans : {P : Event → Type 0} {t u v : Trace} → Grown P t u → Grown P u v → Grown P t v
Grown-trans {P} g h = record {
  calls = h.calls ++ g.calls;
  added = rw (h.added, g.added) (sym (append_assoc h.calls g.calls _));
  allowed = All-append P h.calls g.calls h.allowed g.allowed;
}

-- Every call of `m` is one of `P`, however it ends.
pub record Emits (P : Event → Type 0) {A : Type 0} (m : M A) : Type 0 where
  pub at : (t : Trace) → Grown P t (m t).1

All-mono :
    {P Q : Event → Type 0} → ((e : Event) → P e → Q e) → (es : List Event) → All P es → All Q es
All-mono k [] h = tt
All-mono k (e ∷ es) h = (k e h.0, All-mono k es h.1)

-- What makes few calls makes no more than a larger class of them.
pub Emits-mono :
    {P Q : Event → Type 0} {A : Type 0} {m : M A}
    → ((e : Event) → P e → Q e)
    → Emits P m
    → Emits Q m
Emits-mono k h = record {
  at = λ t.
      let g = h.at t in
      record { calls = g.calls; added = g.added; allowed = All-mono k g.calls g.allowed };
}

module _ {P : Event → Type 0} {A : Type 0} where
  pub Emits-pure : (a : A) → Emits P (pure a)
  Emits-pure a = record { at = λ t. Grown-refl t }

  pub Emits-lift : (o : Outcome A) → Emits P (lift o)
  Emits-lift o = record { at = λ t. Grown-refl t }

  pub Emits-call : (e : Event) (answer : Trace → A) → P e → Emits P (call e answer)
  Emits-call e answer p = record {
    at = λ t. record { calls = e ∷ []; added = refl; allowed = (p, tt) };
  }

  pub Emits-if : (b : Bool) (m n : M A) → Emits P m → Emits P n → Emits P (if b then m else n)
  Emits-if true m n km kn = km
  Emits-if false m n km kn = kn

module _ {P : Event → Type 0} {A B : Type 0} where
  Emits-and_then :
      (o : Outcome A) (t : Trace) (f : A → M B)
      → ((a : A) → Emits P (f a))
      → Grown P t (and_then (o, t) f).1
  Emits-and_then (done a) t f k = (k a).at t
  Emits-and_then panic t f k = Grown-refl t
  Emits-and_then diverge t f k = Grown-refl t

  pub Emits-bind :
      (m : M A) (f : A → M B) → Emits P m → ((a : A) → Emits P (f a)) → Emits P (m >>= f)
  Emits-bind m f km kf = record {
    at = λ t. Grown-trans (km.at t) (Emits-and_then (m t).0 (m t).1 f kf);
  }

-- The rest of a computation may rely on what a part without calls returned.
pub Emits-lifted :
    {P : Event → Type 0} {A B : Type 0} (o : Outcome A) (f : A → M B)
    → ((a : A) → o ≡ done a → Emits P (f a))
    → Emits P (lift o >>= f)
Emits-lifted (done a) f k = record { at = λ t. (k a refl).at t }
Emits-lifted panic f k = record { at = λ t. Grown-refl t }
Emits-lifted diverge f k = record { at = λ t. Grown-refl t }

pub Emits-on_error :
    {P : Event → Type 0} {E A B : Type 0} (r : Result E A) (handler : E → M B) (rest : A → M B)
    → ((e : E) → Emits P (handler e))
    → ((a : A) → Emits P (rest a))
    → Emits P (on_error r handler rest)
Emits-on_error (ok a) handler rest kh kr = kr a
Emits-on_error (err e) handler rest kh kr = kh e

pub Emits-on_option :
    {P : Event → Type 0} {A B : Type 0} (o : Option A) (absent : M B) (rest : A → M B)
    → Emits P absent
    → ((a : A) → Emits P (rest a))
    → Emits P (on_option o absent rest)
Emits-on_option none absent rest ka kr = ka
Emits-on_option (some a) absent rest ka kr = kr a

pub Emits-on_some :
    {P : Event → Type 0} {A B : Type 0} (o : Option A) (absent : M B) (rest : A → M B) {a : A}
    → o ≡ some a
    → Emits P (rest a)
    → Emits P (on_option o absent rest)
Emits-on_some none absent rest h k = cc
Emits-on_some {P = P} (some b) absent rest h k =
    let same : b ≡ _ = cc in subst (λ x. Emits P (rest x)) (sym same) k

pub Emits-on_list :
    {P : Event → Type 0} {A B : Type 0} (l : List A) (absent : M B) (rest : A → List A → M B)
    → Emits P absent
    → ((a : A) (others : List A) → Emits P (rest a others))
    → Emits P (on_list l absent rest)
Emits-on_list [] absent rest ka kr = ka
Emits-on_list (a ∷ others) absent rest ka kr = kr a others

module _ {P : Event → Type 0} {A : Type 0} where
  Emits-last :
      (r : Result Error (Option A))
      → Emits P (
          pure (elim r [
            | err e ↦ err e
            | ok found ↦ elim found [ some a ↦ ok a | none ↦ err wait_timeout ]
          ]))
  Emits-last r = Emits-pure _

  Emits-round :
      (r : Result Error (Option A)) (rest : M (Result Error A))
      → Emits P rest
      → Emits P (elim r [
        | err e ↦ pure (err e)
        | ok found ↦ elim found [ some a ↦ pure (ok a) | none ↦ rest ]
      ])
  Emits-round (err e) rest k = Emits-pure (err e)
  Emits-round (ok none) rest k = k
  Emits-round (ok (some a)) rest k = Emits-pure (ok a)

  Emits-poll_rounds :
      (n : ℕ) (condition : M (Result Error (Option A)))
      → Emits P condition
      → Emits P (poll_rounds n condition)
  unfolding poll_rounds
  Emits-poll_rounds zero condition k = Emits-bind condition _ k (λ r. Emits-last r)
  Emits-poll_rounds (suc n) condition k =
      Emits-bind condition _ k
        (λ r. Emits-round r (poll_rounds n condition) (Emits-poll_rounds n condition k))

  pub Emits-poll :
      (env : Env) (condition : M (Result Error (Option A)))
      → Emits P condition
      → Emits P (poll env condition)
  unfolding poll
  Emits-poll env condition k = record {
    at = λ t. (Emits-poll_rounds (env.ticks t) condition k).at t;
  }

pub ruleset emits_rules = (
  Emits-pure, Emits-lift, Emits-call, Emits-if, Emits-bind, Emits-on_error, Emits-on_option,
  Emits-on_list, Emits-poll,
)
