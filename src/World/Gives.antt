-- ===== src/World/Gives.antt =====
-- What the values that a computation returns have in common: one rule for each way to build it.
use middleware_operator_mana.Base.{◌≡◌, refl, Bool, true, false, Option, none, some, if◌then◌else◌}
use middleware_operator_mana.Errors.{Result, ok, err}
use middleware_operator_mana.Outcome.{Outcome, done, panic, diverge}
use middleware_operator_mana.World.{Trace, M, ◌>>=◌, and_then, pure, on_error}

-- The value, if there is one, satisfies `Q`.
abbrev pub Holds : {A : Type 0} → (A → Type 0) → Outcome A → Type 0
Holds Q (done a) = Q a
Holds Q panic = Unit
Holds Q diverge = Unit

pub record Gives {A : Type 0} (Q : A → Type 0) (m : M A) : Type 0 where
  pub at : (t : Trace) → Holds Q (m t).0

module _ {A : Type 0} {Q : A → Type 0} where
  pub Gives-pure : (a : A) → Q a → Gives Q (pure a)
  Gives-pure a h = record { at = λ t. h }

  pub Gives-if :
      (b : Bool) (m n : M A)
      → (b ≡ true → Gives Q m)
      → (b ≡ false → Gives Q n)
      → Gives Q (if b then m else n)
  Gives-if true m n km kn = km refl
  Gives-if false m n km kn = kn refl

module _ {A B : Type 0} {Q : B → Type 0} where
  Gives-and_then :
      (o : Outcome A) (t : Trace) (f : A → M B)
      → ((a : A) → Gives Q (f a))
      → Holds Q (and_then (o, t) f).0
  Gives-and_then (done a) t f k = (k a).at t
  Gives-and_then panic t f k = tt
  Gives-and_then diverge t f k = tt

  pub Gives-bind : (m : M A) (f : A → M B) → ((a : A) → Gives Q (f a)) → Gives Q (m >>= f)
  Gives-bind m f k = record { at = λ t. Gives-and_then (m t).0 (m t).1 f k }

  pub Gives-elim :
      (o : Option A) (m : M B) (f : A → M B)
      → Gives Q m
      → ((a : A) → Gives Q (f a))
      → Gives Q (elim o [ none ↦ m | some a ↦ f a ])
  Gives-elim none m f km kf = km
  Gives-elim (some a) m f km kf = kf a

pub Gives-on_error :
    {E A B : Type 0} {Q : B → Type 0} (r : Result E A) (handler : E → M B) (rest : A → M B)
    → ((e : E) → Gives Q (handler e))
    → ((a : A) → Gives Q (rest a))
    → Gives Q (on_error r handler rest)
Gives-on_error (ok a) handler rest kh kr = kr a
Gives-on_error (err e) handler rest kh kr = kh e

pub ruleset gives_rules = (Gives-pure, Gives-bind, Gives-on_error)
