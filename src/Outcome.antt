-- ===== src/Outcome.antt =====
-- How a run of Go code ends: with a value, with a panic, or never.
use middleware_operator_mana.Base.{Option, none, some, ◌≡◌, refl}

pub data Outcome {ℓ} (A : Type ℓ) : Type ℓ where
  done : A → Outcome A
  panic : Outcome A
  -- The loops of the model that may not end run on fuel; this is what is left when it is used up.
  diverge : Outcome A

infixl 5 ◌>>=◌ ◌>>◌
abbrev pub ◌>>=◌ {ℓ κ} : {A : Type ℓ} {B : Type κ} → Outcome A → (A → Outcome B) → Outcome B
done a >>= f = f a
panic >>= f = panic
diverge >>= f = diverge

abbrev pub ◌>>◌ {ℓ} : {B : Type ℓ} → Outcome (Unit {0}) → Outcome B → Outcome B
m >> k = m >>= λ _. k

-- The dereference of a pointer, and the index into a slice: a panic where there is nothing.
abbrev pub deref {ℓ} : {A : Type ℓ} → Option A → Outcome A
deref (some a) = done a
deref none = panic

pub >>=-eq-done {ℓ κ} :
    {A : Type ℓ} {B : Type κ} (m : Outcome A) (f : A → Outcome B) {b : B}
    → (m >>= f) ≡ done b
    → (a : A) × (m ≡ done a) × (f a ≡ done b)
>>=-eq-done (done a) f h = (a, refl, h)
>>=-eq-done panic f h = cc
>>=-eq-done diverge f h = cc
