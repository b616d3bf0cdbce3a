-- ===== src/Util/Slice.antt =====
-- util/slice.go: `InSlice`, the one function of that file that the operator calls.
use mathlib.Core.Logic.Or
use mathlib.Core.Bool.{Bool-set}
use mathlib.Core.List.{mem-cons, mem-cons_of_mem, not-mem-nil}
use middleware_operator_mana.Base.{
  ◌≡◌, refl, ◌↔◌, inl, inr, Bool, true, false, List, [], ◌∷◌, String, str_eq, eq_iff, if◌then◌else◌,
  Bool-cases, sym, Mem,
}

-- Go's `==` on the values of one type.
pub record Eq {ℓ} (A : Type ℓ) : Type ℓ where
  pub beq : A → A → Bool
  pub beq_iff : (a b : A) → (beq a b ≡ true) ↔ (a ≡ b)

instance abbrev pub string_eq : Eq String
string_eq = record { beq = str_eq; beq_iff = eq_iff }

module _ {ℓ} {A : Type ℓ} ⦃e : Eq A⦄ where
  -- `InSlice`
  unfoldable pub in_slice : A → List A → Bool
  in_slice v [] = false
  in_slice v (vv ∷ sl) = if e.beq vv v then true else in_slice v sl

  pub in_slice-Mem : (v : A) (sl : List A) → (in_slice v sl ≡ true) ↔ Mem v sl
  unfolding in_slice
  in_slice-Mem v [] = (λ h. cc, λ m. absurd (not-mem-nil m))
  in_slice-Mem v (vv ∷ sl) = elim (Bool-cases (e.beq vv v)) [
    | inl h ↦ rw h ((λ _. mem-cons.1 (Or.inl (sym ((e.beq_iff vv v).0 h)))), (λ _. refl))
    | inr h ↦ rw h (
      (λ t. mem-cons_of_mem vv ((in_slice-Mem v sl).0 t)),
      (λ m.
          Or.elim (Bool-set _ _) (mem-cons.0 m) (λ q. cc (h, (e.beq_iff vv v).1 (sym q)))
            (λ t. (in_slice-Mem v sl).1 t)),
    )
  ]

  pub not-in_slice : (v : A) (sl : List A) → in_slice v sl ≡ false → ¬ Mem v sl
  not-in_slice v sl h m = cc (h, (in_slice-Mem v sl).1 m)
