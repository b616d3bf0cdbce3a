-- ===== src/Base/Sort.antt =====
-- `sort.SliceStable` and `sort.Strings`: a stable sort by a Boolean "less".
use mathlib.Core.Path.{◌≡◌, refl, ap, ◌∙◌}
use mathlib.Core.Bool.{Bool, true, false}
use mathlib.Core.List.{List, [], ◌∷◌, map, Perm}
use mathlib.Core.List.Perm
use mathlib.Core.Logic.{inl, inr}
use package.middleware_operator_mana.Base.Tests.{if◌then◌else◌, Bool-cases}

module _ {ℓ} {A : Type ℓ} (less : A → A → Bool) where
  -- An earlier element goes in front of those that are not less than it.
  pub insert : A → List A → List A
  insert x [] = x ∷ []
  insert x (y ∷ ys) = if less y x then y ∷ insert x ys else x ∷ y ∷ ys

  unfoldable pub sort_stable : List A → List A
  unfolding insert
  sort_stable [] = []
  sort_stable (x ∷ xs) = insert x (sort_stable xs)

  insert-perm : (x : A) (ys : List A) → Perm (insert x ys) (x ∷ ys)
  unfolding insert
  insert-perm x [] = Perm.rfl
  insert-perm x (y ∷ ys) = elim (Bool-cases (less y x)) [
    | inl e ↦ rw e (Perm.trans (Perm.cons y (insert-perm x ys)) (Perm.swap x y ys))
    | inr e ↦ rw e Perm.rfl
  ]

  pub sort_stable-perm : (xs : List A) → Perm (sort_stable xs) xs
  unfolding sort_stable
  sort_stable-perm [] = Perm.nil
  sort_stable-perm (x ∷ xs) =
      Perm.trans (insert-perm x (sort_stable xs)) (Perm.cons x (sort_stable-perm xs))

  -- No element is less than the one before it.
  abbrev pub InOrder : List A → Type 0
  InOrder [] = Unit
  InOrder (x ∷ xs) = elim xs [ [] ↦ Unit | y ∷ _ ↦ less y x ≡ false ] × InOrder xs

  module _ (asymmetric : (x y : A) → less x y ≡ true → less y x ≡ false) where
    insert-head :
        (x y : A) (ys : List A)
        → less y x ≡ true
        → InOrder (y ∷ ys)
        → InOrder (insert x ys)
        → InOrder (y ∷ insert x ys)
    unfolding insert
    insert-head x y [] e h k = (asymmetric y x e, k)
    insert-head x y (z ∷ zs) e h k = elim (Bool-cases (less z x)) [
      | inl f ↦ let moved = rw f at k in rw f (h.0, moved)
      | inr f ↦ let kept = rw f at k in rw f (asymmetric y x e, kept)
    ]

    insert-InOrder : (x : A) (ys : List A) → InOrder ys → InOrder (insert x ys)
    unfolding insert
    insert-InOrder x [] h = (tt, tt)
    insert-InOrder x (y ∷ ys) h = elim (Bool-cases (less y x)) [
      | inl e ↦ rw e (insert-head x y ys e h (insert-InOrder x ys h.1))
      | inr e ↦ rw e (e, h)
    ]

    pub sort_stable-InOrder : (xs : List A) → InOrder (sort_stable xs)
    unfolding sort_stable
    sort_stable-InOrder [] = tt
    sort_stable-InOrder (x ∷ xs) = insert-InOrder x (sort_stable xs) (sort_stable-InOrder xs)

-- A map that keeps the order may be made before the sort or behind it.
module _ {ℓ κ} {A : Type ℓ} {B : Type κ} (less : A → A → Bool) (below : B → B → Bool) (f : A → B)
    (same : (x y : A) → below (f x) (f y) ≡ less x y) where
  insert-map : (x : A) (ys : List A) → map f (insert less x ys) ≡ insert below (f x) (map f ys)
  unfolding insert
  insert-map x [] = refl
  insert-map x (y ∷ ys) = elim (Bool-cases (less y x)) [
    | inl e ↦ let e' = same y x ∙ e in rw (e, e') (ap (λ l. f y ∷ l) (insert-map x ys))
    | inr e ↦ let e' = same y x ∙ e in rw (e, e') refl
  ]

  pub sort_stable-map : (xs : List A) → map f (sort_stable less xs) ≡ sort_stable below (map f xs)
  unfolding sort_stable
  sort_stable-map [] = refl
  sort_stable-map (x ∷ xs) =
      insert-map x (sort_stable less xs) ∙ ap (insert below (f x)) (sort_stable-map xs)
