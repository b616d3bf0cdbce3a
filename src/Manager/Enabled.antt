-- ===== src/Manager/Enabled.antt =====
-- `IsOperatorEnabled` of operatormanager.go.
use Prim.Native.String.{◌++◌ as str_append}
use mathlib.Core.List.{mem-cons, mem-cons_of_mem, not-mem-nil}
use mathlib.Core.Logic.Or
use middleware_operator_mana.Base.{
  ◌≡◌, ◌≢◌, ◌↔◌, ◌⊎◌, refl, sym, ap, inl, inr, Bool, true, false, List, [], ◌∷◌, ◌++◌, String,
  str_eq, eq_iff, if◌then◌else◌, Bool-cases, All, Mem, arith,
}

-- The loop, with `hasStar`.
unfoldable pub enabled_from : Bool → String → List String → Bool
enabled_from has_star name [] = has_star
enabled_from has_star name (ctrl ∷ controllers) =
    let starred = enabled_from true name controllers in
    let rest = enabled_from has_star name controllers in
    if str_eq ctrl name
    then true
    else if str_eq ctrl (str_append "-" name)
    then false
    else if str_eq ctrl "*"
    then starred
    else rest

-- `IsOperatorEnabled`
unfoldable pub is_operator_enabled : String → List String → Bool
unfolding enabled_from
is_operator_enabled name controllers = enabled_from false name controllers

-- No item names the operator, to enable or to disable it.
abbrev pub Unnamed : String → List String → Type 0
Unnamed name controllers = All (λ c. (c ≢ name) × (c ≢ str_append "-" name)) controllers

-- An item enables the operator, and none before it names the operator.
abbrev pub NamedFirst : String → List String → Type 0
NamedFirst name controllers =
    (before : List String) × (after : List String) × (controllers ≡ before ++ name ∷ after)
    × Unnamed name before

str_neq : (s t : String) → s ≢ t → str_eq s t ≡ false
str_neq s t h = elim (Bool-cases (str_eq s t)) [ inl e ↦ absurd (h ((eq_iff s t).0 e)) | inr e ↦ e ]

str_eq-ne : (s t : String) → str_eq s t ≡ false → s ≢ t
str_eq-ne s t h = λ e. cc (h, (eq_iff s t).1 e)

NamedFirst-later :
    (name ctrl : String) (controllers : List String)
    → (ctrl ≢ name) × (ctrl ≢ str_append "-" name)
    → NamedFirst name controllers
    → NamedFirst name (ctrl ∷ controllers)
NamedFirst-later name ctrl controllers h (before, after, e, u) =
    (ctrl ∷ before, after, ap (λ l. ctrl ∷ l) e, (h, u))

enabled_from-cases :
    (star : Bool) (name : String) (controllers : List String)
    → enabled_from star name controllers ≡ true
    → NamedFirst name controllers
      ⊎ (Unnamed name controllers × ((star ≡ true) ⊎ Mem "*" controllers))
unfolding enabled_from
enabled_from-cases star name [] h = inr (tt, inl h)
enabled_from-cases star name (ctrl ∷ controllers) h = elim (Bool-cases (str_eq ctrl name)) [
  | inl e ↦ inl ([], controllers, ap (λ c. c ∷ controllers) ((eq_iff ctrl name).0 e), tt)
  | inr e ↦ elim (Bool-cases (str_eq ctrl (str_append "-" name))) [
    | inl f ↦ absurd (ground (arith, e, f, h))
    | inr f ↦
        let other : (ctrl ≢ name) × (ctrl ≢ str_append "-" name) =
          (str_eq-ne ctrl name e, str_eq-ne ctrl (str_append "-" name) f) in
        elim (Bool-cases (str_eq ctrl "*")) [
          | inl g ↦
              let on : enabled_from true name controllers ≡ true = ground (arith, e, f, g, h) in
              elim (enabled_from-cases true name controllers on) [
                | inl c ↦ inl (NamedFirst-later name ctrl controllers other c)
                | inr (u, s) ↦
                    inr ((other, u), inr (mem-cons.1 (Or.inl (sym ((eq_iff ctrl "*").0 g)))))
              ]
          | inr g ↦
              let on : enabled_from star name controllers ≡ true = ground (arith, e, f, g, h) in
              elim (enabled_from-cases star name controllers on) [
                | inl c ↦ inl (NamedFirst-later name ctrl controllers other c)
                | inr (u, inl s) ↦ inr ((other, u), inl s)
                | inr (u, inr m) ↦ inr ((other, u), inr (mem-cons_of_mem ctrl m))
              ]
        ]
  ]
]

NamedFirst-enabled :
    (star : Bool) (name : String) (before after : List String)
    → Unnamed name before
    → enabled_from star name (before ++ name ∷ after) ≡ true
unfolding enabled_from
NamedFirst-enabled star name [] after h = rw ((eq_iff name name).1 refl) refl
NamedFirst-enabled star name (ctrl ∷ before) after ((n, m), h) =
    let starred = NamedFirst-enabled true name before after h in
    let rest = NamedFirst-enabled star name before after h in
    rw (str_neq ctrl name n, str_neq ctrl (str_append "-" name) m, starred, rest)
      (elim (Bool-cases (str_eq ctrl "*")) [ inl g ↦ rw g refl | inr g ↦ rw g refl ])

Unnamed-starred :
    (name : String) (controllers : List String)
    → Unnamed name controllers
    → enabled_from true name controllers ≡ true
unfolding enabled_from
Unnamed-starred name [] h = refl
Unnamed-starred name (ctrl ∷ controllers) ((n, m), h) =
    rw
      (
        str_neq ctrl name n,
        str_neq ctrl (str_append "-" name) m,
        Unnamed-starred name controllers h,
      )
      (elim (Bool-cases (str_eq ctrl "*")) [ inl g ↦ rw g refl | inr g ↦ rw g refl ])

bool_prop : (b : Bool) → IsProp (b ≡ true)
bool_prop b = hlevel

Unnamed-mem :
    (star : Bool) (name : String) (controllers : List String)
    → Unnamed name controllers
    → Mem "*" controllers
    → enabled_from star name controllers ≡ true
unfolding enabled_from
Unnamed-mem star name [] h m = absurd (not-mem-nil m)
Unnamed-mem star name (ctrl ∷ controllers) ((n, d), h) m =
    rw
      (
        str_neq ctrl name n,
        str_neq ctrl (str_append "-" name) d,
        Unnamed-starred name controllers h,
      )
      (elim (Bool-cases (str_eq ctrl "*")) [
        | inl g ↦ rw g refl
        | inr g ↦ rw g (
            Or.elim (bool_prop (enabled_from star name controllers)) (mem-cons.0 m)
              (λ e. absurd (str_eq-ne ctrl "*" g (sym e)))
              (λ later. Unnamed-mem star name controllers h later))
      ])

-- An operator is enabled exactly if the first item that names it, to enable or to disable it, enables
-- it, or no item names it and there is an item "*".
pub is_operator_enabled_iff :
    (name : String) (controllers : List String)
    → (is_operator_enabled name controllers ≡ true)
      ↔ (NamedFirst name controllers ⊎ (Unnamed name controllers × Mem "*" controllers))
unfolding is_operator_enabled
is_operator_enabled_iff name controllers = (
  (λ h. elim (enabled_from-cases false name controllers h) [
    | inl c ↦ inl c
    | inr (u, inl never) ↦ absurd (cc never)
    | inr (u, inr m) ↦ inr (u, m)
  ]),
  (λ h. elim h [
    | inl (before, after, e, u) ↦ rw e (NamedFirst-enabled false name before after u)
    | inr (u, m) ↦ Unnamed-mem false name controllers u m
  ]),
)
