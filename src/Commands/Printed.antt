-- ===== src/Commands/Printed.antt =====
-- The text that `redis-cli cluster nodes` prints, as the documentation of Redis gives it: a line for each
-- node, eight fields and the ranges of its slots, with a blank between them; "myself," stands in front of
-- the role of the instance that answers.
use Prim.Native.Char.{Char, code}
use Prim.Native.String.{◌++◌ as str_append}
use text.Mathlib.TextLemmas.{append-nil, nil-append, cons-append, append_assoc}
use middleware_operator_mana.Base.{
  ℕ, ◌≡◌, refl, ap, ◌∙◌, true, false, List, [], ◌∷◌, String, ◌==◌, All, ==_iff, Bool-cases, inl,
  inr,
}
use middleware_operator_mana.Text.{
  append_char, split_from, is_space, is_empty, emit, fields_from, fields, join,
}

-- No character is the separator.
abbrev pub Without : ℕ → String → Type 0
Without sep String.[] = Unit
Without sep (String.◌∷◌ c s) = ((code c == sep) ≡ false) × Without sep s

-- No character is a blank.
abbrev pub Dark : String → Type 0
Dark String.[] = Unit
Dark (String.◌∷◌ c s) = (is_space (code c) ≡ false) × Dark s

-- Neither empty nor with a blank.
abbrev pub Word : String → Type 0
Word s = (is_empty s ≡ false) × Dark s

pub append_char-cons :
    (field : String) (c : Char) (s : String)
    → str_append (append_char field c) s ≡ str_append field (String.◌∷◌ c s)
append_char-cons field c s =
    append_assoc field (String.◌∷◌ c String.[]) s
    ∙ ap (str_append field) (cons-append c String.[] s ∙ ap (λ t. String.◌∷◌ c t) (nil-append s))

pub split_from-append :
    (field s rest : String) (sep : ℕ) (c : Char)
    → (code c == sep) ≡ true
    → Without sep s
    → split_from field sep (str_append s (String.◌∷◌ c rest))
      ≡ str_append field s ∷ split_from "" sep rest
unfolding split_from
split_from-append field String.[] rest sep c e h =
    rw (append-nil field, nil-append (String.◌∷◌ c rest), split_from, e) refl
split_from-append field (String.◌∷◌ d s) rest sep c e (n, h) =
    rw
      (
        cons-append d s (String.◌∷◌ c rest),
        split_from,
        n,
        split_from-append (append_char field d) s rest sep c e h,
        append_char-cons field d s,
      )
      refl

pub split_from-end :
    (field s : String) (sep : ℕ) → Without sep s → split_from field sep s ≡ str_append field s ∷ []
unfolding split_from
split_from-end field String.[] sep h = rw (append-nil field) refl
split_from-end field (String.◌∷◌ d s) sep (n, h) =
    rw (split_from, n, split_from-end (append_char field d) s sep h, append_char-cons field d s)
      refl

fields_from-end : (field s : String) → Dark s → fields_from field s ≡ emit (str_append field s) []
unfolding fields_from
fields_from-end field String.[] h = rw (append-nil field) refl
fields_from-end field (String.◌∷◌ d s) (n, h) =
    rw (fields_from, n, fields_from-end (append_char field d) s h, append_char-cons field d s) refl

fields_from-append :
    (field s rest : String) (c : Char)
    → is_space (code c) ≡ true
    → Dark s
    → fields_from field (str_append s (String.◌∷◌ c rest))
      ≡ emit (str_append field s) (fields_from "" rest)
unfolding fields_from
fields_from-append field String.[] rest c e h =
    rw (append-nil field, nil-append (String.◌∷◌ c rest), fields_from, e) refl
fields_from-append field (String.◌∷◌ d s) rest c e (n, h) =
    rw
      (
        cons-append d s (String.◌∷◌ c rest),
        fields_from,
        n,
        fields_from-append (append_char field d) s rest c e h,
        append_char-cons field d s,
      )
      refl

abbrev blank : Char
blank = " "

abbrev pub line_end : Char
line_end = "\n"

pub one-append : (c : Char) (t : String) → str_append (String.◌∷◌ c String.[]) t ≡ String.◌∷◌ c t
one-append c t = cons-append c String.[] t ∙ ap (λ s. String.◌∷◌ c s) (nil-append t)

emit-Word : (s : String) (rest : List String) → Word s → emit s rest ≡ s ∷ rest
emit-Word s rest h = rw h.0 refl

pub fields-join : (words : List String) → All Word words → fields (join words) ≡ words
unfolding fields fields_from join is_space
fields-join [] h = refl
fields-join (w ∷ []) (h, _) = fields_from-end "" w h.1 ∙ rw (nil-append w) (emit-Word w [] h)
fields-join (w ∷ v ∷ words) (h, hs) =
    let later = fields-join (v ∷ words) hs in
    ap (λ t. fields (str_append w t)) (one-append blank (join (v ∷ words)))
    ∙ fields_from-append "" w (join (v ∷ words)) blank refl h.1
    ∙ rw (nil-append w) (emit-Word w (fields (join (v ∷ words))) h)
    ∙ ap (λ l. w ∷ l) later

Dark-Without : (s : String) → Dark s → Without 10 s
unfolding is_space
Dark-Without String.[] h = tt
Dark-Without (String.◌∷◌ c s) (n, h) = (
  elim (Bool-cases (code c == 10)) [
    | inl e ↦ let blank : is_space (code c) ≡ true = rw ((==_iff (code c) 10).0 e) refl in cc
    | inr e ↦ e
  ],
  Dark-Without s h,
)

pub Without-append :
    (s t : String) (sep : ℕ) → Without sep s → Without sep t → Without sep (str_append s t)
Without-append String.[] t sep hs ht = rw (nil-append t) ht
Without-append (String.◌∷◌ c s) t sep (n, hs) ht =
    rw (cons-append c s t) (n, Without-append s t sep hs ht)

pub Without-join : (words : List String) → All Word words → Without 10 (join words)
unfolding join
Without-join [] h = tt
Without-join (w ∷ []) (h, _) = Dark-Without w h.1
Without-join (w ∷ v ∷ words) (h, hs) =
    Without-append w (str_append " " (join (v ∷ words))) 10 (Dark-Without w h.1)
      (rw (one-append blank (join (v ∷ words))) (refl, Without-join (v ∷ words) hs))
