-- ===== src/Commands/Matching.antt =====
-- One line of the text that `redis-trib.rb info` prints, as redis-trib.rb gives it for each master: its
-- address, the first characters of its id, and its numbers of keys, slots and slaves.
use Prim.Native.Char.{code}
use Prim.Native.String.{◌++◌ as str_append}
use text.Mathlib.TextLemmas.{append-nil, nil-append, cons-append}
use middleware_operator_mana.Base.{
  ℕ, ◌≡◌, refl, sym, ap, subst, Bool, true, false, ◌||◌, ◌&&◌, List, [], ◌∷◌, String, some, ◌==◌,
  ==_iff, Bool-cases, inl, inr,
}
use middleware_operator_mana.Commands.Printed.{append_char-cons, line_end}
use middleware_operator_mana.Text.{
  append_char, strip_prefix, is_empty, is_digit, span, digits, atoi, TribMatch, match_counts,
  match_dots, is_word, match_word, match_here,
}
use middleware_operator_mana.Types.{RedisTribInfo}

-- Every character is of the class.
abbrev pub Chars : (ℕ → Bool) → String → Type 0
Chars test String.[] = Unit
Chars test (String.◌∷◌ c s) = (test (code c) ≡ true) × Chars test s

-- Not empty, and every character is of the class.
abbrev Run : (ℕ → Bool) → String → Type 0
Run test s = (is_empty s ≡ false) × Chars test s

abbrev of_class : (ℕ → Bool) → String → Bool
of_class test String.[] = true
of_class test (String.◌∷◌ c s) = test (code c) && of_class test s

of_class-Chars : (test : ℕ → Bool) (s : String) → of_class test s ≡ true → Chars test s
of_class-Chars test String.[] h = tt
of_class-Chars test (String.◌∷◌ c s) h = elim (Bool-cases (test (code c))) [
  | inl e ↦ (e, of_class-Chars test s (rw e at h))
  | inr e ↦ let ends = rw e at h in cc
]

pub of_class-Run :
    (test : ℕ → Bool) (s : String) → is_empty s ≡ false → of_class test s ≡ true → Run test s
of_class-Run test s full h = (full, of_class-Chars test s h)

-- The first character, if there is one, is not of the class.
abbrev Stops : (ℕ → Bool) → String → Type 0
Stops test String.[] = Unit
Stops test (String.◌∷◌ c s) = test (code c) ≡ false

-- The class `[\d.]`.
abbrev pub is_address : ℕ → Bool
is_address c = is_digit c || c == b'.'

abbrev pub print_slaves : TribMatch → String
print_slaves m = str_append m.slaves " slaves."

abbrev pub print_slots : TribMatch → String
print_slots m = str_append m.slots (str_append " slots | " (print_slaves m))

abbrev pub print_counts : TribMatch → String
print_counts m = str_append ") -> " (str_append m.keys (str_append " keys | " (print_slots m)))

abbrev pub print_line : TribMatch → String
print_line m = str_append m.ip (
    str_append ":6379 ("
      (str_append m.prefix (String.◌∷◌ "." (String.◌∷◌ "." (String.◌∷◌ "." (print_counts m))))))

abbrev pub print_trib : List TribMatch → String
print_trib [] = ""
print_trib (m ∷ ms) = str_append (print_line m) (String.◌∷◌ line_end (print_trib ms))

-- The address is of digits and dots, the start of the id of word characters, the numbers of digits.
abbrev pub Shown : TribMatch → Type 0
Shown m =
    Run is_address m.ip
    × Run is_word m.prefix
    × Run is_digit m.keys
    × Run is_digit m.slots
    × Run is_digit m.slaves

abbrev pub trib_info : TribMatch → RedisTribInfo
trib_info m = record {
  ip = m.ip;
  port = "6379";
  node_id_prefix = m.prefix;
  keys = atoi m.keys;
  slots = atoi m.slots;
  slaves = atoi m.slaves;
}

pub strip_prefix-append : (p t : String) → strip_prefix p (str_append p t) ≡ some t
unfolding strip_prefix
strip_prefix-append String.[] t = ap some (nil-append t)
strip_prefix-append (String.◌∷◌ c p) t =
    rw (cons-append c p t, strip_prefix, (==_iff (code c) (code c)).1 refl)
      (strip_prefix-append p t)

span-append :
    (test : ℕ → Bool) (run s rest : String)
    → Chars test s
    → Stops test rest
    → span test run (str_append s rest) ≡ (str_append run s, rest)
unfolding span
span-append test run String.[] String.[] h stop = rw (nil-append String.[], append-nil run) refl
span-append test run String.[] (String.◌∷◌ c rest) h stop =
    rw (nil-append (String.◌∷◌ c rest), append-nil run, span, stop) refl
span-append test run (String.◌∷◌ c s) rest (e, h) stop =
    rw
      (
        cons-append c s rest,
        span,
        e,
        span-append test (append_char run c) s rest h stop,
        append_char-cons run c s,
      )
      refl

digits-append :
    (s rest : String)
    → Run is_digit s
    → Stops is_digit rest
    → digits (str_append s rest) ≡ some (s, rest)
unfolding digits
digits-append s rest h stop = rw (span-append is_digit "" s rest h.1 stop, nil-append s, h.0) refl

match_counts-print :
    (m : TribMatch) → Shown m → match_counts m.ip m.prefix (print_counts m) ≡ some m
unfolding match_counts is_digit
match_counts-print m (_, _, keys, slots, slaves) =
    let behind_keys = str_append " keys | " (print_slots m) in
    let behind_slots = str_append " slots | " (print_slaves m) in
    rw
      (
        strip_prefix-append ") -> " (str_append m.keys behind_keys),
        digits-append m.keys behind_keys keys (rw (cons-append " " "keys | " (print_slots m)) refl),
        strip_prefix-append " keys | " (print_slots m),
        digits-append m.slots behind_slots slots
            (rw (cons-append " " "slots | " (print_slaves m)) refl),
        strip_prefix-append " slots | " (print_slaves m),
        digits-append m.slaves " slaves." slaves refl,
      )
      refl

match_word-print :
    (ip word s : String) (m : TribMatch) (rest : String)
    → Chars is_word s
    → is_empty (str_append word s) ≡ false
    → match_dots 3 ip (str_append word s) (String.◌∷◌ "." rest) ≡ some m
    → match_word ip word (str_append s (String.◌∷◌ "." rest)) ≡ some m
unfolding match_word is_word is_digit
match_word-print ip word String.[] m rest h full e =
    let full' = subst (λ w. is_empty w ≡ false) (append-nil word) full in
    let e' = subst (λ w. match_dots 3 ip w (String.◌∷◌ "." rest) ≡ some m) (append-nil word) e in
    rw (nil-append (String.◌∷◌ "." rest), match_word, full') e'
match_word-print ip word (String.◌∷◌ c s) m rest (n, h) full e =
    rw
      (
        cons-append c s (String.◌∷◌ "." rest),
        match_word,
        n,
        match_word-print ip (append_char word c) s m rest h (rw (append_char-cons word c s) full) (
            subst (λ w. match_dots 3 ip w (String.◌∷◌ "." rest) ≡ some m)
              (sym (append_char-cons word c s)) e),
      )
      refl

pub match_here-print : (m : TribMatch) → Shown m → match_here (print_line m) ≡ some m
unfolding match_here match_dots is_digit
match_here-print m h =
    let dots = String.◌∷◌ "." (String.◌∷◌ "." (print_counts m)) in
    let id = str_append m.prefix (String.◌∷◌ "." dots) in
    rw
      (
        span-append is_address "" m.ip (str_append ":6379 (" id) h.0.1
            (rw (cons-append ":" "6379 (" id) refl),
        nil-append m.ip,
        h.0.0,
        strip_prefix-append ":6379 (" id,
      )
      (match_word-print m.ip "" m.prefix m dots h.1.1 (rw (nil-append m.prefix) h.1.0)
        (rw (nil-append m.prefix) (match_counts-print m h)))
