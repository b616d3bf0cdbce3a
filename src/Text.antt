-- ===== src/Text.antt =====
-- What the operator uses of Go's `strings`, `strconv` and `regexp`, on texts as strings of
-- characters. The two regular expressions of check_rediscluster.go are matchers of their own, with
-- the leftmost match and the greedy choices of `FindStringSubmatch`.
use Prim.Native.Char.{Char, code}
use Prim.Native.String.{◌++◌ as str_append}
use middleware_operator_mana.Base.{
  ℕ, zero, suc, ◌+◌, ◌-◌, ◌*◌, min, Bool, true, false, ◌&&◌, ◌||◌, List, [], ◌∷◌, Option, none,
  some, String, leb, ◌==◌, if◌then◌else◌,
}

abbrev pub append_char : String → Char → String
append_char s c = str_append s (String.◌∷◌ c String.[])

-- `strings.HasPrefix`, with what follows the prefix.
unfoldable pub strip_prefix : String → String → Option String
strip_prefix String.[] s = some s
strip_prefix (String.◌∷◌ c p) String.[] = none
strip_prefix (String.◌∷◌ c p) (String.◌∷◌ d s) = if code c == code d then strip_prefix p s else none

-- `strings.Contains`.
unfoldable pub contains : String → String → Bool
unfolding strip_prefix
contains String.[] sub = elim (strip_prefix sub "") [ some rest ↦ true | none ↦ false ]
contains (String.◌∷◌ c s) sub = elim (strip_prefix sub (String.◌∷◌ c s)) [
  | some rest ↦ true
  | none ↦ contains s sub
]

-- `strings.Split` by one character: `field` is the piece that is being read.
unfoldable pub split_from : String → ℕ → String → List String
split_from field sep String.[] = field ∷ []
split_from field sep (String.◌∷◌ c s) = elim (code c == sep) [
  | true ↦ field ∷ split_from "" sep s
  | false ↦ split_from (append_char field c) sep s
]

unfoldable pub split : ℕ → String → List String
unfolding split_from
split sep s = split_from "" sep s

-- `unicode.IsSpace`.
unfoldable pub is_space : ℕ → Bool
is_space c =
    (leb 9 c && leb c 13)
    || (c == 32
        || (c == 0x85
            || (c == 0xa0
                || (c == 0x1680
                    || ((leb 0x2000 c && leb c 0x200a)
                        || (c == 0x2028
                            || (c == 0x2029 || (c == 0x202f || (c == 0x205f || c == 0x3000)))))))))

abbrev pub is_empty : String → Bool
is_empty String.[] = true
is_empty (String.◌∷◌ c s) = false

abbrev pub emit : String → List String → List String
emit field rest = if is_empty field then rest else field ∷ rest

-- `strings.Fields`.
unfoldable pub fields_from : String → String → List String
unfolding is_space
fields_from field String.[] = emit field []
fields_from field (String.◌∷◌ c s) = elim (is_space (code c)) [
  | true ↦ emit field (fields_from "" s)
  | false ↦ fields_from (append_char field c) s
]

unfoldable pub fields : String → List String
unfolding fields_from
fields s = fields_from "" s

-- `strings.Join(…, " ")`.
unfoldable pub join : List String → String
join [] = ""
join (s ∷ []) = s
join (s ∷ t ∷ rest) = str_append s (str_append " " (join (t ∷ rest)))

unfoldable pub is_digit : ℕ → Bool
is_digit c = leb b'0' c && leb c b'9'

-- The longest run of characters of a class at the start, and what follows.
unfoldable pub span : (ℕ → Bool) → String → String → String × String
span test run String.[] = (run, String.[])
span test run (String.◌∷◌ c s) = elim (test (code c)) [
  | true ↦ span test (append_char run c) s
  | false ↦ (run, String.◌∷◌ c s)
]

-- `(\d+)`
unfoldable pub digits : String → Option (String × String)
unfolding span is_digit
digits s = let (run, rest) = span is_digit "" s in if is_empty run then none else some (run, rest)

-- The next step of a match, where the one before did match.
abbrev pub then_match {ℓ κ} : {A : Type ℓ} {B : Type κ} → Option A → (A → Option B) → Option B
then_match none f = none
then_match (some a) f = f a

-- `cluster_known_nodes:(\d+)`: the captured digits.
unfoldable pub known_nodes : String → Option String
unfolding strip_prefix digits
known_nodes String.[] = none
known_nodes (String.◌∷◌ c s) =
    elim (then_match (strip_prefix "cluster_known_nodes:" (String.◌∷◌ c s)) digits) [
      | some found ↦ some found.0
      | none ↦ known_nodes s
    ]

-- The value of a run of digits, as `strconv.Atoi` gives it when the error is ignored.
unfoldable pub digits_value : ℕ → String → ℕ
digits_value acc String.[] = acc
digits_value acc (String.◌∷◌ c s) = digits_value (acc * 10 + (code c - b'0')) s

unfoldable pub atoi : String → ℕ
unfolding digits_value
atoi s = min (digits_value 0 s) 9223372036854775807

pub record TribMatch : Type 0 where
  pub ip : String
  pub prefix : String
  pub keys : String
  pub slots : String
  pub slaves : String

-- ` keys \| (\d+) slots \| (\d+) slaves` behind `\) -> (\d+)`.
unfoldable pub match_counts : String → String → String → Option TribMatch
unfolding strip_prefix digits
match_counts ip prefix s = then_match (strip_prefix ") -> " s) λ s. then_match (digits s) λ keys.
    then_match (strip_prefix " keys | " keys.1) λ s. then_match (digits s) λ slots.
      then_match (strip_prefix " slots | " slots.1) λ s. then_match (digits s) λ slaves.
        then_match (strip_prefix " slaves" slaves.1) λ s.
          some
            (record { ip = ip; prefix = prefix; keys = keys.0; slots = slots.0; slaves = slaves.0 })

-- Three characters, none a line feed, and the rest of the expression.
unfoldable pub match_dots : ℕ → String → String → String → Option TribMatch
unfolding match_counts
match_dots zero ip prefix s = match_counts ip prefix s
match_dots (suc n) ip prefix String.[] = none
match_dots (suc n) ip prefix (String.◌∷◌ c s) =
    if code c == 10 then none else match_dots n ip prefix s

unfoldable pub is_word : ℕ → Bool
unfolding is_digit
is_word c = is_digit c || ((leb b'a' c && leb c b'z') || ((leb b'A' c && leb c b'Z') || c == b'_'))

-- `(\w+)...`: the longest word for which the rest matches.
unfoldable pub match_word : String → String → String → Option TribMatch
unfolding is_word match_dots
match_word ip word String.[] = none
match_word ip word (String.◌∷◌ c s) =
    let here = if is_empty word then none else match_dots 3 ip word (String.◌∷◌ c s) in
    elim (is_word (code c)) [
      | false ↦ here
      | true ↦ elim (match_word ip (append_char word c) s) [ some m ↦ some m | none ↦ here ]
    ]

-- `([\d.]+):6379 \(` and the rest of the expression, at the start of the text.
unfoldable pub match_here : String → Option TribMatch
unfolding span is_digit strip_prefix match_word
match_here s =
    let (ip, rest) = span (λ c. is_digit c || c == b'.') "" s in
    if is_empty ip then none else then_match (strip_prefix ":6379 (" rest) (match_word ip "")

-- The leftmost match of the expression of `redis-trib.rb info`.
unfoldable pub match_trib : String → Option TribMatch
unfolding match_here
match_trib String.[] = none
match_trib (String.◌∷◌ c s) = elim (match_here (String.◌∷◌ c s)) [
  | some m ↦ some m
  | none ↦ match_trib s
]
