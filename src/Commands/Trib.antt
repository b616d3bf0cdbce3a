-- ===== src/Commands/Trib.antt =====
-- The text that `redis-trib.rb info` prints, as redis-trib.rb gives it: a line for each master, with its
-- address, the first characters of its id, and its numbers of keys, slots and slaves.
use Prim.Native.Char.{code}
use Prim.Native.String.{◌++◌ as str_append}
use text.Mathlib.TextLemmas.{nil-append, cons-append}
use middleware_operator_mana.Base.{
  ℕ, ◌≡◌, refl, ap, ◌∙◌, Bool, false, List, [], ◌∷◌, ◌++◌, map, String, some, ◌==◌, All, ==_iff,
  Bool-cases, inl, inr,
}
use middleware_operator_mana.Commands.Parse.{parse_trib_lines, parse_trib}
use middleware_operator_mana.Commands.Printed.{Without, Without-append, line_end, split_from-append}
use middleware_operator_mana.Text.{
  split_from, split, is_digit, span, TribMatch, is_word, match_here, match_trib,
}
use middleware_operator_mana.Commands.Matching.{
  Chars, is_address, print_slaves, print_slots, print_counts, print_line, print_trib, Shown,
  trib_info, match_here-print,
}

match_trib-here : (s : String) (m : TribMatch) → match_here s ≡ some m → match_trib s ≡ some m
unfolding match_trib match_here span
match_trib-here String.[] m e = cc
match_trib-here (String.◌∷◌ c s) m e = rw (match_trib, e) refl

Chars-Without :
    (test : ℕ → Bool) (s t : String)
    → test 10 ≡ false
    → Chars test s
    → Without 10 t
    → Without 10 (str_append s t)
Chars-Without test String.[] t other h rest = rw (nil-append t) rest
Chars-Without test (String.◌∷◌ c s) t other (e, h) rest = rw (cons-append c s t) (
  elim (Bool-cases (code c == 10)) [
    | inl same ↦ let at = (==_iff (code c) 10).0 same in cc
    | inr apart ↦ apart
  ],
  Chars-Without test s t other h rest,
)

behind : (s t : String) → Without 10 t → Without 10 s → Without 10 (str_append s t)
behind s t h fixed = Without-append s t 10 fixed h

Without-line : (m : TribMatch) → Shown m → Without 10 (print_line m)
unfolding is_digit is_word
Without-line m (ip, prefix, keys, slots, slaves) =
    let of_slaves : Without 10 (print_slaves m) =
      Chars-Without is_digit m.slaves " slaves." refl slaves.1 search in
    let of_slots : Without 10 (print_slots m) =
      Chars-Without is_digit m.slots (str_append " slots | " (print_slaves m)) refl slots.1
        (behind " slots | " (print_slaves m) of_slaves search) in
    let behind_keys = str_append " keys | " (print_slots m) in
    let of_counts : Without 10 (print_counts m) =
      behind ") -> " (str_append m.keys behind_keys)
        (Chars-Without is_digit m.keys behind_keys refl keys.1
          (behind " keys | " (print_slots m) of_slots search))
        search in
    let dots = String.◌∷◌ "." (String.◌∷◌ "." (String.◌∷◌ "." (print_counts m))) in
    let id = str_append m.prefix dots in
    Chars-Without is_address m.ip (str_append ":6379 (" id) refl ip.1 (
      behind ":6379 (" id
        (Chars-Without is_word m.prefix dots refl prefix.1 (refl, (refl, (refl, of_counts))))
        search)

split-print :
    (ms : List TribMatch) → All Shown ms → split 10 (print_trib ms) ≡ map print_line ms ++ "" ∷ []
unfolding split split_from
split-print [] h = refl
split-print (m ∷ ms) (shown, h) =
    split_from-append "" (print_line m) (print_trib ms) 10 line_end refl (Without-line m shown)
    ∙ rw (nil-append (print_line m)) (ap (λ l. print_line m ∷ l) (split-print ms h))

parse_trib_lines-print :
    (ms : List TribMatch)
    → All Shown ms
    → parse_trib_lines (map print_line ms ++ "" ∷ []) ≡ map trib_info ms
unfolding parse_trib_lines match_trib
parse_trib_lines-print [] h = refl
parse_trib_lines-print (m ∷ ms) (shown, h) =
    rw
      (
        parse_trib_lines,
        match_trib-here (print_line m) m (match_here-print m shown),
        parse_trib_lines-print ms h,
      )
      refl

-- Where the address is of digits and dots, the start of the id of word characters and the numbers of
-- digits, none of them empty, the lines that `redis-trib.rb info` prints of the masters are read back
-- as they are: the address, the start of the id, and the numbers, each the value of its digits and at most 2^63 - 1.
pub parse_trib-print :
    (ms : List TribMatch) → All Shown ms → parse_trib (print_trib ms) ≡ map trib_info ms
unfolding parse_trib
parse_trib-print ms h = rw (split-print ms h) (parse_trib_lines-print ms h)
