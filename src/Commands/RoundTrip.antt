-- ===== src/Commands/RoundTrip.antt =====
-- What the operator reads out of the text that `redis-cli cluster nodes` prints.
use Prim.Native.String.{◌++◌ as str_append}
use text.Mathlib.TextLemmas.{nil-append}
use middleware_operator_mana.Base.{
  ◌≡◌, refl, ap, ◌∙◌, Bool, true, false, List, [], ◌∷◌, ◌++◌, map, String, some, if◌then◌else◌, All,
}
use middleware_operator_mana.Commands.Parse.{node_flags, parse_fields, parse_lines, parse_nodes}
use middleware_operator_mana.Commands.Printed.{
  Word, Without, line_end, split_from-append, split_from-end, fields-join, Without-join,
}
use middleware_operator_mana.Outcome.{done}
use middleware_operator_mana.Text.{
  strip_prefix, contains, split_from, split, fields_from, fields, join,
}
use middleware_operator_mana.Types.{RedisNodeInfo}

-- "myself," in front of a text.
abbrev pub marked : String → String
marked flags = String.◌∷◌ "m" (
    String.◌∷◌ "y"
      (String.◌∷◌ "s" (String.◌∷◌ "e" (String.◌∷◌ "l" (String.◌∷◌ "f" (String.◌∷◌ "," flags))))))

-- The fields of a line; `self` tells whether the node is the one that answers.
abbrev pub words : Bool → RedisNodeInfo → List String
words self info =
    info.node_id
    ∷ info.ip_port
    ∷ (if self then marked info.flags else info.flags)
    ∷ info.master
    ∷ info.ping_sent
    ∷ info.pong_recv
    ∷ info.config_epoch
    ∷ info.link_state
    ∷ fields info.slot

abbrev pub print_nodes : List (Bool × RedisNodeInfo) → String
print_nodes [] = ""
print_nodes ((self, info) ∷ nodes) =
    str_append (join (words self info)) (String.◌∷◌ line_end (print_nodes nodes))

-- The fields are not empty and hold no blank, the role is one flag without the word "myself", and the
-- slots are separated by single blanks.
abbrev pub Printable : Bool × RedisNodeInfo → Type 0
Printable (self, info) =
    All Word (words self info)
    × (contains info.flags "myself" ≡ false)
    × Without b',' info.flags
    × (join (fields info.slot) ≡ info.slot)

myself : (flags : String) → Without b',' flags → node_flags (marked flags) ≡ done flags
unfolding node_flags contains strip_prefix split split_from
myself flags h = rw (split_from-end "" flags b',' h, nil-append flags) refl

parse_words :
    (self : Bool) (info : RedisNodeInfo)
    → Printable (self, info)
    → parse_fields (words self info) ≡ done (some info)
unfolding parse_fields node_flags
parse_words true info (ws, other, one, single) =
    rw (myself info.flags one) (ap (λ s. done (some (record info { slot = s }))) single)
parse_words false info (ws, other, one, single) =
    rw (node_flags, other) (ap (λ s. done (some (record info { slot = s }))) single)

split-print :
    (nodes : List (Bool × RedisNodeInfo))
    → All Printable nodes
    → split 10 (print_nodes nodes) ≡ map (λ n. join (words n.0 n.1)) nodes ++ "" ∷ []
unfolding split split_from
split-print [] h = refl
split-print ((self, info) ∷ nodes) ((ws, _, _, _), h) =
    split_from-append "" (join (words self info)) (print_nodes nodes) 10 line_end refl
      (Without-join (words self info) ws)
    ∙ rw (nil-append (join (words self info)))
        (ap (λ l. join (words self info) ∷ l) (split-print nodes h))

parse_lines-print :
    (nodes : List (Bool × RedisNodeInfo))
    → All Printable nodes
    → parse_lines (map (λ n. join (words n.0 n.1)) nodes ++ "" ∷ []) ≡ done (map (λ n. n.1) nodes)
unfolding parse_lines fields fields_from parse_fields
parse_lines-print [] h = refl
parse_lines-print ((self, info) ∷ nodes) (p, h) =
    rw (fields-join (words self info) p.0, parse_words self info p, parse_lines-print nodes h) refl

-- The nodes that `redis-cli cluster nodes` prints, one of them or none marked as the instance that
-- answers, are read back as they are: id, address, role, master, times, epoch, state and slots.
pub parse_nodes-print :
    (nodes : List (Bool × RedisNodeInfo))
    → All Printable nodes
    → parse_nodes (print_nodes nodes) ≡ done (map (λ n. n.1) nodes)
unfolding parse_nodes
parse_nodes-print nodes h = rw (split-print nodes h) (parse_lines-print nodes h)
