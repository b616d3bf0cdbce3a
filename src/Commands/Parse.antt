-- ===== src/Commands/Parse.antt =====
-- The outputs of `redis-cli cluster nodes` and `redis-trib.rb info` as records: the parsing parts of
-- `execClusterNodes` and `execRedisTribInfo`.
use middleware_operator_mana.Base.{
  true, false, List, [], ◌∷◌, String, Option, none, some, get_elem?,
}
use middleware_operator_mana.Outcome.{Outcome, done, ◌>>=◌, deref}
use middleware_operator_mana.Text.{split, fields, join, contains, match_trib, atoi}
use middleware_operator_mana.Types.{RedisNodeInfo, RedisTribInfo}

-- "myself,master" and "myself,slave" lose their first part: `strings.Split(info[2], ",")[1]`.
unfoldable pub node_flags : String → Outcome String
unfolding contains split
node_flags text = elim (contains text "myself") [
  | true ↦ deref (get_elem? (split b',' text) 1)
  | false ↦ done text
]

-- A line of fewer than eight fields is skipped.
unfoldable pub parse_fields : List String → Outcome (Option RedisNodeInfo)
unfolding node_flags join
parse_fields
      (node_id ∷ ip_port ∷ flags ∷ master ∷ ping_sent ∷ pong_recv ∷ config_epoch ∷ link_state
        ∷ slots) =
    do
      role ← node_flags flags
      done (
          some (record {
            node_id = node_id;
            ip_port = ip_port;
            flags = role;
            master = master;
            ping_sent = ping_sent;
            pong_recv = pong_recv;
            config_epoch = config_epoch;
            link_state = link_state;
            slot = join slots;
          }))
parse_fields _ = done none

unfoldable pub parse_lines : List String → Outcome (List RedisNodeInfo)
unfolding parse_fields fields
parse_lines [] = done []
parse_lines (line ∷ lines) = do
  info ← parse_fields (fields line)
  infos ← parse_lines lines
  done (elim info [ some i ↦ i ∷ infos | none ↦ infos ])

unfoldable pub parse_nodes : String → Outcome (List RedisNodeInfo)
unfolding parse_lines
parse_nodes stdout = parse_lines (split 10 stdout)

unfoldable pub parse_trib_lines : List String → List RedisTribInfo
unfolding match_trib atoi
parse_trib_lines [] = []
parse_trib_lines (line ∷ lines) = elim (match_trib line) [
  | none ↦ parse_trib_lines lines
  | some m ↦
      record {
        ip = m.ip;
        port = "6379";
        node_id_prefix = m.prefix;
        keys = atoi m.keys;
        slots = atoi m.slots;
        slaves = atoi m.slaves;
      }
      ∷ parse_trib_lines lines
]

unfoldable pub parse_trib : String → List RedisTribInfo
unfolding parse_trib_lines
parse_trib stdout = parse_trib_lines (split 10 stdout)
