-- ===== src/Samples/Reading.antt =====
-- The text of a cluster of two instances, endpoints out of order, and a key whose sync fails.
use middleware_operator_mana.Base.{
  ◌⊎◌, ◌<◌, str_lt, ℕ, ◌%◌, ◌≡◌, refl, true, false, List, [], ◌∷◌, map, String, some, Perm, InOrder,
}
use middleware_operator_mana.Commands.Parse.{parse_nodes, parse_trib}
use middleware_operator_mana.Commands.RoundTrip.{print_nodes, parse_nodes-print}
use middleware_operator_mana.Commands.Trib.{parse_trib-print}
use middleware_operator_mana.Commands.Matching.{trib_info, print_trib, is_address, of_class-Run}
use middleware_operator_mana.Errors.{ok, api, other_api}
use middleware_operator_mana.Lifecycle.Endpoints.{sort_endpoints}
use middleware_operator_mana.Lifecycle.Sorted.{sort_endpoints-InOrder}
use middleware_operator_mana.Outcome.{done}
use middleware_operator_mana.Samples.{pod, printing, counting}
use middleware_operator_mana.Sync.Attempts.{attempts, attempts-requeues}
use middleware_operator_mana.Sync.Core.{sync}
use middleware_operator_mana.Sync.Queue.{seen_error}
use middleware_operator_mana.Text.{
  contains, strip_prefix, is_space, fields, fields_from, join, TribMatch, is_digit, is_word,
}
use middleware_operator_mana.Types.{EndpointAddress, Endpoints, no_endpoints, RedisNodeInfo}

abbrev master_line : RedisNodeInfo
master_line = record {
  node_id = "1d91acc0";
  ip_port = "10.0.0.1:6379";
  flags = "master";
  master = "-";
  ping_sent = "0";
  pong_recv = "1526541581";
  config_epoch = "1";
  link_state = "connected";
  slot = "0-100 200-5460";
}

abbrev slave_line : RedisNodeInfo
slave_line = record {
  node_id = "8cf30bcb";
  ip_port = "10.0.0.2:6379";
  flags = "slave";
  master = "1d91acc0";
  ping_sent = "0";
  pong_recv = "1526541582";
  config_epoch = "1";
  link_state = "connected";
  slot = "";
}

parse_nodes-print_example :
    parse_nodes (print_nodes ((true, master_line) ∷ (false, slave_line) ∷ []))
    ≡ done (master_line ∷ slave_line ∷ [])
unfolding contains strip_prefix is_space fields fields_from join
parse_nodes-print_example =
    parse_nodes-print ((true, master_line) ∷ (false, slave_line) ∷ []) search

abbrev two_shown : List TribMatch
two_shown =
    record { ip = "10.0.0.1"; prefix = "1d91acc0"; keys = "12"; slots = "5461"; slaves = "1" }
    ∷ record { ip = "10.0.0.3"; prefix = "f05a2b31"; keys = "0"; slots = "10923"; slaves = "2" }
    ∷ []

parse_trib-print_example : parse_trib (print_trib two_shown) ≡ map trib_info two_shown
unfolding is_digit is_word
parse_trib-print_example = parse_trib-print two_shown (
  (
    of_class-Run is_address "10.0.0.1" refl refl,
    of_class-Run is_word "1d91acc0" refl refl,
    of_class-Run is_digit "12" refl refl,
    of_class-Run is_digit "5461" refl refl,
    of_class-Run is_digit "1" refl refl,
  ),
  (
    (
      of_class-Run is_address "10.0.0.3" refl refl,
      of_class-Run is_word "f05a2b31" refl refl,
      of_class-Run is_digit "0" refl refl,
      of_class-Run is_digit "10923" refl refl,
      of_class-Run is_digit "2" refl refl,
    ),
    tt,
  ),
)

-- Endpoints out of order.
abbrev two_pods : Endpoints
two_pods = record no_endpoints {
  subsets =
      some (record { addresses = pod "r-1" "10.0.0.2" "a" ∷ pod "r-0" "10.0.0.1" "a" ∷ [] } ∷ []);
}

sort_endpoints-InOrder_example :
    (addresses : List EndpointAddress) × (sort_endpoints two_pods
      ≡ record two_pods { subsets = some (record { addresses = addresses } ∷ []) })
    × Perm addresses (pod "r-1" "10.0.0.2" "a" ∷ pod "r-0" "10.0.0.1" "a" ∷ [])
    × InOrder (λ a b. str_lt a.target.name b.target.name) addresses
sort_endpoints-InOrder_example =
    sort_endpoints-InOrder two_pods
      (record { addresses = pod "r-1" "10.0.0.2" "a" ∷ pod "r-0" "10.0.0.1" "a" ∷ [] }) [] refl

-- The API server does not answer, eighteen times.
attempts-requeues_example :
    (q' q'' : String → ℕ) × (attempts counting
        (printing "")
        (λ key. ok ("ns", "r"))
        "ns/r"
        18
        (λ n. [])
        (λ key. 0)
      ≡ some q')
    × (q' "ns/r" ≡ 18 % 16)
    × (attempts counting (printing "") (λ key. ok ("ns", "r")) "ns/r" 19 (λ n. []) (λ key. 0)
        ≡ some q'')
    × (((18 % 16 < 15) × (q'' ≡ counting.finish "ns/r" (counting.add_rate_limited "ns/r" q')))
        ⊎ ((18 % 16 ≡ 15) × (q'' ≡ counting.finish "ns/r" (counting.forget "ns/r" q'))))
unfolding seen_error sync
attempts-requeues_example =
    attempts-requeues counting (printing "") (λ key. ok ("ns", "r")) "ns/r" "ns" "r" (λ n. [])
      (λ key. 0) 18 refl (λ t. (api (other_api "down"), refl)) refl
