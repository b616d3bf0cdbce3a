-- ===== src/Samples/Forming.antt =====
-- A cluster of one master and one slave is formed, in surroundings where nothing goes wrong.
use middleware_operator_mana.Base.{inl, inr, ◌≡◌, refl, false, List, [], ◌∷◌, String, none}
use middleware_operator_mana.Commands.Joining.{Calm, slave_calls, master_calls}
use middleware_operator_mana.Commands.Parse.{parse_nodes, parse_lines, parse_fields, node_flags}
use middleware_operator_mana.Errors.{ok, Command, cluster_nodes}
use middleware_operator_mana.Lifecycle.Upgrade.{join_instances}
use middleware_operator_mana.Lifecycle.Named.{AllNamed, Apart}
use middleware_operator_mana.Lifecycle.Order.{nodes_calls, join_instances-order}
use middleware_operator_mana.Outcome.{done}
use middleware_operator_mana.Samples.{pod, printing}
use middleware_operator_mana.Text.{contains, split, fields, join}
use middleware_operator_mana.Types.{
  EndpointAddress, RedisClusterCondition, RedisNodeInfo, no_endpoints,
}
use middleware_operator_mana.World.{Env, Trace}
use middleware_operator_mana.Status.Conditions.{conditions_from}
use middleware_operator_mana.Status.Nodes.{Described, conditions_from-Described}

abbrev pub the_line : String
the_line = "n1 10.0.0.1:6379 myself,master - 0 0 1 connected 0-16383"

abbrev pub the_node : RedisNodeInfo
the_node = record {
  node_id = "n1";
  ip_port = "10.0.0.1:6379";
  flags = "master";
  master = "-";
  ping_sent = "0";
  pong_recv = "0";
  config_epoch = "1";
  link_state = "connected";
  slot = "0-16383";
}

abbrev pub printed : Command → String
printed (cluster_nodes ip) = the_line
printed _ = "[OK]"

abbrev pub forming : Env
forming = record (printing "") {
  exec = λ t pod command. record { stdout = printed command; stderr = ""; error = none };
}

abbrev pub leader : EndpointAddress
leader = pod "r-0" "10.0.0.1" "a"

-- The new master stands behind the one that was there.
abbrev two_lines : String
two_lines =
    "n9 10.0.0.9:6379 myself,master - 0 0 1 connected 0-16383\nn1 10.0.0.1:6379 master - 0 0 1 connected 5-6"

abbrev the_other : RedisNodeInfo
the_other = record the_node { node_id = "n9"; ip_port = "10.0.0.9:6379" }

abbrev the_new : RedisNodeInfo
the_new = record the_node { slot = "5-6" }

abbrev said : Command → String
said (cluster_nodes ip) = two_lines
said _ = "[OK]"

abbrev growing : Env
growing = record (printing "") {
  exec = λ t pod command. record { stdout = said command; stderr = ""; error = none };
}

no_error_said : (command : Command) → contains (said command) "[ERR]" ≡ false
unfolding contains
no_error_said (cluster_nodes ip) = refl
no_error_said _ = refl

growing-Calm : Calm growing leader.target
growing-Calm t command = (refl, no_error_said command)

parsed_two : parse_nodes two_lines ≡ done (the_other ∷ the_new ∷ [])
unfolding parse_nodes parse_lines parse_fields node_flags contains split fields join
parsed_two = refl

new_named : AllNamed Apart ("10.0.0.1" ∷ []) ("n1" ∷ []) (the_other ∷ the_new ∷ [])
unfolding contains
new_named = (inr (refl, inl (refl, refl)), tt)

join_instances-order_example :
    join_instances growing "10.0.0.9" leader.target
      ("10.0.0.9" ∷ [])
      (record {
        master_ips = "10.0.0.1" ∷ [];
        slave_ips = "10.0.0.2" ∷ [];
        parent_ips = "10.0.0.1" ∷ [];
      })
      []
    ≡ (
      done (ok ("10.0.0.9" ∷ [], "n1" ∷ [])),
      slave_calls leader.target "10.0.0.1" ("10.0.0.2" ∷ []) ("10.0.0.1" ∷ []) ("n1" ∷ []) (
          nodes_calls leader.target "10.0.0.9"
            (master_calls leader.target "10.0.0.9" ("10.0.0.1" ∷ []) [])),
    )
join_instances-order_example =
    join_instances-order growing leader.target "10.0.0.9" "10.0.0.1" ("10.0.0.9" ∷ []) []
      ("10.0.0.2" ∷ []) ("10.0.0.1" ∷ []) ("n1" ∷ []) (the_other ∷ the_new ∷ []) [] growing-Calm
      parsed_two new_named refl

conditions_from-Described_example :
    (cs : List RedisClusterCondition) × (t' : Trace) × (conditions_from forming [] no_endpoints
        (leader ∷ [])
        (the_node ∷ [])
        []
      ≡ (done cs, t'))
    × Described [] no_endpoints (leader ∷ []) (the_node ∷ []) cs
conditions_from-Described_example =
    conditions_from-Described forming [] no_endpoints (leader ∷ []) (the_node ∷ []) []
