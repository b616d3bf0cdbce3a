-- ===== src/Samples/Growing.antt =====
-- A sync that scales a cluster of two instances to four, from the first call to the last.
use middleware_operator_mana.Base.{
  ◌++◌, inr, ℕ, zero, suc, ◌≡◌, refl, if◌then◌else◌, Bool, true, false, List, [], ◌∷◌, String, none,
  some, Perm, sort_stable, arith, inl,
}
use middleware_operator_mana.Commands.Joining.{Calm}
use middleware_operator_mana.Commands.Parse.{parse_nodes, parse_lines, parse_fields, node_flags}
use middleware_operator_mana.Compose.{Composition, build_will_add}
use middleware_operator_mana.Errors.{ok, Command, cluster_nodes, add_slave, add_master}
use middleware_operator_mana.Lifecycle.Running.{addressed, status_calls}
use middleware_operator_mana.Lifecycle.Named.{AllNamed, Apart}
use middleware_operator_mana.Lifecycle.Scaled.{grown_calls}
use middleware_operator_mana.Lifecycle.Upgraded.{planning_calls}
use middleware_operator_mana.Status.Moves.{moved}
use middleware_operator_mana.Types.Objects.{StatefulSet}
use middleware_operator_mana.Outcome.{done}
use middleware_operator_mana.Samples.{pod, printing, set_of}
use middleware_operator_mana.Samples.Calling.{template, templated}
use middleware_operator_mana.Samples.Creating.{of_pods, second, two_lines, the_slave}
use middleware_operator_mana.Samples.Forming.{leader, the_node}
use middleware_operator_mana.Status.Nodes.{Described}
use middleware_operator_mana.Sync.Core.{sync, find_stateful_set}
use middleware_operator_mana.Sync.Scaling.{enlarged_calls, sync-Scaled}
use middleware_operator_mana.Text.{contains, split, fields, join}
use middleware_operator_mana.Types.{
  EndpointAddress, Endpoints, ObjectReference, RedisCluster, RedisClusterCondition, RedisNodeInfo,
  no_endpoints, auto_receive, assign_receive,
}
use middleware_operator_mana.Types.Phase
use middleware_operator_mana.World.{
  Event, Env, Trace, executed, updated_cluster, updated_stateful_set, poll,
}
use middleware_operator_mana.World.Ascends.{phases}

abbrev third : EndpointAddress
third = pod "r-2" "10.0.0.3" "c"

abbrev fourth : EndpointAddress
fourth = pod "r-3" "10.0.0.4" "d"

abbrev of_four_pods : Endpoints
of_four_pods = record no_endpoints {
  subsets = some (record { addresses = leader ∷ second ∷ third ∷ fourth ∷ [] } ∷ []);
}

abbrev four_wanted : RedisCluster
four_wanted = record templated {
  spec = record templated.spec {
    replicas = some 4;
    update_strategy = record templated.spec.update_strategy { type = auto_receive };
  };
}

-- Has the stateful set been updated?
abbrev enlarged : Trace → Bool
enlarged [] = false
enlarged (updated_stateful_set set ∷ t) = true
enlarged (_ ∷ t) = enlarged t

abbrev size : Trace → ℕ
size t = if enlarged t then 4 else 2

-- How many of the new instances have joined?
abbrev newcomers : Trace → ℕ
newcomers [] = 0
newcomers (executed pod (add_master ip exist_ip) ∷ t) = 1
newcomers (executed pod (add_slave node_id slave master) ∷ t) = 2
newcomers (_ ∷ t) = newcomers t

abbrev lines : ℕ → String
lines zero = two_lines
lines (suc zero) =
    "n1 10.0.0.1:6379 myself,master - 0 0 1 connected 0-16383\nn2 10.0.0.2:6379 slave n1 0 0 1 connected\nn3 10.0.0.3:6379 master - 0 0 1 connected"
lines (suc (suc n)) =
    "n1 10.0.0.1:6379 myself,master - 0 0 1 connected 0-16383\nn2 10.0.0.2:6379 slave n1 0 0 1 connected\nn3 10.0.0.3:6379 master - 0 0 1 connected\nn4 10.0.0.4:6379 slave n3 0 0 1 connected"

abbrev new_master : RedisNodeInfo
new_master = record the_node { node_id = "n3"; ip_port = "10.0.0.3:6379"; slot = "" }

abbrev new_slave : RedisNodeInfo
new_slave = record the_slave { node_id = "n4"; ip_port = "10.0.0.4:6379"; master = "n3" }

abbrev nodes_of : ℕ → List RedisNodeInfo
nodes_of zero = the_node ∷ the_slave ∷ []
nodes_of (suc zero) = the_node ∷ the_slave ∷ new_master ∷ []
nodes_of (suc (suc n)) = the_node ∷ the_slave ∷ new_master ∷ new_slave ∷ []

abbrev printed_at : Trace → Command → String
printed_at t (cluster_nodes ip) = lines (newcomers t)
printed_at t _ = "[OK]"

abbrev growing : Env
growing = record (printing "") {
  exec = λ t pod command. record { stdout = printed_at t command; stderr = ""; error = none };
  get_endpoints = λ t namespace name. ok (if enlarged t then of_four_pods else of_pods);
  get_stateful_set = λ t namespace name. ok (set_of (size t));
  list_nodes = λ t. ok [];
  cached_cluster = λ t namespace name. ok four_wanted;
  cached_stateful_sets = λ t namespace. ok (set_of 2 ∷ []);
}

lines_sound : (n : ℕ) → contains (lines n) "[ERR]" ≡ false
unfolding contains
lines_sound zero = refl
lines_sound (suc zero) = refl
lines_sound (suc (suc n)) = refl

no_error_at : (t : Trace) (command : Command) → contains (printed_at t command) "[ERR]" ≡ false
unfolding contains
no_error_at t (cluster_nodes ip) = lines_sound (newcomers t)
no_error_at t _ = refl

growing-Calm : (pod : ObjectReference) → Calm growing pod
growing-Calm pod t command = (refl, no_error_at t command)

lines_parsed : (n : ℕ) → parse_nodes (lines n) ≡ done (nodes_of n)
unfolding parse_nodes parse_lines parse_fields node_flags contains split fields join
lines_parsed zero = refl
lines_parsed (suc zero) = refl
lines_parsed (suc (suc n)) = refl

abbrev new_pair : Composition
new_pair = record {
  master_ips = "10.0.0.3" ∷ [];
  slave_ips = "10.0.0.4" ∷ [];
  parent_ips = "10.0.0.3" ∷ [];
}

new_roles :
    build_will_add (nodes_of 0) (addressed of_four_pods (leader ∷ second ∷ third ∷ fourth ∷ []) [])
    ≡ done (ok new_pair)
unfolding build_will_add
new_roles = refl

new_named : AllNamed Apart ("10.0.0.3" ∷ []) ("n3" ∷ []) (nodes_of 1)
unfolding contains
new_named = (inr (refl, inr (refl, inl (refl, refl))), tt)

-- The joins of the new pair behind the update of the set, the phase that is then written, and the calls
-- after them.
abbrev grown_behind : StatefulSet → RedisCluster → List Event → Trace
grown_behind set c after =
    after
    ++ grown_calls leader.target "10.0.0.1" "10.0.0.3" [] ("10.0.0.4" ∷ []) ("n3" ∷ []) (
        planning_calls four_wanted c
          (enlarged_calls "ns" "r" four_wanted (moved Phase.scaling 2 four_wanted) set []))

sync-Scaled_example :
    (set : StatefulSet) × (c changed : RedisCluster) × (cs : List RedisClusterCondition)
    × (after : List Event) × (sync growing "ns" "r" [] ≡ (
      done (ok tt),
      updated_cluster changed
          ∷ status_calls "ns" "r" leader
              (nodes_of (newcomers (grown_behind set c after)))
              (grown_behind set c after),
    ))
    × (c.status.phase ≡ Phase.upgrading)
    × (changed.status.phase ≡ Phase.running)
    × (changed.status.replicas ≡ size (grown_behind set c after))
    × Perm changed.status.conditions cs
    × Described []
        (addressed of_four_pods (leader ∷ second ∷ third ∷ fourth ∷ []) [])
        (leader ∷ second ∷ third ∷ fourth ∷ [])
        (nodes_of (newcomers (grown_behind set c after)))
        cs
unfolding find_stateful_set sort_stable
sync-Scaled_example =
    sync-Scaled growing "ns" "r" four_wanted template [] (set_of 2 ∷ []) (set_of 2) 2 4
      (λ t. set_of (size t)) size [] refl (λ t. refl) refl (λ e. omega (arith, e)) refl refl refl
      (omega arith) (inl refl) refl (λ e. cc) (λ t c. refl) (λ t s. refl) (λ t. refl) (λ t. refl)
      of_pods of_four_pods leader leader (second ∷ third ∷ fourth ∷ []) (second ∷ [])
      (leader ∷ second ∷ []) (leader ∷ second ∷ third ∷ fourth ∷ []) [] [] "10.0.0.3" []
      ("10.0.0.4" ∷ []) ("10.0.0.3" ∷ []) (λ t. nodes_of (newcomers t)) [] refl (λ set. refl) refl
      refl refl refl refl growing-Calm (λ t pod ip. lines_parsed (newcomers t)) (λ t. refl)
      (λ set c. new_roles) ("n3" ∷ []) (λ set c. new_named) refl (omega arith)

-- Nothing but these phases is written, and the pods and nodes are those that the surroundings name.
scaled : phases (sync growing "ns" "r" []).1 ≡ Phase.running ∷ Phase.upgrading ∷ Phase.scaling ∷ []
unfolding sync poll parse_nodes build_will_add
scaled = refl

-- The same where the new master is given slots by a strategy of its own.
abbrev by_hand : Env
by_hand = record growing {
  cached_cluster = λ t namespace name. ok (record four_wanted {
    spec = record four_wanted.spec {
      update_strategy = record four_wanted.spec.update_strategy {
        type = assign_receive;
        assign_strategies = record { from_replicas = "n1"; slots = some 100 } ∷ [];
      };
    };
  });
}

scaled_by_hand :
    phases (sync by_hand "ns" "r" []).1 ≡ Phase.running ∷ Phase.upgrading ∷ Phase.scaling ∷ []
unfolding sync poll parse_nodes build_will_add
scaled_by_hand = refl
