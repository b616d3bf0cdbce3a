-- ===== src/Samples/Creating.antt =====
-- A sync that creates a cluster of two instances, from the first call to the last.
use middleware_operator_mana.Assign.{assign_master_slave_ip}
use middleware_operator_mana.Base.{
  inl, ◌≡◌, refl, ◌≤◌, Bool, true, false, List, [], ◌∷◌, ◌++◌, String, none, some, length,
  if◌then◌else◌, Perm, sort_stable,
}
use middleware_operator_mana.Commands.Joining.{Calm}
use middleware_operator_mana.Commands.Parse.{parse_nodes, parse_lines, parse_fields, node_flags}
use middleware_operator_mana.Errors.{ok, Command, cluster_nodes, add_slave, trib_create}
use middleware_operator_mana.Lifecycle.Create.{create_and_init}
use middleware_operator_mana.Lifecycle.Created.{formed_calls, create_and_init-order}
use middleware_operator_mana.Lifecycle.Named.{AllNamed, Other}
use middleware_operator_mana.Build.{build_service}
use middleware_operator_mana.Types.Objects.{StatefulSet}
use middleware_operator_mana.Lifecycle.Running.{addressed, status_calls}
use middleware_operator_mana.Outcome.{done}
use middleware_operator_mana.Samples.{pod, printing, set_of}
use middleware_operator_mana.Samples.Calling.{template, templated}
use middleware_operator_mana.Samples.Forming.{leader, the_line, the_node}
use middleware_operator_mana.Status.Nodes.{Described}
use middleware_operator_mana.Sync.Core.{create_cluster, handle, sync, find_stateful_set}
use middleware_operator_mana.Sync.Course.{place, stage, handle-Ascends, sync-Ascends}
use middleware_operator_mana.Sync.Creating.{begun, sync-Running}
use middleware_operator_mana.Text.{contains, split, fields, join}
use middleware_operator_mana.Types.{
  EndpointAddress, Endpoints, ObjectReference, RedisCluster, RedisClusterCondition, RedisNodeInfo,
  no_endpoints,
}
use middleware_operator_mana.Types.Phase
use middleware_operator_mana.World.{
  Env, Event, Trace, executed, created_stateful_set, created_service, cached_stateful_sets,
  cached_cluster, got_endpoints, updated_cluster, poll,
}
use middleware_operator_mana.World.Ascends.{phases, Ascends}

abbrev pub of_pods : Endpoints
of_pods = record no_endpoints {
  subsets = some (record { addresses = leader ∷ pod "r-1" "10.0.0.2" "b" ∷ [] } ∷ []);
}

abbrev pub wanted : RedisCluster
wanted = record templated { spec = record templated.spec { replicas = some 2 } }

abbrev pub second : EndpointAddress
second = pod "r-1" "10.0.0.2" "b"

-- Has a slave joined since the cluster was formed?
abbrev pub joined : Trace → Bool
joined [] = false
joined (executed pod (add_slave node_id slave master) ∷ t) = true
joined (executed pod (trib_create ips) ∷ t) = false
joined (_ ∷ t) = joined t

abbrev pub two_lines : String
two_lines =
    "n1 10.0.0.1:6379 myself,master - 0 0 1 connected 0-16383\nn2 10.0.0.2:6379 slave n1 0 0 1 connected"

abbrev pub the_slave : RedisNodeInfo
the_slave = record {
  node_id = "n2";
  ip_port = "10.0.0.2:6379";
  flags = "slave";
  master = "n1";
  ping_sent = "0";
  pong_recv = "0";
  config_epoch = "1";
  link_state = "connected";
  slot = "";
}

abbrev pub members : Trace → List RedisNodeInfo
members t = if joined t then the_node ∷ the_slave ∷ [] else the_node ∷ []

abbrev pub printed_at : Trace → Command → String
printed_at t (cluster_nodes ip) = if joined t then two_lines else the_line
printed_at t _ = "[OK]"

-- A new custom resource, whose pods come up, in surroundings where nothing goes wrong.
abbrev pub working : Env
working = record (printing "") {
  exec = λ t pod command. record { stdout = printed_at t command; stderr = ""; error = none };
  get_endpoints = λ t namespace name. ok of_pods;
  get_stateful_set = λ t namespace name. ok (set_of 2);
  list_nodes = λ t. ok [];
  cached_cluster = λ t namespace name. ok wanted;
  cached_stateful_sets = λ t namespace. ok [];
}

line_sound : (b : Bool) → contains (if b then two_lines else the_line) "[ERR]" ≡ false
unfolding contains
line_sound true = refl
line_sound false = refl

pub no_error_at : (t : Trace) (command : Command) → contains (printed_at t command) "[ERR]" ≡ false
unfolding contains
no_error_at t (cluster_nodes ip) = line_sound (joined t)
no_error_at t _ = refl

pub working-Calm : (pod : ObjectReference) → Calm working pod
working-Calm pod t command = (refl, no_error_at t command)

pub lines_parsed :
    (b : Bool)
    → parse_nodes (if b then two_lines else the_line)
      ≡ done (if b then the_node ∷ the_slave ∷ [] else the_node ∷ [])
unfolding parse_nodes parse_lines parse_fields node_flags contains split fields join
lines_parsed true = refl
lines_parsed false = refl

pub roles :
    assign_master_slave_ip (leader ∷ second ∷ []) ≡ done (ok ("10.0.0.1" ∷ [], "10.0.0.2" ∷ []))
unfolding assign_master_slave_ip
roles = refl

pub first_named : AllNamed Other ("10.0.0.1" ∷ []) ("n1" ∷ []) (the_node ∷ [])
first_named = (inl (refl, refl), tt)

-- The calls of a creation from the forming of the cluster on, behind `t`.
abbrev pub forming_behind : Trace → Trace
forming_behind t =
    formed_calls leader.target "ns" "10.0.0.1" [] ("10.0.0.2" ∷ []) ("n1" ∷ [])
      (got_endpoints "ns" "r" ∷ t)

abbrev creating_behind : StatefulSet → Trace
creating_behind set =
    created_stateful_set set
    ∷ created_service (build_service (begun wanted) "ns" "r")
    ∷ updated_cluster (begun wanted)
    ∷ cached_stateful_sets "ns"
    ∷ cached_cluster "ns" "r"
    ∷ []

sync-Running_example :
    (set : StatefulSet) × (changed : RedisCluster) × (cs : List RedisClusterCondition) × (sync
        working "ns" "r" []
      ≡ (
        done (ok tt),
        updated_cluster changed
            ∷ status_calls "ns" "r" leader
                (the_node ∷ the_slave ∷ [])
                (forming_behind (creating_behind set)),
      ))
    × (changed.status.phase ≡ Phase.running)
    × (changed.status.replicas ≡ 2)
    × Perm changed.status.conditions cs
    × Described []
        (addressed of_pods (leader ∷ second ∷ []) [])
        (leader ∷ second ∷ [])
        (the_node ∷ the_slave ∷ [])
        cs
unfolding find_stateful_set sort_stable
sync-Running_example =
    sync-Running working "ns" "r" wanted template [] of_pods (leader ∷ second ∷ []) [] leader
      (second ∷ []) "10.0.0.1" [] ("10.0.0.2" ∷ []) members [] [] (set_of 2) 2 [] refl (λ t. refl)
      refl refl (λ e. cc) (λ t c. refl) (λ t s. refl) (λ t s. refl) (λ t. refl) refl refl refl roles
      refl working-Calm (λ t pod ip. lines_parsed (joined t)) (λ t. refl) ("n1" ∷ [])
      (λ t. first_named) (λ t. refl) (λ t. refl) refl

create_and_init-order_example :
    (changed : RedisCluster) × (cs : List RedisClusterCondition) × (create_and_init working wanted
        []
      ≡ (
        done (ok tt),
        updated_cluster changed
            ∷ status_calls "ns" "r" leader (the_node ∷ the_slave ∷ []) (forming_behind []),
      ))
    × (changed.status.phase ≡ Phase.running)
    × (changed.status.replicas ≡ 2)
    × Perm changed.status.conditions cs
    × Described []
        (addressed of_pods (leader ∷ second ∷ []) [])
        (leader ∷ second ∷ [])
        (the_node ∷ the_slave ∷ [])
        cs
unfolding sort_stable
create_and_init-order_example =
    create_and_init-order working wanted of_pods (leader ∷ second ∷ []) [] leader (second ∷ [])
      "10.0.0.1" [] ("10.0.0.2" ∷ []) ("n1" ∷ []) members [] (set_of 2) 2 [] refl refl refl refl
      roles refl working-Calm (λ t pod ip. lines_parsed (joined t)) (λ t. refl) (λ t. refl) refl
      (λ e. cc) refl first_named

handle-Ascends_example :
    (calls : List Event) × ((handle working "ns" "r" wanted (create_cluster false) []).1
      ≡ calls ++ [])
    × Ascends (place (create_cluster false)) 0 (phases calls)
handle-Ascends_example = handle-Ascends working "ns" "r" wanted (create_cluster false) []

sync-Ascends_example :
    (calls : List Event) × ((sync working "ns" "r" []).1 ≡ calls ++ [])
    × Ascends stage 0 (phases calls)
    × (length (phases calls) ≤ 3)
sync-Ascends_example = sync-Ascends working "ns" "r" []

written : phases (sync working "ns" "r" []).1 ≡ Phase.running ∷ Phase.creating ∷ []
unfolding sync poll parse_nodes
written = refl
