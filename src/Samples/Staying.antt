-- ===== src/Samples/Staying.antt =====
-- Two syncs of a running cluster of two instances, whose status is out of date.
use middleware_operator_mana.Base.{
  ◌≡◌, refl, true, false, List, [], ◌∷◌, ◌++◌, String, none, sort_stable, All, arith,
}
use middleware_operator_mana.Commands.Joining.{Calm}
use middleware_operator_mana.Commands.Parse.{parse_nodes}
use middleware_operator_mana.Errors.{ok, Command, cluster_nodes, cluster_info}
use middleware_operator_mana.Lifecycle.Reports.{Reports}
use middleware_operator_mana.Lifecycle.Running.{addressed}
use middleware_operator_mana.Outcome.{done}
use middleware_operator_mana.Repair.Parts.{may_be_settled}
use middleware_operator_mana.Samples.{printing, set_of}
use middleware_operator_mana.Samples.Creating.{
  of_pods, wanted, second, two_lines, the_slave, lines_parsed,
}
use middleware_operator_mana.Samples.Forming.{leader, the_node}
use middleware_operator_mana.Status.{status_of}
use middleware_operator_mana.Status.Conditions.{condition_of, no_instance}
use middleware_operator_mana.Sync.Core.{sync, find_stateful_set}
use middleware_operator_mana.Sync.Steady.{sync-settles}
use middleware_operator_mana.Sync.Settled.{cached_at}
use middleware_operator_mana.Text.{contains, known_nodes}
use middleware_operator_mana.Types.{ObjectReference, RedisCluster}
use middleware_operator_mana.Types.Phase
use middleware_operator_mana.World.{Env, Event, poll}
use middleware_operator_mana.World.Ascends.{phases, Silent}

-- The conditions do not know the pods yet.
abbrev outdated : RedisCluster
outdated = record wanted {
  status =
      status_of 2 Phase.running ""
        (condition_of no_instance 0 the_node ∷ condition_of no_instance 0 the_slave ∷ []);
}

abbrev is_fine : String
is_fine = "cluster_state:ok\ncluster_known_nodes:2\n"

abbrev said : Command → String
said (cluster_nodes ip) = two_lines
said (cluster_info ip) = is_fine
said _ = "[OK]"

abbrev staying : Env
staying = record (printing "") {
  exec = λ t pod command. record { stdout = said command; stderr = ""; error = none };
  get_endpoints = λ t namespace name. ok of_pods;
  get_stateful_set = λ t namespace name. ok (set_of 2);
  list_nodes = λ t. ok [];
  cached_cluster = λ t namespace name. ok (cached_at outdated t);
  cached_stateful_sets = λ t namespace. ok (set_of 2 ∷ []);
}

no_error_said : (command : Command) → contains (said command) "[ERR]" ≡ false
unfolding contains
no_error_said (cluster_nodes ip) = refl
no_error_said (cluster_info ip) = refl
no_error_said _ = refl

staying-Calm : (pod : ObjectReference) → Calm staying pod
staying-Calm pod t command = (refl, no_error_said command)

sync-settles_example :
    (calls calls' : List Event) × (sync staying "ns" "r" [] ≡ (done (ok tt), calls ++ []))
    × Reports
        (addressed of_pods (leader ∷ second ∷ []) [])
        (leader ∷ second ∷ [])
        []
        (the_node ∷ the_slave ∷ [])
        2
        (cached_at outdated (calls ++ [])).status
    × (sync staying "ns" "r" (calls ++ []) ≡ (done (ok tt), calls' ++ (calls ++ [])))
    × All Silent calls'
unfolding find_stateful_set sort_stable may_be_settled known_nodes contains
sync-settles_example =
    sync-settles staying outdated of_pods leader (second ∷ []) [] (the_node ∷ the_slave ∷ []) []
      (set_of 2) 2 (staying-Calm leader.target) (λ t. refl) (λ t. refl) refl
      (λ t. lines_parsed true) (λ t c. refl) (leader ∷ second ∷ []) (set_of 2 ∷ []) (set_of 2) 2 2
      is_fine "2" (λ t. refl) refl refl (λ t. refl) (λ t. refl) refl (λ e. omega (arith, e)) refl
      refl (omega arith) (λ t. refl) refl refl [] refl refl refl refl

updated_once : phases (sync staying "ns" "r" []).1 ≡ Phase.running ∷ []
unfolding sync poll parse_nodes known_nodes
updated_once = refl
