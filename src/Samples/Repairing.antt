-- ===== src/Samples/Repairing.antt =====
-- A repair of two instances, one of which is fine and one of which is not.
use middleware_operator_mana.Base.{
  Bool-cases, ◌≡◌, refl, inl, inr, false, [], ◌∷◌, String, str_eq, none, if◌then◌else◌, sort_stable,
}
use middleware_operator_mana.Commands.Joining.{Calm}
use middleware_operator_mana.Errors.{ok, Command, cluster_nodes, cluster_info}
use middleware_operator_mana.Lifecycle.Running.{status_calls}
use middleware_operator_mana.Outcome.{done}
use middleware_operator_mana.Repair.Anew.{Broken, Fine}
use middleware_operator_mana.Repair.Check.{repair}
use middleware_operator_mana.Repair.Reformed.{repair-forms_anew}
use middleware_operator_mana.Samples.{set_of}
use middleware_operator_mana.Samples.Creating.{
  of_pods, wanted, second, working, members, joined, printed_at, no_error_at, lines_parsed, roles,
  the_slave, first_named, forming_behind,
}
use middleware_operator_mana.Samples.Forming.{leader, the_node}
use middleware_operator_mana.Status.{status_of}
use middleware_operator_mana.Text.{contains, known_nodes}
use middleware_operator_mana.Types.{ObjectReference, RedisCluster}
use middleware_operator_mana.Types.Phase
use middleware_operator_mana.World.{Env, Trace, executed, got_endpoints, updated_cluster}

abbrev report : String → String
report ip =
    if str_eq ip "10.0.0.1"
    then "cluster_state:ok\ncluster_known_nodes:6"
    else "cluster_state:fail\ncluster_known_nodes:6"

abbrev told : Trace → Command → String
told t (cluster_info ip) = report ip
told t (cluster_nodes ip) = printed_at t (cluster_nodes ip)
told t _ = "[OK]"

abbrev half_broken : Env
half_broken = record working {
  exec = λ t pod command. record { stdout = told t command; stderr = ""; error = none };
}

abbrev in_scaling : RedisCluster
in_scaling = record wanted { status = status_of 2 Phase.scaling "" [] }

no_error_told : (t : Trace) (command : Command) → contains (told t command) "[ERR]" ≡ false
unfolding contains
no_error_told t (cluster_info ip) = elim (Bool-cases (str_eq ip "10.0.0.1")) [
  | inl e ↦ rw e refl
  | inr e ↦ rw e refl
]
no_error_told t (cluster_nodes ip) = no_error_at t (cluster_nodes ip)
no_error_told t _ = refl

half_broken-Calm : (pod : ObjectReference) → Calm half_broken pod
half_broken-Calm pod t command = (refl, no_error_told t command)

report-Fine : Fine (report "10.0.0.1")
unfolding contains known_nodes
report-Fine = inl (refl, ("6", refl))

report-Broken : Broken (report "10.0.0.2")
unfolding contains known_nodes
report-Broken = (refl, ("6", refl, (λ e. cc)))

-- The calls of the repair, but for the last look.
abbrev reforming : Trace
reforming = forming_behind (
    executed second.target (cluster_info "10.0.0.2")
    ∷ executed leader.target (cluster_info "10.0.0.1")
    ∷ got_endpoints "ns" "r"
    ∷ [])

repair-forms_anew_example :
    (changed : RedisCluster) × (repair half_broken in_scaling [] ≡ (
      done (ok tt),
      updated_cluster changed ∷ status_calls "ns" "r" leader (the_node ∷ the_slave ∷ []) reforming,
    ))
    × (changed.status.phase ≡ Phase.running)
unfolding sort_stable
repair-forms_anew_example =
    repair-forms_anew half_broken in_scaling of_pods (leader ∷ second ∷ []) [] leader (second ∷ [])
      (leader ∷ []) [] second report "10.0.0.1" [] ("10.0.0.2" ∷ []) ("n1" ∷ []) members []
      (set_of 2) 2 [] (λ t. refl) refl refl refl refl roles refl half_broken-Calm (λ t a. refl)
      (λ t pod ip. lines_parsed (joined t)) (λ t. refl) (λ t. refl) refl (inr (inl refl))
      (report-Fine, tt) report-Broken refl first_named
