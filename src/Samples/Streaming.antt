-- ===== src/Samples/Streaming.antt =====
-- A command whose stream says what it printed.
use middleware_operator_mana.Base.{ℕ, ◌≡◌, ◌↔◌, ◌∷◌, [], String, none}
use middleware_operator_mana.Commands.{run_command}
use middleware_operator_mana.Commands.Exec.{Streams}
use middleware_operator_mana.Commands.Failures.{Clean, streaming, run_command-streams}
use middleware_operator_mana.Errors.{ok, cluster_info}
use middleware_operator_mana.Outcome.{done}
use middleware_operator_mana.Samples.{printing}
use middleware_operator_mana.Types.{ObjectReference}
use middleware_operator_mana.World.{executed}

abbrev answering : Streams
answering = record {
  add_to_scheme = none;
  new_executor = λ e. none;
  stream = λ t e. record { stdout = "cluster_state:ok"; stderr = ""; error = none };
}

abbrev first_pod : ObjectReference
first_pod = record { name = "r-0"; namespace = "ns" }

abbrev six : ℕ → String
six n = "6"

run_command-streams_example :
    ((run_command (streaming six answering (printing "")) first_pod (cluster_info "10.0.0.1") []
        ≡ (done (ok "cluster_state:ok"), executed first_pod (cluster_info "10.0.0.1") ∷ []))
      ↔ Clean six answering [] first_pod (cluster_info "10.0.0.1") "cluster_state:ok")
    × ((run_command
          (streaming six answering (printing ""))
          first_pod
          (cluster_info "10.0.0.1")
          []).1
        ≡ executed first_pod (cluster_info "10.0.0.1") ∷ [])
run_command-streams_example =
    run_command-streams six answering (printing "") first_pod (cluster_info "10.0.0.1") []
      "cluster_state:ok"
