-- ===== src/Commands/Exec.antt =====
-- pkg/operator/redis/exec_redis_trib.go: `ExecToPodThroughAPI`, and the command lines that the operator
-- gives it (sync_rediscluster.go, check_rediscluster.go). The streams are a parameter; so is `decimal`,
-- the text that `fmt` makes of a number.
use Prim.Native.String.{◌++◌ as str_append}
use middleware_operator_mana.Base.{ℕ, List, [], ◌∷◌, String, Option, none, some}
use middleware_operator_mana.Build.{texts, redis_container_name}
use middleware_operator_mana.Errors.{
  ExecReply, Command, cluster_info, cluster_nodes, trib_info, trib_check, trib_create, add_slave,
  add_master, rebalance, reshard,
}
use middleware_operator_mana.Types.{ObjectReference}
use middleware_operator_mana.World.{Trace}

-- What the executor is asked to run. Standard input is never given.
pub record PodExec : Type 0 where
  pub namespace : String
  pub pod : String
  pub container : String
  pub command : List String

-- `AddToScheme`, `NewSPDYExecutor` and `Stream`, with the errors that they may return.
pub record Streams : Type 0 where
  pub add_to_scheme : Option String
  pub new_executor : PodExec → Option String
  pub stream : Trace → PodExec → ExecReply

-- The loop of `createCluster` over the addresses.
unfoldable pub spaced : List String → String
spaced [] = ""
spaced (address ∷ rest) = texts (address ∷ " " ∷ spaced rest ∷ [])

module _ (decimal : ℕ → String) where
  -- The script of each command, blanks included.
  unfoldable pub shell_text : Command → String
  unfolding spaced
  shell_text (cluster_info ip) = texts ("redis-cli -c -h " ∷ ip ∷ " -p 6379 cluster info" ∷ [])
  shell_text (cluster_nodes ip) = texts ("redis-cli -c -h " ∷ ip ∷ " -p 6379 cluster nodes" ∷ [])
  shell_text (trib_info ip) = texts (" redis-trib.rb info " ∷ ip ∷ ":6379 " ∷ [])
  shell_text (trib_check ip) = texts (" redis-trib.rb check " ∷ ip ∷ ":6379 " ∷ [])
  shell_text (trib_create addresses) =
      str_append "echo yes | redis-trib.rb create " (spaced addresses)
  shell_text (add_slave master_id slave_ip master_ip) = texts (
      "redis-trib.rb add-node --slave --master-id " ∷ master_id ∷ " " ∷ slave_ip ∷ ":6379 "
      ∷ master_ip ∷ ":6379" ∷ [])
  shell_text (add_master new_ip exist_ip) =
      texts (" redis-trib.rb add-node " ∷ new_ip ∷ ":6379 " ∷ exist_ip ∷ ":6379 " ∷ [])
  shell_text (rebalance pipeline ip) = texts (
      " redis-trib.rb  rebalance --use-empty-masters --pipeline " ∷ pipeline ∷ " " ∷ ip ∷ ":6379 "
      ∷ [])
  shell_text (reshard from to slots pipeline ip) = texts (
      " redis-trib.rb reshard --from "
      ∷ from
      ∷ " --to "
      ∷ to
      ∷ " --slots "
      ∷ decimal slots
      ∷ " --pipeline "
      ∷ pipeline
      ∷ " --yes "
      ∷ ip
      ∷ ":6379 "
      ∷ [])

  unfoldable pub pod_exec : ObjectReference → Command → PodExec
  unfolding shell_text
  pod_exec pod command = record {
    namespace = pod.namespace;
    pod = pod.name;
    container = redis_container_name;
    command = "/bin/sh" ∷ "-c" ∷ shell_text command ∷ [];
  }

  -- `ExecToPodThroughAPI`
  unfoldable pub exec_to_pod : Streams → Trace → ObjectReference → Command → ExecReply
  unfolding pod_exec
  exec_to_pod s t pod command = elim s.add_to_scheme [
    | some e ↦ record {
      stdout = "";
      stderr = "";
      error = some (str_append "error adding to scheme: " e);
    }
    | none ↦ elim (s.new_executor (pod_exec pod command)) [
      | some e ↦ record {
        stdout = "";
        stderr = "";
        error = some (str_append "error while creating Executor: " e);
      }
      | none ↦
          let reply = s.stream t (pod_exec pod command) in
          elim reply.error [
            | some e ↦ record reply { error = some (str_append "error in Stream: " e) }
            | none ↦ record reply { error = none }
          ]
    ]
  ]
