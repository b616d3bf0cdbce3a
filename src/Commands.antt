-- ===== src/Commands.antt =====
-- The commands that the operator runs in a pod (sync_rediscluster.go, check_rediscluster.go): each is
-- one call of `ExecToPodThroughAPI`, whose reply the operator reads. Waiting for the cluster is a
-- `wait.Poll` over `redis-trib.rb check`.
pub mod Parse
pub mod Waiting
pub mod Joining
pub mod Slots
pub mod Printed
pub mod RoundTrip
pub mod Trib
pub mod Matching
pub mod Exec
pub mod Failures
pub mod Quiet
use Prim.Native.String.{◌++◌ as str_append}
use middleware_operator_mana.Base.{
  ℕ, zero, suc, Bool, true, false, not, ◌||◌, ◌&&◌, List, [], ◌∷◌, ◌++◌, map, String, str_eq,
  Option, none, some, if◌then◌else◌, length, ◌==◌, get_elem?, drop,
}
use middleware_operator_mana.Errors.{
  Result, ok, err, Error, Command, ExecReply, cluster_info, cluster_nodes, trib_info, trib_check,
  trib_create, add_slave, add_master, rebalance, reshard, command_failed, known_nodes_unmatched,
  check_cluster, cluster_not_ok, lengths_differ,
}
use middleware_operator_mana.Outcome.{Outcome, done, panic, deref}
use middleware_operator_mana.Text.{contains, known_nodes}
use middleware_operator_mana.Types.{
  ObjectReference, RedisNodeInfo, RedisTribInfo, RedisClusterUpdateStrategy, SlotsAssignStrategy,
}
use middleware_operator_mana.World.{
  Env, Event, executed, Trace, M, ◌>>=◌, and_then, pure, lift, call, on_error, poll,
}
use Parse.{parse_nodes, parse_trib}

abbrev pub default_pipeline : String
default_pipeline = "10"

abbrev pub with_port : String → String
with_port ip = str_append ip ":6379"

-- `err != nil || stderr != ""`
abbrev pub has_failed : ExecReply → Bool
has_failed r = elim r.error [ some e ↦ true | none ↦ not (str_eq r.stderr "") ]

-- The pipeline of the custom resource, or the default.
abbrev pub pipeline_of : String → String
pipeline_of crd_pipeline = if not (str_eq crd_pipeline "") then crd_pipeline else default_pipeline

module _ (env : Env) where
  -- A command, and its output if it did not fail.
  unfoldable pub run_command : ObjectReference → Command → M (Result Error String)
  run_command pod command = do
    reply ← call (executed pod command) (λ t. env.exec t pod command)
    pure (if has_failed reply then err (command_failed pod command reply) else ok reply.stdout)

  -- `execClusterInfo`: is the state ok, and does the instance know itself only?
  unfoldable pub exec_cluster_info : String → ObjectReference → M (Result Error (Bool × Bool))
  unfolding run_command
  exec_cluster_info ip pod = do
    r ← run_command pod (cluster_info ip)
    on_error r (λ e. pure (err e))
        λ stdout. pure (elim (known_nodes stdout) [
          | none ↦ err (known_nodes_unmatched stdout)
          | some count ↦ ok (contains stdout "cluster_state:ok", str_eq count "1")
        ])

  -- `execCheckRedisCluster`
  unfoldable pub exec_check_redis_cluster : String → ObjectReference → M (Result Error Bool)
  unfolding run_command
  exec_check_redis_cluster exist_ip pod = do
    r ← run_command pod (trib_check exist_ip)
    on_error r (λ e. pure (err e)) λ stdout. pure (ok (not (contains stdout "[ERR]")))

  -- The condition of `waitRedisStatusOK`.
  unfoldable pub status_ok : String → ObjectReference → M (Result Error (Option (Unit {0})))
  unfolding exec_check_redis_cluster
  status_ok exist_ip pod = do
    r ← exec_check_redis_cluster exist_ip pod
    on_error r (λ e. pure (err (check_cluster e)))
        λ is_ok. pure (ok (if is_ok then some tt else none))

  -- `waitRedisStatusOK`
  unfoldable pub wait_redis_status_ok : String → ObjectReference → M (Result Error (Unit {0}))
  unfolding status_ok
  wait_redis_status_ok exist_ip pod = do
    r ← poll env (status_ok exist_ip pod)
    on_error r (λ e. pure (err (cluster_not_ok e))) λ _. pure (ok tt)

  -- `execClusterNodes`; the text may make the parser panic.
  unfoldable pub exec_cluster_nodes :
      String → ObjectReference → M (Result Error (List RedisNodeInfo))
  unfolding wait_redis_status_ok run_command
  exec_cluster_nodes ip pod = do
    waited ← wait_redis_status_ok ip pod
    on_error waited (λ e. pure (err e))
        λ _. do
          r ← run_command pod (cluster_nodes ip)
          on_error r (λ e. pure (err e))
              λ stdout. do infos ← lift (parse_nodes stdout); pure (ok infos)

  -- `execRedisTribInfo`, which takes "[ERR]" on the output for a failure too.
  unfoldable pub exec_redis_trib_info :
      String → ObjectReference → M (Result Error (List RedisTribInfo))
  exec_redis_trib_info exist_ip pod = do
    reply ← call (executed pod (trib_info exist_ip)) (λ t. env.exec t pod (trib_info exist_ip))
    pure (
        if has_failed reply || contains reply.stdout "[ERR]"
        then err (command_failed pod (trib_info exist_ip) reply)
        else ok (parse_trib reply.stdout))

  -- A command of which only the failure counts.
  unfoldable pub do_command : ObjectReference → Command → M (Result Error (Unit {0}))
  unfolding run_command
  do_command pod command = do
    r ← run_command pod command
    on_error r (λ e. pure (err e)) λ _. pure (ok tt)

  -- `createCluster`
  unfoldable pub create_cluster : List String → ObjectReference → M (Result Error (Unit {0}))
  unfolding do_command
  create_cluster master_ips pod = do_command pod (trib_create (map with_port master_ips))

  -- The loop of `addSlaveToClusterMaster`; `first` is `masterInstanceIps[0]`.
  unfoldable pub add_slaves :
      List String
      → List String
      → List String
      → List String
      → ObjectReference
      → M (Result Error (Unit {0}))
  unfolding wait_redis_status_ok do_command
  add_slaves all_masters (slave ∷ slaves) (master ∷ masters) (node_id ∷ node_ids) pod = do
    first ← lift (deref (get_elem? all_masters 0))
    waited ← wait_redis_status_ok first pod
    on_error waited (λ e. pure (err e))
        λ _. do
          added ← do_command pod (add_slave node_id slave master)
          on_error added (λ e. pure (err e)) λ _. add_slaves all_masters slaves masters node_ids pod
  add_slaves all_masters _ _ _ pod = pure (ok tt)

  -- `addSlaveToClusterMaster`
  unfoldable pub add_slave_to_cluster_master :
      List String → List String → List String → ObjectReference → M (Result Error (Unit {0}))
  unfolding add_slaves
  add_slave_to_cluster_master slave_ips master_ips node_ids pod =
      if not (length slave_ips == length master_ips) || not (length master_ips == length node_ids)
      then pure (err (lengths_differ slave_ips master_ips node_ids))
      else add_slaves master_ips slave_ips master_ips node_ids pod

  -- `addMasterNodeToRedisCluster`
  unfoldable pub add_master_node_to_redis_cluster :
      List String → String → ObjectReference → M (Result Error (Unit {0}))
  unfolding wait_redis_status_ok do_command
  add_master_node_to_redis_cluster [] exist_ip pod = pure (ok tt)
  add_master_node_to_redis_cluster (ip ∷ ips) exist_ip pod = do
    waited ← wait_redis_status_ok exist_ip pod
    on_error waited (λ e. pure (err e))
        λ _. do
          added ← do_command pod (add_master ip exist_ip)
          on_error added (λ e. pure (err e)) λ _. add_master_node_to_redis_cluster ips exist_ip pod

  -- `rebalanceRedisClusterSlotsToMasterNode`
  unfoldable pub rebalance_slots : String → ObjectReference → String → M (Result Error (Unit {0}))
  unfolding wait_redis_status_ok do_command
  rebalance_slots exist_ip pod crd_pipeline = do
    waited ← wait_redis_status_ok exist_ip pod
    on_error waited (λ e. pure (err e))
        λ _. do_command pod (rebalance (pipeline_of crd_pipeline) exist_ip)

  -- The loop of `reshareRedisClusterSlotsToMasterNode`: `strategies[i]` for the i-th new master.
  unfoldable pub reshard_each :
      List SlotsAssignStrategy
      → String
      → String
      → ObjectReference
      → List String
      → M (Result Error (Unit {0}))
  unfolding wait_redis_status_ok do_command
  reshard_each strategies pipeline exist_ip pod [] = pure (ok tt)
  reshard_each strategies pipeline exist_ip pod (node_id ∷ node_ids) = do
    waited ← wait_redis_status_ok exist_ip pod
    on_error waited (λ e. pure (err e))
        λ _. do
          strategy ← lift (deref (get_elem? strategies 0))
          slots ← lift (deref strategy.slots)
          moved ← do_command pod (reshard strategy.from_replicas node_id slots pipeline exist_ip)
          on_error moved (λ e. pure (err e))
              λ _. reshard_each (drop 1 strategies) pipeline exist_ip pod node_ids

  -- `reshareRedisClusterSlotsToMasterNode`
  unfoldable pub reshard_slots :
      RedisClusterUpdateStrategy
      → String
      → ObjectReference
      → List String
      → M (Result Error (Unit {0}))
  unfolding reshard_each
  reshard_slots strategy exist_ip pod node_ids =
      reshard_each strategy.assign_strategies (pipeline_of strategy.pipeline) exist_ip pod node_ids
