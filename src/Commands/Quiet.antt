-- ===== src/Commands/Quiet.antt =====
-- Which calls the commands of `Commands` make.
use middleware_operator_mana.Base.{List, [], ◌∷◌, String, get_elem?, drop}
use middleware_operator_mana.Commands.{
  run_command, exec_cluster_info, exec_check_redis_cluster, status_ok, wait_redis_status_ok,
  exec_cluster_nodes, exec_redis_trib_info, do_command, create_cluster, add_slaves,
  add_slave_to_cluster_master, add_master_node_to_redis_cluster, rebalance_slots, reshard_each,
  reshard_slots,
}
use middleware_operator_mana.Errors.{
  Command, cluster_info, cluster_nodes, trib_info, trib_check, trib_create,
}
use middleware_operator_mana.Types.{
  ObjectReference, SlotsAssignStrategy, RedisClusterUpdateStrategy,
}
use middleware_operator_mana.World.{
  Env, Event, executed, updated_cluster, created_service, created_stateful_set,
  updated_stateful_set, dropped_cluster, lift,
}
use middleware_operator_mana.Outcome.{deref}
use middleware_operator_mana.World.Emits.{Emits, Emits-bind, Emits-lift, emits_rules}

-- The commands that only look at a cluster.
abbrev pub Looks : Command → Type 0
Looks (cluster_info ip) = Unit
Looks (cluster_nodes ip) = Unit
Looks (trib_info ip) = Unit
Looks (trib_check ip) = Unit
Looks _ = ⊥

-- Those, and the ones that let an instance join a cluster or move its slots.
abbrev pub Grows : Command → Type 0
Grows (trib_create ips) = ⊥
Grows _ = Unit

-- Reads, writes of the status, and commands of `Allowed`: nothing is created or deleted, and no set is updated.
abbrev pub Tends : (Command → Type 0) → Event → Type 0
Tends Allowed (executed pod command) = Allowed command
Tends Allowed (created_service service) = ⊥
Tends Allowed (created_stateful_set sts) = ⊥
Tends Allowed (updated_stateful_set sts) = ⊥
Tends Allowed (dropped_cluster namespace name) = ⊥
Tends Allowed _ = Unit

-- Reads of the API server, of the caches and of the clock.
abbrev pub Reads : Event → Type 0
Reads (executed pod command) = ⊥
Reads (updated_cluster rc) = ⊥
Reads (created_service service) = ⊥
Reads (created_stateful_set sts) = ⊥
Reads (updated_stateful_set sts) = ⊥
Reads (dropped_cluster namespace name) = ⊥
Reads _ = Unit

pub Reads-Tends : (Allowed : Command → Type 0) (e : Event) → Reads e → Tends Allowed e
Reads-Tends Allowed (executed pod command) h = absurd h
Reads-Tends Allowed (created_service service) h = h
Reads-Tends Allowed (created_stateful_set sts) h = h
Reads-Tends Allowed (updated_stateful_set sts) h = h
Reads-Tends Allowed (dropped_cluster namespace name) h = h
Reads-Tends Allowed _ h = tt

module _ (env : Env) {P : Event → Type 0} where
  run_command-Emits :
      (pod : ObjectReference) (command : Command)
      → P (executed pod command)
      → Emits P (run_command env pod command)
  unfolding run_command
  run_command-Emits pod command h = search emits_rules

module _ (env : Env) {P : Event → Type 0}
    (look : (pod : ObjectReference) (command : Command)
      → Looks command
      → P (executed pod command)) where
  pub exec_cluster_info-Emits :
      (ip : String) (pod : ObjectReference) → Emits P (exec_cluster_info env ip pod)
  unfolding exec_cluster_info
  exec_cluster_info-Emits ip pod = search (emits_rules, run_command-Emits, look)

  exec_check_redis_cluster-Emits :
      (ip : String) (pod : ObjectReference) → Emits P (exec_check_redis_cluster env ip pod)
  unfolding exec_check_redis_cluster
  exec_check_redis_cluster-Emits ip pod = search (emits_rules, run_command-Emits, look)

  status_ok-Emits : (ip : String) (pod : ObjectReference) → Emits P (status_ok env ip pod)
  unfolding status_ok
  status_ok-Emits ip pod = search (emits_rules, exec_check_redis_cluster-Emits)

  pub wait_redis_status_ok-Emits :
      (ip : String) (pod : ObjectReference) → Emits P (wait_redis_status_ok env ip pod)
  unfolding wait_redis_status_ok
  wait_redis_status_ok-Emits ip pod = search (emits_rules, status_ok-Emits)

  pub exec_cluster_nodes-Emits :
      (ip : String) (pod : ObjectReference) → Emits P (exec_cluster_nodes env ip pod)
  unfolding exec_cluster_nodes
  exec_cluster_nodes-Emits ip pod =
      search (emits_rules, wait_redis_status_ok-Emits, run_command-Emits, look) depth 9

  pub exec_redis_trib_info-Emits :
      (ip : String) (pod : ObjectReference) → Emits P (exec_redis_trib_info env ip pod)
  unfolding exec_redis_trib_info
  exec_redis_trib_info-Emits ip pod = search (emits_rules, look)

module _ (env : Env) {P : Event → Type 0} where
  do_command-Emits :
      (pod : ObjectReference) (command : Command)
      → P (executed pod command)
      → Emits P (do_command env pod command)
  unfolding do_command
  do_command-Emits pod command h = search (emits_rules, run_command-Emits)

  pub create_cluster-Emits :
      (ips : List String) (pod : ObjectReference)
      → ((command : Command) → P (executed pod command))
      → Emits P (create_cluster env ips pod)
  unfolding create_cluster
  create_cluster-Emits ips pod h = do_command-Emits pod _ (h _)

pub Looks-Grows : (command : Command) → Looks command → Grows command
Looks-Grows (trib_create addresses) h = absurd h
Looks-Grows _ h = tt

pub look_grow :
    (P : Event → Type 0)
    → ((pod : ObjectReference) (command : Command) → Grows command → P (executed pod command))
    → (pod : ObjectReference) (command : Command) → Looks command
    → P (executed pod command)
look_grow P grow pod command h = grow pod command (Looks-Grows command h)

ruleset joining = (emits_rules, wait_redis_status_ok-Emits, do_command-Emits)

module _ (env : Env) {P : Event → Type 0}
    (grow : (pod : ObjectReference) (command : Command)
      → Grows command
      → P (executed pod command)) where
  add_slaves-Emits :
      (all slaves masters node_ids : List String) (pod : ObjectReference)
      → Emits P (add_slaves env all slaves masters node_ids pod)
  unfolding add_slaves
  add_slaves-Emits all [] masters node_ids pod = search emits_rules
  add_slaves-Emits all (s ∷ slaves) [] node_ids pod = search emits_rules
  add_slaves-Emits all (s ∷ slaves) (m ∷ masters) [] pod = search emits_rules
  add_slaves-Emits all (s ∷ slaves) (m ∷ masters) (n ∷ node_ids) pod =
      let rest = add_slaves-Emits all slaves masters node_ids pod in
      Emits-bind (lift (deref (get_elem? all 0))) _ (Emits-lift _)
        (λ first. search (joining, look_grow P grow, grow) depth 12)

  pub add_slave_to_cluster_master-Emits :
      (slaves masters node_ids : List String) (pod : ObjectReference)
      → Emits P (add_slave_to_cluster_master env slaves masters node_ids pod)
  unfolding add_slave_to_cluster_master
  add_slave_to_cluster_master-Emits slaves masters node_ids pod =
      search (emits_rules, add_slaves-Emits)

  pub add_master_node_to_redis_cluster-Emits :
      (ips : List String) (exist_ip : String) (pod : ObjectReference)
      → Emits P (add_master_node_to_redis_cluster env ips exist_ip pod)
  unfolding add_master_node_to_redis_cluster
  add_master_node_to_redis_cluster-Emits [] exist_ip pod = search emits_rules
  add_master_node_to_redis_cluster-Emits (ip ∷ ips) exist_ip pod =
      let rest = add_master_node_to_redis_cluster-Emits ips exist_ip pod in
      Emits-bind _ _ (wait_redis_status_ok-Emits env (look_grow P grow) exist_ip pod)
        (λ waited. search (joining, grow) depth 12)

  pub rebalance_slots-Emits :
      (exist_ip : String) (pod : ObjectReference) (pipeline : String)
      → Emits P (rebalance_slots env exist_ip pod pipeline)
  unfolding rebalance_slots
  rebalance_slots-Emits exist_ip pod pipeline = search (joining, look_grow P grow, grow) depth 12

  reshard_each-Emits :
      (strategies : List SlotsAssignStrategy) (pipeline exist_ip : String) (pod : ObjectReference)
      (node_ids : List String)
      → Emits P (reshard_each env strategies pipeline exist_ip pod node_ids)
  unfolding reshard_each
  reshard_each-Emits strategies pipeline exist_ip pod [] = search emits_rules
  reshard_each-Emits strategies pipeline exist_ip pod (n ∷ node_ids) =
      let rest = reshard_each-Emits (drop 1 strategies) pipeline exist_ip pod node_ids in
      Emits-bind _ _ (wait_redis_status_ok-Emits env (look_grow P grow) exist_ip pod)
        (λ waited. search (joining, grow) depth 12)

  pub reshard_slots-Emits :
      (strategy : RedisClusterUpdateStrategy) (exist_ip : String) (pod : ObjectReference)
      (node_ids : List String)
      → Emits P (reshard_slots env strategy exist_ip pod node_ids)
  unfolding reshard_slots
  reshard_slots-Emits strategy exist_ip pod node_ids = reshard_each-Emits _ _ _ _ _
