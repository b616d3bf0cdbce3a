-- ===== src/Status/Conditions.antt =====
-- `buildRedisClusterStatusConditions` of sync_rediscluster.go: the conditions of a status, one for each
-- node of the cluster.
use middleware_operator_mana.Base.{
  ℕ, ◌||◌, List, [], ◌∷◌, String, str_eq, none, some, if◌then◌else◌, get_elem?,
}
use middleware_operator_mana.Build.Containers.{texts}
use middleware_operator_mana.Commands.{exec_cluster_nodes, with_port}
use middleware_operator_mana.Errors.{Result, ok, err, Error, api, subsets_nil}
use middleware_operator_mana.Outcome.{deref}
use middleware_operator_mana.Types.{
  EndpointAddress, Endpoints, InstanceInfo, Node, RedisClusterCondition, RedisNodeInfo,
  master_condition_type, slave_condition_type,
}
use middleware_operator_mana.World.{
  Env, listed_nodes, looked_at_clock, M, ◌>>=◌, pure, lift, call, on_error,
}

-- `nodeInfoMap`: a node's last internal IP; a node without one is no key, and reads as "".
unfoldable pub node_ip_from : String → List (String × String) → String
node_ip_from found [] = found
node_ip_from found ((type, address) ∷ rest) =
    node_ip_from (if str_eq type "InternalIP" then address else found) rest

unfoldable pub node_ip : String → String → List Node → String
unfolding node_ip_from
node_ip found name [] = found
node_ip found name (node ∷ nodes) =
    node_ip (if str_eq node.name name then node_ip_from found node.addresses else found) name nodes

unfoldable pub instance_info : List Node → Endpoints → EndpointAddress → InstanceInfo
unfolding node_ip
instance_info nodes endpoints addr = record {
  instance_ip = addr.ip;
  host_name = addr.target.name;
  host_ip = node_ip "" addr.node_name nodes;
  node_name = addr.node_name;
  domain_name = texts (
      addr.target.name ∷ "." ∷ endpoints.name ∷ "." ∷ addr.target.namespace ∷ ".svc.cluster.local"
      ∷ []);
}

abbrev pub no_instance : InstanceInfo
no_instance = record {
  instance_ip = "";
  host_name = "";
  host_ip = "";
  node_name = "";
  domain_name = "";
}

-- `instanceInfoMap[ip_port]`: the last address of that name wins; a missing key gives the zero value.
unfoldable pub instance_at :
    InstanceInfo → List Node → Endpoints → String → List EndpointAddress → InstanceInfo
unfolding instance_info
instance_at found nodes endpoints ip_port [] = found
instance_at found nodes endpoints ip_port (addr ∷ addrs) =
    instance_at
      (if str_eq (with_port addr.ip) ip_port then instance_info nodes endpoints addr else found)
      nodes endpoints ip_port addrs

-- The condition of one line of `cluster nodes`.
unfoldable pub condition_of : InstanceInfo → ℕ → RedisNodeInfo → RedisClusterCondition
condition_of instance now info = record {
  name = instance.host_name;
  type =
      if str_eq "master" info.flags
      then master_condition_type
      else if str_eq "slave" info.flags
      then slave_condition_type
      else "";
  instance_address = info.ip_port;
  node_id = info.node_id;
  master_node_id = info.master;
  domain_name = instance.domain_name;
  slots = info.slot;
  hostname = instance.node_name;
  host_ip = instance.host_ip;
  status = if str_eq "master" info.flags || str_eq "slave" info.flags then "True" else "False";
  last_transition_time = now;
  reason = "";
  message = "";
}

module _ (env : Env) where
  unfoldable pub conditions_from :
      List Node
      → Endpoints
      → List EndpointAddress
      → List RedisNodeInfo
      → M (List RedisClusterCondition)
  unfolding condition_of instance_at
  conditions_from nodes endpoints addresses [] = pure []
  conditions_from nodes endpoints addresses (info ∷ infos) = do
    now ← call looked_at_clock (λ t. env.clock t)
    rest ← conditions_from nodes endpoints addresses infos
    pure (
        condition_of (instance_at no_instance nodes endpoints info.ip_port addresses) now info
        ∷ rest)

  -- `buildRedisClusterStatusConditions`
  unfoldable pub build_conditions : Endpoints → M (Result Error (List RedisClusterCondition))
  unfolding conditions_from
  build_conditions endpoints = elim endpoints.subsets [
    | none ↦ pure (err subsets_nil)
    | some subsets ↦ do
      subset ← lift (deref (get_elem? subsets 0))
      first ← lift (deref (get_elem? subset.addresses 0))
      r ← exec_cluster_nodes env first.ip first.target
      on_error r (λ e. pure (err e))
          λ infos. do
            listed ← call listed_nodes (λ t. env.list_nodes t)
            on_error listed (λ e. pure (err (api e)))
                λ nodes. do
                  conditions ← conditions_from nodes endpoints subset.addresses infos
                  pure (ok conditions)
  ]
