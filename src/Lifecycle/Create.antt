-- ===== src/Lifecycle/Create.antt =====
-- `createAndInitRedisCluster` (sync_rediscluster.go).
use middleware_operator_mana.Assign.{assign_master_slave_ip}
use middleware_operator_mana.Base.{not, List, String, none, if◌then◌else◌, ◌==◌, length, get_elem?}
use middleware_operator_mana.Commands.{
  exec_cluster_nodes, create_cluster, add_slave_to_cluster_master,
}
use middleware_operator_mana.Errors.{Result, err, Error, subsets_nil, cluster_status_error}
use middleware_operator_mana.Outcome.{deref}
use middleware_operator_mana.Types.{Endpoints, no_endpoints, ObjectReference, RedisCluster}
use middleware_operator_mana.Types.Phase.{RedisClusterPhase}
use middleware_operator_mana.Types.Phase
use middleware_operator_mana.World.{Env, M, ◌>>=◌, pure, lift, on_error}
use middleware_operator_mana.Lifecycle.Endpoints.{
  has_no_address, sort_endpoints, node_ids_of, assign_address,
}
use middleware_operator_mana.Lifecycle.Ready.{check_pods_ready, fail_with, mark_running}

module _ (env : Env) where
  -- `createAndInitRedisCluster` from the line where the masters and slaves are known.
  unfoldable pub init_cluster :
      RedisCluster
      → Endpoints
      → ObjectReference
      → List String
      → List String
      → M (Result Error (Unit {0}))
  unfolding fail_with mark_running node_ids_of create_cluster exec_cluster_nodes
      add_slave_to_cluster_master
  init_cluster rc endpoints pod master_ips slave_ips = do
    created ← create_cluster env master_ips pod
    on_error created (fail_with env rc endpoints Phase.failed) λ _. do
      first ← lift (deref (get_elem? master_ips 0))
      listed ← exec_cluster_nodes env first pod
      on_error listed (fail_with env rc endpoints Phase.failed) λ infos.
          if not (length infos == length slave_ips)
          then fail_with env rc endpoints Phase.failed cluster_status_error
          else (do
            added ←
                add_slave_to_cluster_master env slave_ips master_ips (node_ids_of master_ips infos)
                  pod
            on_error added (fail_with env rc endpoints Phase.failed) λ _. do
              checked ← exec_cluster_nodes env first (record pod { namespace = rc.namespace })
              on_error checked (fail_with env rc endpoints Phase.failed)
                  λ _. mark_running env rc endpoints)

  -- `createAndInitRedisCluster`
  unfoldable pub create_and_init : RedisCluster → M (Result Error (Unit {0}))
  unfolding check_pods_ready fail_with sort_endpoints has_no_address assign_address
      assign_master_slave_ip init_cluster
  create_and_init rc = do
    ready ← check_pods_ready env rc
    on_error ready (fail_with env rc no_endpoints Phase.failed) λ found.
        if has_no_address found then pure (err subsets_nil) else (do
          let endpoints = sort_endpoints found
          addressed ← lift (assign_address endpoints none)
          on_error addressed (fail_with env rc endpoints Phase.failed) λ addresses. do
            assigned ← lift (assign_master_slave_ip addresses)
            on_error assigned (fail_with env rc endpoints Phase.failed) λ ips. do
              first ← lift (deref (get_elem? addresses 0))
              init_cluster rc endpoints first.target ips.0 ips.1)
