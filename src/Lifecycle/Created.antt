-- ===== src/Lifecycle/Created.antt =====
-- The creation of a cluster (`createAndInitRedisCluster`, sync_rediscluster.go) in surroundings where
-- nothing goes wrong, to the write of the phase Running.
use middleware_operator_mana.Assign.{assign_master_slave_ip}
use middleware_operator_mana.Base.{
  ℕ, ◌≡◌, ◌≢◌, sym, ap, ◌∙◌, List, ◌∷◌, String, some, length, sort_stable, Perm,
}
use middleware_operator_mana.Commands.Joining.{Calm, slave_calls}
use middleware_operator_mana.Commands.Parse.{parse_nodes}
use middleware_operator_mana.Errors.{ok, cluster_nodes, trib_check}
use middleware_operator_mana.Lifecycle.Create.{create_and_init}
use middleware_operator_mana.Lifecycle.Endpoints.{by_pod_name}
use middleware_operator_mana.Lifecycle.Formed.{create_and_init-forms, sort_endpoints-addressed}
use middleware_operator_mana.Lifecycle.Named.{
  AllNamed, Other, AllNamed-length, node_ids_of-AllNamed,
}
use middleware_operator_mana.Lifecycle.Order.{nodes_calls, created_calls, joined_calls}
use middleware_operator_mana.Lifecycle.Ready.{mark_running}
use middleware_operator_mana.Lifecycle.Running.{
  addressed, looking, status_calls, mark_running-writes,
}
use middleware_operator_mana.Outcome.{done}
use middleware_operator_mana.Status.Nodes.{Described}
use middleware_operator_mana.Types.{
  EndpointAddress, EndpointSubset, Endpoints, Node, ObjectReference, RedisCluster, RedisNodeInfo,
  RedisClusterCondition,
}
use middleware_operator_mana.Types.Objects.{StatefulSet}
use middleware_operator_mana.Types.Phase
use middleware_operator_mana.World.{Env, Trace, executed, got_endpoints, updated_cluster}

-- The masters form the cluster, the nodes are looked at, each slave joins its master by the master's id,
-- and the nodes are looked at again, in the namespace of the custom resource.
abbrev pub formed_calls :
    ObjectReference → String → String → List String → List String → List String → Trace → Trace
formed_calls pod namespace m masters slaves ids t =
    nodes_calls (record pod { namespace = namespace }) m
      (slave_calls pod m slaves (m ∷ masters) ids
        (nodes_calls pod m (created_calls pod (m ∷ masters) t)))

module _ (env : Env) (rc : RedisCluster) (found : Endpoints) (addresses : List EndpointAddress)
    (others : List EndpointSubset) (first : EndpointAddress) (rest : List EndpointAddress)
    (m : String) (masters slaves ids : List String) (members : Trace → List RedisNodeInfo)
    (nodes : List Node) (sts : StatefulSet) (n : ℕ) (t : Trace)
    (got : env.get_endpoints t rc.namespace rc.name ≡ ok found)
    (subsets : found.subsets ≡ some (record { addresses = addresses } ∷ others))
    (ready : rc.spec.replicas ≡ some (length addresses))
    (sorted : sort_stable by_pod_name addresses ≡ first ∷ rest)
    (assigned : assign_master_slave_ip (first ∷ rest) ≡ done (ok (m ∷ masters, slaves)))
    (paired : length slaves ≡ length (m ∷ masters)) (calm : (pod : ObjectReference) → Calm env pod)
    (shows : (t : Trace) (pod : ObjectReference) (ip : String)
      → parse_nodes (env.exec t pod (cluster_nodes ip)).stdout ≡ done (members t))
    (nodes_listed : (t : Trace) → env.list_nodes t ≡ ok nodes)
    (stored : (t : Trace) → env.get_stateful_set t rc.namespace rc.name ≡ ok sts)
    (replicas : sts.spec.replicas ≡ some n) (fresh : rc.status.phase ≢ Phase.running) where
  abbrev created : Trace
  created = created_calls first.target (m ∷ masters) (got_endpoints rc.namespace rc.name ∷ t)

  abbrev formed : Trace
  formed =
      formed_calls first.target rc.namespace m masters slaves ids
        (got_endpoints rc.namespace rc.name ∷ t)

  -- Let the endpoints name as many pods as replicas are wanted when first looked at, with `first` the
  -- first by pod name, and let the roles found for them be the masters `m ∷ masters` and as many slaves.
  -- Let no command fail in its pod and no check find errors, and let each look at the nodes show the
  -- members then: right after the masters formed the cluster as many as there are slaves, each master
  -- with its id of `ids`. Let the API server answer for the set and the nodes and store the status, and
  -- let the phase not be Running yet. Then the creation waits no longer: it forms the cluster of the
  -- masters, looks at the nodes, lets each slave join its master by the master's id, behind a check
  -- each, looks at the nodes again, and writes the phase Running; what it writes has the replicas of the
  -- set and one condition for each member, as a last look right before shows them.
  pub create_and_init-order :
      length (members (executed first.target (trib_check m) ∷ created)) ≡ length slaves
      → AllNamed Other (m ∷ masters) ids (members (executed first.target (trib_check m) ∷ created))
      → (changed : RedisCluster) × (cs : List RedisClusterCondition) × (create_and_init env rc t ≡ (
        done (ok tt),
        updated_cluster changed
            ∷ status_calls rc.namespace rc.name first
                (members (looking rc.namespace rc.name first formed))
                formed,
      ))
        × (changed.status.phase ≡ Phase.running)
        × (changed.status.replicas ≡ n)
        × Perm changed.status.conditions cs
        × Described nodes
            (addressed found (first ∷ rest) others)
            (first ∷ rest)
            (members (looking rc.namespace rc.name first formed))
            cs
  create_and_init-order seen named =
      let pod' = record first.target { namespace = rc.namespace } in
      let infos = members (executed first.target (trib_check m) ∷ created) in
      let is_found = node_ids_of-AllNamed (m ∷ masters) ids infos named in
      let joined = joined_calls first.target m slaves (m ∷ masters) infos created in
      let known = sym (ap length is_found ∙ AllNamed-length Other (m ∷ masters) ids infos named) in
      let forms =
        create_and_init-forms env rc found addresses others first rest m masters slaves infos
          (members (executed pod' (trib_check m) ∷ joined)) t got subsets ready sorted assigned
          (calm first.target) (calm pod') (shows _ first.target m) (shows _ pod' m) seen paired
          known in
      let (changed, cs, ran, p, r, perm, d) =
        mark_running-writes env found first rest others
          (members (looking rc.namespace rc.name first formed)) nodes (calm first.target)
          nodes_listed rc sts n replicas formed (stored formed) (shows _ first.target first.ip)
          fresh in
      let end = sort_endpoints-addressed found addresses (first ∷ rest) others subsets sorted in
      (
        changed,
        cs,
        forms
            ∙ ap
                (λ l. mark_running env rc l (
                  nodes_calls pod' m
                    (joined_calls first.target m slaves (m ∷ masters) infos created)))
                end
            ∙ ap
                (λ l. mark_running env rc (addressed found (first ∷ rest) others) (
                  nodes_calls pod' m (
                    slave_calls first.target m slaves (m ∷ masters) l
                      (nodes_calls first.target m created))))
                is_found
            ∙ ran,
        p,
        r,
        perm,
        d,
      )
