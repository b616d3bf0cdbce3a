-- ===== src/Lifecycle/Upgraded.antt =====
-- The upgrade of a cluster (`upgradeRedisCluster`, sync_rediscluster.go) in surroundings where nothing
-- goes wrong: from the wait for the pods to the write of the phase Running.
use middleware_operator_mana.Base.{
  ◌++◌, ap, ◌∙◌, subst, String, List, length, ℕ, ◌≡◌, ◌≢◌, refl, inr, List, ◌∷◌, String, eq_iff,
  some, length, sort_stable, Perm,
}
use middleware_operator_mana.Commands.Joining.{Calm, master_calls}
use middleware_operator_mana.Commands.Parse.{parse_nodes}
use middleware_operator_mana.Compose.{build_will_add}
use middleware_operator_mana.Errors.{ok, cluster_nodes, trib_check}
use middleware_operator_mana.Lifecycle.Endpoints.{by_pod_name, node_ids_containing}
use middleware_operator_mana.Lifecycle.Formed.{
  check_pods_ready-ready, has_address, sort_endpoints-addressed,
}
use middleware_operator_mana.Lifecycle.Order.{nodes_calls}
use middleware_operator_mana.Lifecycle.Running.{
  addressed, looking, status_calls, mark_running-writes,
}
use middleware_operator_mana.Lifecycle.Scaled.{Hands, grown_calls, upgrade_by-order}
use middleware_operator_mana.Lifecycle.Named.{
  AllNamed, Apart, AllNamed-length, node_ids_containing-AllNamed,
}
use middleware_operator_mana.Lifecycle.Upgrade.{upgrade_by, upgrade_redis_cluster}
use middleware_operator_mana.Outcome.{done}
use middleware_operator_mana.Status.Moves.{moved, update_status-moves}
use middleware_operator_mana.Status.Nodes.{Described}
use middleware_operator_mana.Types.{
  EndpointAddress, EndpointSubset, Endpoints, Node, ObjectReference, RedisCluster, RedisNodeInfo,
  RedisClusterCondition,
}
use middleware_operator_mana.Types.Objects.{StatefulSet}
use middleware_operator_mana.Types.Phase
use middleware_operator_mana.World.{
  Event, Env, Trace, updated_cluster, executed, got_endpoints, got_stateful_set,
}

-- The calls of an upgrade before the roles are found, the latest first; `changed` is what is written.
abbrev pub planning_calls : RedisCluster → RedisCluster → Trace → Trace
planning_calls rc changed t =
    updated_cluster changed
    ∷ got_stateful_set rc.namespace rc.name
    ∷ got_endpoints rc.namespace rc.name
    ∷ t

-- The calls from then on before the new nodes are looked at.
abbrev pub joining_calls : EndpointAddress → EndpointAddress → List String → Trace → Trace
joining_calls first o masters t =
    master_calls first.target o.ip masters (nodes_calls first.target o.ip t)

upgrading-ne-running : Phase.upgrading ≢ Phase.running
upgrading-ne-running e = cc ((eq_iff Phase.upgrading Phase.running).1 e)

module _ (env : Env) (rc : RedisCluster) (old found : Endpoints) (first o : EndpointAddress)
    (rest olds before addresses : List EndpointAddress) (others others' : List EndpointSubset)
    (m : String) (masters slaves parents : List String) (members : Trace → List RedisNodeInfo)
    (nodes : List Node) (set_at : Trace → StatefulSet) (size : Trace → ℕ) (t : Trace)
    (calm : (pod : ObjectReference) → Calm env pod)
    (shows : (t : Trace) (pod : ObjectReference) (ip : String)
      → parse_nodes (env.exec t pod (cluster_nodes ip)).stdout ≡ done (members t))
    (nodes_listed : (t : Trace) → env.list_nodes t ≡ ok nodes)
    (updates : (t : Trace) (c : RedisCluster) → env.update_cluster t c ≡ ok c)
    (stored : (t : Trace) → env.get_stateful_set t rc.namespace rc.name ≡ ok (set_at t))
    (replicas : (t : Trace) → (set_at t).spec.replicas ≡ some (size t)) where
  -- The custom resource with the phase Upgrading.
  abbrev in_upgrade : RedisCluster
  in_upgrade = moved Phase.upgrading (size (got_endpoints rc.namespace rc.name ∷ t)) rc

  abbrev planning : Trace
  planning = planning_calls rc in_upgrade t

  abbrev joining : Trace
  joining = joining_calls first o (m ∷ masters) planning

  abbrev now : Endpoints
  now = addressed found (first ∷ rest) others

  -- The pods are waited for, the phase Upgrading is written, and the strategy is followed.
  pub upgrade_redis_cluster-starts :
      old.subsets ≡ some (record { addresses = before } ∷ others')
      → sort_stable by_pod_name before ≡ o ∷ olds
      → env.get_endpoints t rc.namespace rc.name ≡ ok found
      → found.subsets ≡ some (record { addresses = addresses } ∷ others)
      → rc.spec.replicas ≡ some (length addresses)
      → sort_stable by_pod_name addresses ≡ first ∷ rest
      → rc.status.phase ≢ Phase.upgrading
      → upgrade_redis_cluster env rc old t
        ≡ upgrade_by env rc.spec.update_strategy.type in_upgrade now
            (addressed old (o ∷ olds) others')
            planning
  unfolding upgrade_redis_cluster
  upgrade_redis_cluster-starts subsets' sorted' got subsets ready sorted fresh =
      let looked = got_endpoints rc.namespace rc.name ∷ t in
      let sets = got_stateful_set rc.namespace rc.name ∷ looked in
      rw
        (
          has_address env old before others' o olds subsets' sorted',
          check_pods_ready-ready env rc found addresses others t got subsets ready,
          update_status-moves env rc (set_at looked) (size looked) looked (stored looked)
              (replicas looked) Phase.upgrading (inr refl) fresh (updates sets in_upgrade),
          sort_endpoints-addressed found addresses (first ∷ rest) others subsets sorted,
          sort_endpoints-addressed old before (o ∷ olds) others' subsets' sorted',
        )
        refl

  -- The history behind the joins, by the masters' ids, and what was called `after` them.
  abbrev grown : List String → List Event → Trace
  grown ids after = after ++ grown_calls first.target o.ip m masters slaves ids planning

  -- The rest of the upgrade goes through to the write of Running.
  abbrev Ends : List String → Type 0
  Ends ids =
      (changed : RedisCluster) × (cs : List RedisClusterCondition) × (after : List Event)
      × (upgrade_by env rc.spec.update_strategy.type in_upgrade now
            (addressed old (o ∷ olds) others') planning
          ≡ (
            done (ok tt),
            updated_cluster changed
                ∷ status_calls rc.namespace rc.name first
                    (members (looking rc.namespace rc.name first (grown ids after)))
                    (grown ids after),
          ))
      × (changed.status.phase ≡ Phase.running)
      × (changed.status.replicas ≡ size (grown ids after))
      × Perm changed.status.conditions cs
      × Described nodes now (first ∷ rest)
          (members (looking rc.namespace rc.name first (grown ids after))) cs

  -- The roles are found, the new masters are named once they have joined, and slots are handed out.
  pub upgrade_by-Running :
      (ids : List String)
      → build_will_add (members (executed first.target (trib_check o.ip) ∷ planning)) now
        ≡ done (ok (record { master_ips = m ∷ masters; slave_ips = slaves; parent_ips = parents }))
      → AllNamed Apart
          (m ∷ masters)
          ids
          (members (executed first.target (trib_check o.ip) ∷ joining))
      → length slaves ≡ length (m ∷ masters)
      → Hands rc.spec.update_strategy (length (m ∷ masters))
      → Ends ids
  upgrade_by-Running ids planned named paired hands =
      let infos = members (executed first.target (trib_check o.ip) ∷ joining) in
      let found_ids = node_ids_containing (m ∷ masters) infos in
      let is_found = node_ids_containing-AllNamed (m ∷ masters) ids infos named in
      let known = ap length is_found ∙ AllNamed-length Apart (m ∷ masters) ids infos named in
      let (pod, handed, ends) =
        upgrade_by-order env found old first o rest olds others others' m masters slaves parents
          (members (executed first.target (trib_check o.ip) ∷ planning)) infos planning calm
          (shows _ first.target o.ip) (shows _ first.target o.ip) planned known paired in_upgrade
          (λ pod t. members (executed pod (trib_check o.ip) ∷ t)) (λ t pod. shows _ pod o.ip)
          hands in
      let after = executed pod (cluster_nodes o.ip) ∷ executed pod (trib_check o.ip) ∷ handed in
      let final = grown found_ids after in
      let seen = members (looking rc.namespace rc.name first final) in
      let (changed, cs, ran, p, r, perm, d) =
        mark_running-writes env found first rest others seen nodes (calm first.target) nodes_listed
          in_upgrade (set_at final) (size final) (replicas final) final (stored final)
          (shows _ first.target first.ip) upgrading-ne-running in
      subst Ends is_found (
        changed,
        cs,
        after,
        ends (updated_cluster changed ∷ status_calls rc.namespace rc.name first seen final) ran,
        p,
        r,
        perm,
        d,
      )
