-- ===== src/Sync/Scaling.antt =====
-- A `sync` (redis_operator.go) of a custom resource that wants more replicas than its stateful set has,
-- in surroundings where nothing goes wrong: from the look into the caches to the write of the phase
-- Running.
use middleware_operator_mana.Base.{
  ◌++◌, ℕ, ◌-◌, ◌/◌, ◌<◌, ◌≤◌, ◌≡◌, ◌≢◌, refl, ap, ◌∙◌, inl, List, ◌∷◌, String, eq_iff, none, some,
  length, sort_stable, Perm,
}
use middleware_operator_mana.Commands.Joining.{Calm}
use middleware_operator_mana.Commands.Parse.{parse_nodes}
use middleware_operator_mana.Compose.{build_will_add}
use middleware_operator_mana.Errors.{ok, cluster_nodes, trib_check}
use middleware_operator_mana.Lifecycle.Endpoints.{by_pod_name}
use middleware_operator_mana.Lifecycle.Running.{addressed, looking, status_calls}
use middleware_operator_mana.Lifecycle.Upgrade.{upgrade_redis_cluster}
use middleware_operator_mana.Lifecycle.Named.{AllNamed, Apart}
use middleware_operator_mana.Lifecycle.Scaled.{grown_calls}
use middleware_operator_mana.Lifecycle.Upgraded.{
  planning_calls, joining_calls, upgrade_redis_cluster-starts, upgrade_by-Running,
}
use middleware_operator_mana.Outcome.{done}
use middleware_operator_mana.Status.Moves.{moved, update_status-moves}
use middleware_operator_mana.Status.Nodes.{Described}
use middleware_operator_mana.Sync.Core.{
  do_scale, do_upgrade, handle, get_stateful_set_for, find_stateful_set, sync,
}
use middleware_operator_mana.Sync.Creating.{with_pods, build_stateful_set-keeps}
use middleware_operator_mana.Sync.Decisions.{handle_flag_cases}
use middleware_operator_mana.Types.{
  EndpointAddress, EndpointSubset, Endpoints, Node, ObjectReference, RedisCluster, RedisNodeInfo,
  RedisClusterCondition,
}
use middleware_operator_mana.Types.Objects.{StatefulSet}
use middleware_operator_mana.Types.Phase
use middleware_operator_mana.Types.Template.{RedisClusterPodTemplateSpec}
use middleware_operator_mana.World.{
  Event, Env, Trace, updated_cluster, updated_stateful_set, cached_cluster, cached_stateful_sets,
  executed, got_endpoints, got_stateful_set,
}
use middleware_operator_mana.Sync.Strategy.{Strategic, Strategic-accepted, Strategic-Hands}

-- The look into the caches.
abbrev looked_calls : String → String → RedisCluster → Trace → Trace
looked_calls namespace name rc t =
    cached_stateful_sets rc.namespace ∷ cached_cluster namespace name ∷ t

-- The calls before the old endpoints are looked at, the latest first; `changed` is what is written.
abbrev pub announced_calls : String → String → RedisCluster → RedisCluster → Trace → Trace
announced_calls namespace name rc changed t =
    updated_cluster changed
    ∷ got_stateful_set rc.namespace rc.name
    ∷ looked_calls namespace name rc t

-- The calls before the new pods are waited for.
abbrev pub enlarged_calls :
    String → String → RedisCluster → RedisCluster → StatefulSet → Trace → Trace
enlarged_calls namespace name rc changed set t =
    updated_stateful_set set
    ∷ got_endpoints rc.namespace rc.name
    ∷ announced_calls namespace name rc changed t

scaling-ne-upgrading : Phase.scaling ≢ Phase.upgrading
scaling-ne-upgrading e = cc ((eq_iff Phase.scaling Phase.upgrading).1 e)

module _ (env : Env) (namespace name : String) (rc : RedisCluster)
    (tpl : RedisClusterPodTemplateSpec) (more : List RedisClusterPodTemplateSpec)
    (sets : List StatefulSet) (sts : StatefulSet) (current wanted : ℕ)
    (set_at : Trace → StatefulSet) (size : Trace → ℕ) (t : Trace)
    (cached : env.cached_cluster t namespace name ≡ ok rc)
    (listed : (t : Trace) → env.cached_stateful_sets t rc.namespace ≡ ok sets)
    (owned : find_stateful_set rc sets ≡ some sts) (reports : sts.status_replicas ≢ 0)
    (kept : sts.deletion_timestamp ≡ none) (has : sts.spec.replicas ≡ some current)
    (wants : rc.spec.replicas ≡ some wanted) (grows : current < wanted)
    (strategic : Strategic rc.spec.update_strategy (wanted - current))
    (templates : rc.spec.pod ≡ tpl ∷ more) (new : rc.status.phase ≢ Phase.scaling)
    (updates : (t : Trace) (c : RedisCluster) → env.update_cluster t c ≡ ok c)
    (sizes : (t : Trace) (s : StatefulSet) → env.update_stateful_set t s ≡ ok s)
    (stored : (t : Trace) → env.get_stateful_set t rc.namespace rc.name ≡ ok (set_at t))
    (replicas : (t : Trace) → (set_at t).spec.replicas ≡ some (size t)) where
  abbrev looked : Trace
  looked = looked_calls namespace name rc t

  abbrev in_scaling : RedisCluster
  in_scaling = moved Phase.scaling (size looked) rc

  abbrev announced : Trace
  announced = announced_calls namespace name rc in_scaling t

  abbrev enlarged : StatefulSet → Trace
  enlarged set = enlarged_calls namespace name rc in_scaling set t

  do_upgrade-scales :
      (t : Trace) → do_upgrade env namespace name current rc t ≡ do_scale env namespace name rc t
  unfolding do_upgrade
  do_upgrade-scales t = simp (wants, Strategic-accepted rc (wanted - current) strategic)

  do_scale-upgrades :
      (old : Endpoints)
      → env.get_endpoints announced rc.namespace rc.name ≡ ok old
      → (set : StatefulSet) × (pods : List RedisClusterPodTemplateSpec) × (do_scale env namespace
            name rc looked
          ≡ upgrade_redis_cluster env (with_pods in_scaling pods) old (enlarged set))
  unfolding do_scale
  do_scale-upgrades old got =
      let (set, pods, built) =
        build_stateful_set-keeps namespace name in_scaling tpl more templates in
      (
        set,
        pods,
        rw
            (
              update_status-moves env rc (set_at looked) (size looked) looked (stored looked)
                  (replicas looked) Phase.scaling (inl refl) new (updates _ in_scaling),
              got,
              built,
              sizes (got_endpoints rc.namespace rc.name ∷ announced) set,
            )
            refl,
      )

  sync-scales :
      (old : Endpoints)
      → env.get_endpoints announced rc.namespace rc.name ≡ ok old
      → (set : StatefulSet) × (pods : List RedisClusterPodTemplateSpec) × (sync env namespace name t
          ≡ upgrade_redis_cluster env (with_pods in_scaling pods) old (enlarged set))
  unfolding sync get_stateful_set_for handle
  sync-scales old got =
      let (_, _, decided) = handle_flag_cases rc sts wanted current wants has in
      let (set, pods, upgrades) = do_scale-upgrades old got in
      (
        set,
        pods,
        rw
            (
              cached,
              listed (cached_cluster namespace name ∷ t),
              owned,
              decided.1 (reports, grows, kept),
            )
            (do_upgrade-scales looked ∙ upgrades),
      )

  module _ (old found : Endpoints) (first o : EndpointAddress)
      (rest olds before addresses : List EndpointAddress) (others others' : List EndpointSubset)
      (m : String) (masters slaves parents : List String) (members : Trace → List RedisNodeInfo)
      (nodes : List Node) (named_before : env.get_endpoints announced rc.namespace rc.name ≡ ok old)
      (named_after : (set : StatefulSet)
        → env.get_endpoints (enlarged set) rc.namespace rc.name ≡ ok found)
      (subsets' : old.subsets ≡ some (record { addresses = before } ∷ others'))
      (sorted' : sort_stable by_pod_name before ≡ o ∷ olds)
      (subsets : found.subsets ≡ some (record { addresses = addresses } ∷ others))
      (sorted : sort_stable by_pod_name addresses ≡ first ∷ rest) (full : wanted ≡ length addresses)
      (calm : (pod : ObjectReference) → Calm env pod)
      (shows : (t : Trace) (pod : ObjectReference) (ip : String)
        → parse_nodes (env.exec t pod (cluster_nodes ip)).stdout ≡ done (members t))
      (nodes_listed : (t : Trace) → env.list_nodes t ≡ ok nodes)
      (planned : (set : StatefulSet) (c : RedisCluster)
        → build_will_add
            (members (executed first.target (trib_check o.ip) ∷ planning_calls rc c (enlarged set)))
            (addressed found (first ∷ rest) others)
          ≡ done
              (ok (record { master_ips = m ∷ masters; slave_ips = slaves; parent_ips = parents })))
      (ids : List String)
      (named : (set : StatefulSet) (c : RedisCluster)
        → AllNamed Apart (m ∷ masters) ids (
            members (
              executed first.target (trib_check o.ip)
              ∷ joining_calls first o (m ∷ masters) (planning_calls rc c (enlarged set)))))
      (paired : length slaves ≡ length (m ∷ masters))
      (few : length (m ∷ masters) ≤ (wanted - current) / 2) where
    -- The history behind the joins of a set `set` and a custom resource that was written as `c`, and what
    -- was called `after` them.
    abbrev grown : StatefulSet → RedisCluster → List Event → Trace
    grown set c after =
        after
        ++ grown_calls first.target o.ip m masters slaves ids (planning_calls rc c (enlarged set))

    -- Let the caches have the custom resource, with a template and in another phase than Scaling, and its
    -- stateful set, which reports replicas, is not being deleted and has fewer replicas than are wanted;
    -- let the strategy be to rebalance, or to give slots to each second one of the new instances. Let the
    -- API server store whatever is sent to it, and name the old pods before the update of the set and as
    -- many as are wanted behind it; let no command fail in a pod, no check find errors, and each look at
    -- the nodes show the members of the cluster. Let the roles found for the new pods be one slave for
    -- each new master, at most half of them masters. Let each new master be seen once it has joined: the
    -- first line whose address contains its IP is its own, with its id of `ids`. Then the sync returns
    -- without an error. It writes Scaling, updates the set, waits for the pods, writes Upgrading, lets the
    -- new masters join, and their slaves by the masters' ids; after that come the slots, the looks for
    -- the status, at the set, the nodes behind a check and the nodes of Kubernetes, and the write of the
    -- phase Running, with the replicas of the set and one condition for each member as these looks find
    -- them.
    pub sync-Scaled :
        (set : StatefulSet) × (c changed : RedisCluster) × (cs : List RedisClusterCondition)
        × (after : List Event) × (sync env namespace name t ≡ (
          done (ok tt),
          updated_cluster changed
              ∷ status_calls rc.namespace rc.name first
                  (members (looking rc.namespace rc.name first (grown set c after)))
                  (grown set c after),
        ))
        × (c.status.phase ≡ Phase.upgrading)
        × (changed.status.phase ≡ Phase.running)
        × (changed.status.replicas ≡ size (grown set c after))
        × Perm changed.status.conditions cs
        × Described nodes
            (addressed found (first ∷ rest) others)
            (first ∷ rest)
            (members (looking rc.namespace rc.name first (grown set c after)))
            cs
    sync-Scaled =
        let (set, pods, started) = sync-scales old named_before in
        let object = with_pods in_scaling pods in
        let waited =
          upgrade_redis_cluster-starts env object old found first o rest olds before addresses
            others others' m masters slaves parents members nodes set_at size (enlarged set) calm
            shows nodes_listed updates stored replicas subsets' sorted' (named_after set) subsets
            (wants ∙ ap some full) sorted scaling-ne-upgrading in
        let (changed, cs, after, ran, p, r, perm, d) =
          upgrade_by-Running env object old found first o rest olds before addresses others others'
            m masters slaves parents members nodes set_at size (enlarged set) calm shows
            nodes_listed updates stored replicas ids (planned set _) (named set _) paired
            (Strategic-Hands rc.spec.update_strategy (wanted - current) _ few strategic) in
        (
          set,
          moved Phase.upgrading (size (got_endpoints rc.namespace rc.name ∷ enlarged set)) object,
          changed,
          cs,
          after,
          started ∙ waited ∙ ran,
          refl,
          p,
          r,
          perm,
          d,
        )
