-- ===== src/Sync/Creating.antt =====
-- A `sync` (redis_operator.go) of a custom resource without a stateful set, in surroundings where
-- nothing goes wrong: from the look into the caches to the write of the phase Running.
use middleware_operator_mana.Assign.{assign_master_slave_ip}
use middleware_operator_mana.Base.{
  ℕ, ◌≡◌, ◌≢◌, refl, sym, ◌∙◌, Bool-cases, inl, inr, List, [], ◌∷◌, String, eq_iff, none, some,
  length, sort_stable, Perm,
}
use middleware_operator_mana.Build.{build_service, build_stateful_set, stateful_set, pod_labels}
use middleware_operator_mana.Commands.Joining.{Calm}
use middleware_operator_mana.Commands.Parse.{parse_nodes}
use middleware_operator_mana.Errors.{ok, cluster_nodes, trib_check}
use middleware_operator_mana.Lifecycle.Create.{create_and_init}
use middleware_operator_mana.Lifecycle.Endpoints.{by_pod_name}
use middleware_operator_mana.Lifecycle.Created.{formed_calls, create_and_init-order}
use middleware_operator_mana.Lifecycle.Named.{AllNamed, Other}
use middleware_operator_mana.Lifecycle.Order.{created_calls}
use middleware_operator_mana.Lifecycle.Running.{addressed, looking, status_calls}
use middleware_operator_mana.Outcome.{done}
use middleware_operator_mana.Status.{
  temp_status, write_status, update_redis_cluster_status, status_of,
}
use middleware_operator_mana.Status.Nodes.{Described}
use middleware_operator_mana.Sync.Core.{
  create_objects, do_create, handle, handle_flag, get_stateful_set_for, find_stateful_set, sync,
}
use middleware_operator_mana.Types.{
  EndpointAddress, EndpointSubset, Endpoints, Node, ObjectReference, RedisCluster, RedisNodeInfo,
  RedisClusterCondition,
}
use middleware_operator_mana.Types.Objects.{Service, StatefulSet}
use middleware_operator_mana.Types.Phase
use middleware_operator_mana.Types.Template.{RedisClusterPodTemplateSpec}
use middleware_operator_mana.Util.Status.{deep_equal, deep_equal-timeless}
use middleware_operator_mana.World.{
  Env, Trace, updated_cluster, created_service, created_stateful_set, cached_cluster,
  cached_stateful_sets, executed, got_endpoints,
}

-- The custom resource with the phase Creating.
abbrev pub begun : RedisCluster → RedisCluster
begun rc = record rc { status = status_of 0 Phase.creating "" [] }

-- The custom resource with other templates.
abbrev pub with_pods : RedisCluster → List RedisClusterPodTemplateSpec → RedisCluster
with_pods rc pods = record rc { spec = record rc.spec { pod = pods } }

-- The set is built, and nothing but the templates of the custom resource may change.
pub build_stateful_set-keeps :
    (namespace name : String) (rc : RedisCluster) (tpl : RedisClusterPodTemplateSpec)
    (more : List RedisClusterPodTemplateSpec)
    → rc.spec.pod ≡ tpl ∷ more
    → (set : StatefulSet) × (pods : List RedisClusterPodTemplateSpec) × (build_stateful_set
          namespace name rc
        ≡ done (set, with_pods rc pods))
unfolding build_stateful_set
build_stateful_set-keeps namespace name rc tpl more e =
    let labelled : RedisClusterPodTemplateSpec = elim tpl.labels [
      | none ↦ tpl
      | some labels ↦ record tpl { labels = some (pod_labels rc namespace name tpl) }
    ] in
    (stateful_set rc namespace name tpl, labelled ∷ more, rw e refl)

creating-ne-running : Phase.creating ≢ Phase.running
creating-ne-running e = cc ((eq_iff Phase.creating Phase.running).1 e)

module _ (env : Env) where
  -- The phase Creating is written where it is new.
  begin :
      (rc : RedisCluster) (t : Trace)
      → env.update_cluster t (begun rc) ≡ ok (begun rc)
      → rc.status.phase ≢ Phase.creating
      → update_redis_cluster_status env rc none Phase.creating "" t ≡ (
        done (record { object = begun rc; returned = begun rc; error = none }),
        updated_cluster (begun rc) ∷ t,
      )
  unfolding update_redis_cluster_status temp_status write_status
  begin rc t stores fresh =
      elim (Bool-cases (deep_equal (status_of 0 Phase.creating "" []) rc.status)) [
        | inl e ↦
            let (_, _, same, _) =
              (deep_equal-timeless (status_of 0 Phase.creating "" []) rc.status).0 e in
            absurd (fresh (sym same))
        | inr e ↦ rw (e, stores) refl
      ]

module _ (env : Env) (namespace name : String) (rc : RedisCluster)
    (tpl : RedisClusterPodTemplateSpec) (more : List RedisClusterPodTemplateSpec)
    (found : Endpoints) (addresses : List EndpointAddress) (others : List EndpointSubset)
    (first : EndpointAddress) (rest : List EndpointAddress) (m : String)
    (masters slaves : List String) (members : Trace → List RedisNodeInfo) (nodes : List Node)
    (sets : List StatefulSet) (sts : StatefulSet) (n : ℕ) (t : Trace)
    (cached : env.cached_cluster t namespace name ≡ ok rc)
    (listed : (t : Trace) → env.cached_stateful_sets t rc.namespace ≡ ok sets)
    (absent : find_stateful_set rc sets ≡ none) (templates : rc.spec.pod ≡ tpl ∷ more)
    (new : rc.status.phase ≢ Phase.creating)
    (updates : (t : Trace) (c : RedisCluster) → env.update_cluster t c ≡ ok c)
    (services : (t : Trace) (s : Service) → env.create_service t s ≡ ok s)
    (creations : (t : Trace) (s : StatefulSet) → env.create_stateful_set t s ≡ ok s) where
  -- The calls before the cluster is formed, the latest first.
  abbrev before : StatefulSet → Trace
  before set =
      created_stateful_set set
      ∷ created_service (build_service (begun rc) namespace name)
      ∷ updated_cluster (begun rc)
      ∷ cached_stateful_sets rc.namespace
      ∷ cached_cluster namespace name
      ∷ t

  sync-starts :
      (set : StatefulSet) × (pods : List RedisClusterPodTemplateSpec) × (sync env namespace name t
        ≡ create_and_init env (with_pods (begun rc) pods) (before set))
  unfolding sync get_stateful_set_for handle_flag handle do_create create_objects
  sync-starts =
      let looked = cached_stateful_sets rc.namespace ∷ cached_cluster namespace name ∷ t in
      let (set, pods, built) =
        build_stateful_set-keeps namespace name (begun rc) tpl more templates in
      (
        set,
        pods,
        rw
            (
              cached,
              listed (cached_cluster namespace name ∷ t),
              absent,
              begin env rc looked (updates looked (begun rc)) new,
              services (updated_cluster (begun rc) ∷ looked)
                  (build_service (begun rc) namespace name),
              built,
              creations
                  (created_service (build_service (begun rc) namespace name)
                    ∷ updated_cluster (begun rc)
                    ∷ looked)
                  set,
            )
            refl,
      )

  module _ (endpoints : (t : Trace) → env.get_endpoints t rc.namespace rc.name ≡ ok found)
      (subsets : found.subsets ≡ some (record { addresses = addresses } ∷ others))
      (ready : rc.spec.replicas ≡ some (length addresses))
      (sorted : sort_stable by_pod_name addresses ≡ first ∷ rest)
      (assigned : assign_master_slave_ip (first ∷ rest) ≡ done (ok (m ∷ masters, slaves)))
      (paired : length slaves ≡ length (m ∷ masters))
      (calm : (pod : ObjectReference) → Calm env pod)
      (shows : (t : Trace) (pod : ObjectReference) (ip : String)
        → parse_nodes (env.exec t pod (cluster_nodes ip)).stdout ≡ done (members t))
      (seen : (t : Trace)
        → length (
            members
              (executed first.target (trib_check m) ∷ created_calls first.target (m ∷ masters) t))
          ≡ length slaves)
      (ids : List String)
      (named : (t : Trace)
        → AllNamed Other (m ∷ masters) ids (
            members
              (executed first.target (trib_check m) ∷ created_calls first.target (m ∷ masters) t)))
      (nodes_listed : (t : Trace) → env.list_nodes t ≡ ok nodes)
      (stored : (t : Trace) → env.get_stateful_set t rc.namespace rc.name ≡ ok sts)
      (replicas : sts.spec.replicas ≡ some n) where
    -- The calls before the last look at the cluster, the latest first.
    abbrev formed : StatefulSet → Trace
    formed set =
        formed_calls first.target rc.namespace m masters slaves ids
          (got_endpoints rc.namespace rc.name ∷ before set)

    -- Let the caches have the custom resource, with a template and in another phase than Creating, and no
    -- stateful set for it. Let the API server store whatever is sent to it, and name in the endpoints as
    -- many pods as replicas are wanted; let no command fail in a pod, no check find errors, and each look
    -- at the nodes show the members of the cluster then. Let the roles be one slave for each master, and
    -- let there be, right after the masters formed the cluster, as many members as slaves, each master
    -- with its id of `ids`. Then the sync returns without an error. It writes Creating, creates the
    -- service and a set, waits for the pods, forms the cluster of the masters, lets each slave join its
    -- master, looks at the cluster once more, and writes the phase Running, with the replicas of the set
    -- and one condition for each member as that look, which comes behind the joins, shows them.
    pub sync-Running :
        (set : StatefulSet) × (changed : RedisCluster) × (cs : List RedisClusterCondition) × (sync
            env namespace name t
          ≡ (
            done (ok tt),
            updated_cluster changed
                ∷ status_calls rc.namespace rc.name first
                    (members (looking rc.namespace rc.name first (formed set)))
                    (formed set),
          ))
        × (changed.status.phase ≡ Phase.running)
        × (changed.status.replicas ≡ n)
        × Perm changed.status.conditions cs
        × Described nodes
            (addressed found (first ∷ rest) others)
            (first ∷ rest)
            (members (looking rc.namespace rc.name first (formed set)))
            cs
    sync-Running =
        let (set, pods, started) = sync-starts in
        let (changed, cs, ran, p, r, perm, d) =
          create_and_init-order env (with_pods (begun rc) pods) found addresses others first rest m
            masters slaves ids members nodes sts n (before set) (endpoints (before set)) subsets
            ready sorted assigned paired calm shows nodes_listed stored replicas creating-ne-running
            (seen _) (named _) in
        (set, changed, cs, started ∙ ran, p, r, perm, d)
