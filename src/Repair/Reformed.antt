-- ===== src/Repair/Reformed.antt =====
-- A repair (`checkAndUpdateRedisClusterStatus`, check_rediscluster.go) that forms a cluster anew, in
-- surroundings where nothing else goes wrong.
use middleware_operator_mana.Assign.{assign_master_slave_ip}
use middleware_operator_mana.Base.{
  ℕ, ◌≡◌, ◌≢◌, sym, ◌∙◌, inl, inr, List, ◌∷◌, ◌++◌, String, eq_iff, some, length, sort_stable, All,
}
use middleware_operator_mana.Commands.Joining.{Calm}
use middleware_operator_mana.Commands.Parse.{parse_nodes}
use middleware_operator_mana.Errors.{ok, cluster_info, cluster_nodes, trib_check}
use middleware_operator_mana.Lifecycle.Created.{formed_calls, create_and_init-order}
use middleware_operator_mana.Lifecycle.Endpoints.{by_pod_name}
use middleware_operator_mana.Lifecycle.Named.{AllNamed, Other}
use middleware_operator_mana.Lifecycle.Order.{created_calls}
use middleware_operator_mana.Lifecycle.Running.{looking, status_calls}
use middleware_operator_mana.Outcome.{done}
use middleware_operator_mana.Repair.Anew.{info_calls, Fine, Broken, Unfinished, repair-creates}
use middleware_operator_mana.Repair.Check.{repair}
use middleware_operator_mana.Types.{
  EndpointAddress, EndpointSubset, Endpoints, Node, ObjectReference, RedisCluster, RedisNodeInfo,
}
use middleware_operator_mana.Types.Objects.{StatefulSet}
use middleware_operator_mana.Types.Phase.{RedisClusterPhase}
use middleware_operator_mana.Types.Phase
use middleware_operator_mana.World.{Env, Trace, executed, got_endpoints, updated_cluster}

Unfinished-fresh : (phase : RedisClusterPhase) → Unfinished phase → phase ≢ Phase.running
Unfinished-fresh phase (inl e) h = cc ((eq_iff Phase.creating Phase.running).1 (sym e ∙ h))
Unfinished-fresh phase (inr (inl e)) h = cc ((eq_iff Phase.scaling Phase.running).1 (sym e ∙ h))
Unfinished-fresh phase (inr (inr (inl e))) h =
    cc ((eq_iff Phase.upgrading Phase.running).1 (sym e ∙ h))
Unfinished-fresh phase (inr (inr (inr e))) h =
    cc ((eq_iff Phase.failed Phase.running).1 (sym e ∙ h))

module _ (env : Env) (rc : RedisCluster) (found : Endpoints) (addresses : List EndpointAddress)
    (others : List EndpointSubset) (first : EndpointAddress)
    (rest earlier later : List EndpointAddress) (broken : EndpointAddress)
    (report : String → String) (m : String) (masters slaves ids : List String)
    (members : Trace → List RedisNodeInfo) (nodes : List Node) (sts : StatefulSet) (n : ℕ)
    (t : Trace) (got : (t : Trace) → env.get_endpoints t rc.namespace rc.name ≡ ok found)
    (subsets : found.subsets ≡ some (record { addresses = addresses } ∷ others))
    (ready : rc.spec.replicas ≡ some (length addresses))
    (sorted : sort_stable by_pod_name addresses ≡ first ∷ rest)
    (parts : first ∷ rest ≡ earlier ++ broken ∷ later)
    (assigned : assign_master_slave_ip (first ∷ rest) ≡ done (ok (m ∷ masters, slaves)))
    (paired : length slaves ≡ length (m ∷ masters)) (calm : (pod : ObjectReference) → Calm env pod)
    (tells : (t : Trace) (a : EndpointAddress)
      → (env.exec t a.target (cluster_info a.ip)).stdout ≡ report a.ip)
    (shows : (t : Trace) (pod : ObjectReference) (ip : String)
      → parse_nodes (env.exec t pod (cluster_nodes ip)).stdout ≡ done (members t))
    (nodes_listed : (t : Trace) → env.list_nodes t ≡ ok nodes)
    (stored : (t : Trace) → env.get_stateful_set t rc.namespace rc.name ≡ ok sts)
    (replicas : sts.spec.replicas ≡ some n) where
  -- The calls before the cluster is formed, the latest first.
  abbrev asked : Trace
  asked =
      got_endpoints rc.namespace rc.name
      ∷ executed broken.target (cluster_info broken.ip)
      ∷ info_calls earlier (got_endpoints rc.namespace rc.name ∷ t)

  abbrev formed : Trace
  formed = formed_calls first.target rc.namespace m masters slaves ids asked

  abbrev known : List RedisNodeInfo
  known =
      members
        (executed first.target (trib_check m) ∷ created_calls first.target (m ∷ masters) asked)

  -- Let a custom resource be in the phase Creating, Scaling, Upgrading or Failed, and its pods be named,
  -- with roles of one slave for each master. Let `cluster info` say of one of the instances that it knows
  -- others and not that its state is ok, and of each instance before it that its state is ok or that it
  -- knows itself only. Let no command fail and no check find errors, the members be seen after forming as
  -- at a creation, and the API server answer. Then the repair asks these instances and no other, forms the
  -- cluster from all pods as for a new one, whatever the earlier instances said, and writes Running.
  pub repair-forms_anew :
      Unfinished rc.status.phase
      → All (λ a. Fine (report a.ip)) earlier
      → Broken (report broken.ip)
      → length known ≡ length slaves
      → AllNamed Other (m ∷ masters) ids known
      → (changed : RedisCluster) × (repair env rc t ≡ (
        done (ok tt),
        updated_cluster changed
            ∷ status_calls rc.namespace rc.name first
                (members (looking rc.namespace rc.name first formed))
                formed,
      ))
        × (changed.status.phase ≡ Phase.running)
  repair-forms_anew unfinished fine bad seen named =
      let creates =
        repair-creates env report calm tells rc found addresses others first rest earlier later
          broken t (got t) subsets ready sorted parts unfinished fine bad in
      let (changed, _, ran, p, _, _, _) =
        create_and_init-order env rc found addresses others first rest m masters slaves ids members
          nodes sts n
          (executed broken.target (cluster_info broken.ip)
            ∷ info_calls earlier (got_endpoints rc.namespace rc.name ∷ t))
          (got _) subsets ready sorted assigned paired calm shows nodes_listed stored replicas
          (Unfinished-fresh rc.status.phase unfinished) seen named in
      (changed, creates ∙ ran, p)
