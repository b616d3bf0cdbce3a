-- ===== src/Lifecycle/Order.antt =====
-- The order of the commands of `createAndInitRedisCluster` and `scaleRedisCluster`
-- (sync_rediscluster.go) while all goes well.
use middleware_operator_mana.Base.{
  ◌≡◌, ap, ◌∙◌, refl, sym, inl, inr, true, List, ◌∷◌, map, String, length, ◌==◌, ==_iff,
}
use middleware_operator_mana.Commands.{
  run_command, with_port, exec_cluster_nodes, create_cluster, add_slave_to_cluster_master,
}
use middleware_operator_mana.Commands.Joining.{
  Calm, wait_calm, do_calm, slave_calls, add_slave-calls, master_calls, add_master-calls,
}
use middleware_operator_mana.Commands.Parse.{parse_nodes}
use middleware_operator_mana.Errors.{ok, cluster_nodes, trib_check, trib_create}
use middleware_operator_mana.Lifecycle.Create.{init_cluster}
use middleware_operator_mana.Lifecycle.Endpoints.{node_ids_of, node_ids_containing}
use middleware_operator_mana.Lifecycle.Upgrade.{join_instances}
use middleware_operator_mana.Lifecycle.Ready.{mark_running}
use middleware_operator_mana.Lifecycle.Named.{
  AllNamed, Apart, AllNamed-length, node_ids_containing-AllNamed,
}
use middleware_operator_mana.Outcome.{done}
use middleware_operator_mana.Types.{Endpoints, ObjectReference, RedisCluster, RedisNodeInfo}
use middleware_operator_mana.World.{Env, executed, Trace}

-- A check through `ip`, then the nodes as it sees them.
abbrev pub nodes_calls : ObjectReference → String → Trace → Trace
nodes_calls pod ip t = executed pod (cluster_nodes ip) ∷ executed pod (trib_check ip) ∷ t

-- What `cluster nodes` prints behind a check, which is the next call, parses to `infos`.
abbrev pub Shows : Env → ObjectReference → String → List RedisNodeInfo → Trace → Type 0
Shows env pod ip infos t =
    parse_nodes (env.exec (executed pod (trib_check ip) ∷ t) pod (cluster_nodes ip)).stdout
    ≡ done infos

-- The cluster of the masters is formed.
abbrev pub created_calls : ObjectReference → List String → Trace → Trace
created_calls pod masters t = executed pod (trib_create (map with_port masters)) ∷ t

-- The nodes are looked at, and the slaves join.
abbrev pub joined_calls :
    ObjectReference → String → List String → List String → List RedisNodeInfo → Trace → Trace
joined_calls pod first slaves masters infos t =
    slave_calls pod first slaves masters (node_ids_of masters infos) (nodes_calls pod first t)

pub nodes-Calm :
    (env : Env) (pod : ObjectReference)
    → Calm env pod
    → (ip : String) (infos : List RedisNodeInfo) (t : Trace) → Shows env pod ip infos t
    → exec_cluster_nodes env ip pod t ≡ (done (ok infos), nodes_calls pod ip t)
unfolding exec_cluster_nodes run_command
nodes-Calm env pod calm ip infos t shows =
    let checked = executed pod (trib_check ip) ∷ t in
    let (sound, _) = calm checked (cluster_nodes ip) in
    rw (wait_calm env pod calm ip t, sound, shows) refl

-- Let no command fail and no check find errors, let the first master see as many nodes as there are
-- slaves, and each master among them, and let there be as many slaves as masters. Then the masters form
-- the cluster, the nodes are looked at, the slaves join one by one, the nodes are looked at again, each
-- time behind a check, and only then the cluster is marked Running.
pub init_cluster-order :
    (env : Env) (rc : RedisCluster) (endpoints : Endpoints) (pod : ObjectReference) (first : String)
    (rest slaves : List String) (infos later : List RedisNodeInfo) (t : Trace)
    → Calm env pod
    → Calm env (record pod { namespace = rc.namespace })
    → Shows env pod first infos (created_calls pod (first ∷ rest) t)
    → Shows env
        (record pod { namespace = rc.namespace })
        first
        later
        (joined_calls pod first slaves (first ∷ rest) infos (created_calls pod (first ∷ rest) t))
    → length infos ≡ length slaves
    → length slaves ≡ length (first ∷ rest)
    → length (first ∷ rest) ≡ length (node_ids_of (first ∷ rest) infos)
    → init_cluster env rc endpoints pod (first ∷ rest) slaves t
      ≡ mark_running env rc endpoints (
          nodes_calls
            (record pod { namespace = rc.namespace })
            first
            (joined_calls pod first slaves
              (first ∷ rest)
              infos
              (created_calls pod (first ∷ rest) t)))
unfolding init_cluster create_cluster
init_cluster-order env rc endpoints pod first rest slaves infos later t calm calm' shows shows' seen
      paired known =
    let masters = first ∷ rest in
    let ids = node_ids_of masters infos in
    let created = executed pod (trib_create (map with_port masters)) ∷ t in
    let looked = nodes_calls pod first created in
    let count : (length infos == length slaves) ≡ true = (==_iff _ _).1 seen in
    let joined : add_slave_to_cluster_master env slaves masters ids pod looked
        ≡ (done (ok tt), slave_calls pod first slaves masters ids looked) =
      elim (add_slave-calls env pod calm first slaves rest ids looked) [
        | inl (_, _, r) ↦ r
        | inr (inl d, _) ↦ absurd (d paired)
        | inr (inr d, _) ↦ absurd (d known)
      ] in
    rw
      (
        do_calm env pod calm (trib_create (map with_port masters)) t,
        nodes-Calm env pod calm first infos created shows,
        count,
        joined,
        nodes-Calm env (record pod { namespace = rc.namespace }) calm' first later
            (slave_calls pod first slaves masters ids looked) shows',
      )
      refl

-- The same by what the loops find.
pub join_instances-found :
    (env : Env) (pod : ObjectReference) (exist_ip first : String)
    (exist_ips rest slaves parents : List String) (infos : List RedisNodeInfo) (t : Trace)
    → Calm env pod
    → Shows env pod exist_ip infos (master_calls pod exist_ip (first ∷ rest) t)
    → length (node_ids_containing (first ∷ rest) infos) ≡ length (first ∷ rest)
    → length slaves ≡ length (first ∷ rest)
    → join_instances env exist_ip pod exist_ips
        (record { master_ips = first ∷ rest; slave_ips = slaves; parent_ips = parents })
        t
      ≡ (
        done (ok (exist_ips, node_ids_containing (first ∷ rest) infos)),
        slave_calls pod first slaves
            (first ∷ rest)
            (node_ids_containing (first ∷ rest) infos)
            (nodes_calls pod exist_ip (master_calls pod exist_ip (first ∷ rest) t)),
      )
unfolding join_instances
join_instances-found env pod exist_ip first exist_ips rest slaves parents infos t calm shows known
      paired =
    let masters = first ∷ rest in
    let ids = node_ids_containing masters infos in
    let added = master_calls pod exist_ip masters t in
    let looked = nodes_calls pod exist_ip added in
    let count : (length ids == length masters) ≡ true = (==_iff _ _).1 known in
    let joined : add_slave_to_cluster_master env slaves masters ids pod looked
        ≡ (done (ok tt), slave_calls pod first slaves masters ids looked) =
      elim (add_slave-calls env pod calm first slaves rest ids looked) [
        | inl (_, _, r) ↦ r
        | inr (inl d, _) ↦ absurd (d paired)
        | inr (inr d, _) ↦ absurd (d (sym known))
      ] in
    rw
      (
        add_master-calls env pod calm masters exist_ip t,
        nodes-Calm env pod calm exist_ip infos added shows,
        count,
        joined,
      )
      refl

-- Let no command fail and no check find errors. Let the new masters, once they have joined, be named in
-- the list of the nodes: for each the first line whose address contains its IP is its own, with an id of
-- `ids`. Let there be one new slave for each new master. Then scaling first makes the new masters join,
-- looks at the nodes behind a check, and then makes each slave join its master by that master's id; it
-- returns these ids.
pub join_instances-order :
    (env : Env) (pod : ObjectReference) (exist_ip first : String)
    (exist_ips rest slaves parents ids : List String) (infos : List RedisNodeInfo) (t : Trace)
    → Calm env pod
    → Shows env pod exist_ip infos (master_calls pod exist_ip (first ∷ rest) t)
    → AllNamed Apart (first ∷ rest) ids infos
    → length slaves ≡ length (first ∷ rest)
    → join_instances env exist_ip pod exist_ips
        (record { master_ips = first ∷ rest; slave_ips = slaves; parent_ips = parents })
        t
      ≡ (
        done (ok (exist_ips, ids)),
        slave_calls pod first slaves
            (first ∷ rest)
            ids
            (nodes_calls pod exist_ip (master_calls pod exist_ip (first ∷ rest) t)),
      )
join_instances-order env pod exist_ip first exist_ips rest slaves parents ids infos t calm shows
      named paired =
    let found = node_ids_containing-AllNamed (first ∷ rest) ids infos named in
    join_instances-found env pod exist_ip first exist_ips rest slaves parents infos t calm shows
      (ap length found ∙ AllNamed-length Apart (first ∷ rest) ids infos named) paired
    ∙ ap
        (λ l. (
          done (ok (exist_ips, l)),
          slave_calls pod first slaves (first ∷ rest) l
              (nodes_calls pod exist_ip (master_calls pod exist_ip (first ∷ rest) t)),
        ))
        found
