-- ===== src/Lifecycle/Formed.antt =====
-- The creation of a cluster (`createAndInitRedisCluster`, sync_rediscluster.go) in surroundings where
-- nothing goes wrong, from the wait for the pods on.
use middleware_operator_mana.Assign.{assign_master_slave_ip}
use middleware_operator_mana.Base.{
  ℕ, zero, suc, ◌≡◌, refl, true, false, List, [], ◌∷◌, String, Option, none, some, length, ◌==◌, ap,
  ◌∙◌, ==_iff, sort_stable,
}
use middleware_operator_mana.Commands.Joining.{Calm}
use middleware_operator_mana.Errors.{ok, Result}
use middleware_operator_mana.Lifecycle.Create.{create_and_init}
use middleware_operator_mana.Lifecycle.Endpoints.{
  by_pod_name, has_no_address, sort_endpoints, assign_address, node_ids_of,
}
use middleware_operator_mana.Lifecycle.Running.{addressed}
use middleware_operator_mana.Lifecycle.Order.{
  nodes_calls, created_calls, joined_calls, Shows, init_cluster-order,
}
use middleware_operator_mana.Lifecycle.Ready.{
  all_addressed, pods_ready, check_pods_ready, mark_running,
}
use middleware_operator_mana.Outcome.{done}
use middleware_operator_mana.Types.{
  EndpointAddress, EndpointSubset, Endpoints, RedisCluster, RedisNodeInfo,
}
use middleware_operator_mana.World.{Env, Trace, M, got_endpoints, poll, poll_rounds}

pub sort_endpoints-addressed :
    (found : Endpoints) (addresses sorted : List EndpointAddress) (others : List EndpointSubset)
    → found.subsets ≡ some (record { addresses = addresses } ∷ others)
    → sort_stable by_pod_name addresses ≡ sorted
    → sort_endpoints found ≡ addressed found sorted others
unfolding sort_endpoints
sort_endpoints-addressed found addresses sorted others subsets e =
    ap sort_endpoints (λ i. record found { subsets = subsets i })
    ∙ ap (λ l. addressed found l others) e

module _ (env : Env) where
  -- The pods are ready at the first look.
  pods_ready-ready :
      (rc : RedisCluster) (found : Endpoints) (addresses : List EndpointAddress)
      (others : List EndpointSubset) (t : Trace)
      → env.get_endpoints t rc.namespace rc.name ≡ ok found
      → found.subsets ≡ some (record { addresses = addresses } ∷ others)
      → rc.spec.replicas ≡ some (length addresses)
      → pods_ready env rc t ≡ (done (ok (some found)), got_endpoints rc.namespace rc.name ∷ t)
  unfolding pods_ready all_addressed
  pods_ready-ready rc found addresses others t got subsets wanted =
      let count : (length addresses == length addresses) ≡ true = (==_iff _ _).1 refl in
      rw (got, subsets, wanted, count) refl

  poll_rounds-ready :
      {A : Type 0} (n : ℕ) (condition : M (Result _ (Option A))) (a : A) (t t' : Trace)
      → condition t ≡ (done (ok (some a)), t')
      → poll_rounds n condition t ≡ (done (ok a), t')
  unfolding poll_rounds
  poll_rounds-ready zero condition a t t' h = rw h refl
  poll_rounds-ready (suc n) condition a t t' h = rw h refl

  pub check_pods_ready-ready :
      (rc : RedisCluster) (found : Endpoints) (addresses : List EndpointAddress)
      (others : List EndpointSubset) (t : Trace)
      → env.get_endpoints t rc.namespace rc.name ≡ ok found
      → found.subsets ≡ some (record { addresses = addresses } ∷ others)
      → rc.spec.replicas ≡ some (length addresses)
      → check_pods_ready env rc t ≡ (done (ok found), got_endpoints rc.namespace rc.name ∷ t)
  unfolding check_pods_ready poll
  check_pods_ready-ready rc found addresses others t got subsets wanted =
      poll_rounds-ready (env.ticks t) (pods_ready env rc) found t _
        (pods_ready-ready rc found addresses others t got subsets wanted)

  assign_address-sorted :
      (found : Endpoints) (addresses : List EndpointAddress) (others : List EndpointSubset)
      (first : EndpointAddress) (rest : List EndpointAddress)
      → found.subsets ≡ some (record { addresses = addresses } ∷ others)
      → sort_stable by_pod_name addresses ≡ first ∷ rest
      → assign_address (sort_endpoints found) none ≡ done (ok (first ∷ rest))
  unfolding assign_address has_no_address sort_endpoints
  assign_address-sorted found addresses others first rest subsets sorted = rw (subsets, sorted) refl

  pub has_address :
      (found : Endpoints) (addresses : List EndpointAddress) (others : List EndpointSubset)
      (first : EndpointAddress) (rest : List EndpointAddress)
      → found.subsets ≡ some (record { addresses = addresses } ∷ others)
      → sort_stable by_pod_name addresses ≡ first ∷ rest
      → has_no_address found ≡ false
  unfolding has_no_address sort_stable
  has_address found [] others first rest subsets sorted = cc
  has_address found (a ∷ addresses) others first rest subsets sorted = rw subsets refl

  -- The creation, by what the loop over the nodes finds, up to the write of Running.
  pub create_and_init-forms :
      (rc : RedisCluster) (found : Endpoints) (addresses : List EndpointAddress)
      (others : List EndpointSubset) (first : EndpointAddress) (rest : List EndpointAddress)
      (m : String) (masters slaves : List String) (infos later : List RedisNodeInfo) (t : Trace)
      → env.get_endpoints t rc.namespace rc.name ≡ ok found
      → found.subsets ≡ some (record { addresses = addresses } ∷ others)
      → rc.spec.replicas ≡ some (length addresses)
      → sort_stable by_pod_name addresses ≡ first ∷ rest
      → assign_master_slave_ip (first ∷ rest) ≡ done (ok (m ∷ masters, slaves))
      → Calm env first.target
      → Calm env (record first.target { namespace = rc.namespace })
      → Shows env first.target m infos
          (created_calls first.target (m ∷ masters) (got_endpoints rc.namespace rc.name ∷ t))
      → Shows env
          (record first.target { namespace = rc.namespace })
          m
          later
          (joined_calls first.target m slaves
            (m ∷ masters)
            infos
            (created_calls first.target (m ∷ masters) (got_endpoints rc.namespace rc.name ∷ t)))
      → length infos ≡ length slaves
      → length slaves ≡ length (m ∷ masters)
      → length (m ∷ masters) ≡ length (node_ids_of (m ∷ masters) infos)
      → create_and_init env rc t
        ≡ mark_running env rc (sort_endpoints found) (
            nodes_calls
              (record first.target { namespace = rc.namespace })
              m
              (joined_calls first.target m slaves (m ∷ masters) infos (
                created_calls first.target (m ∷ masters) (got_endpoints rc.namespace rc.name ∷ t))))
  unfolding create_and_init
  create_and_init-forms rc found addresses others first rest m masters slaves infos later t got
        subsets wanted sorted assigned calm calm' shows shows' seen paired known =
      rw
        (
          check_pods_ready-ready rc found addresses others t got subsets wanted,
          has_address found addresses others first rest subsets sorted,
          assign_address-sorted found addresses others first rest subsets sorted,
          assigned,
        )
        (init_cluster-order env rc (sort_endpoints found) first.target m masters slaves infos later
          (got_endpoints rc.namespace rc.name ∷ t) calm calm' shows shows' seen paired known)
