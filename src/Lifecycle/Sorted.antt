-- ===== src/Lifecycle/Sorted.antt =====
-- The endpoints after `sortEndpointsByPodName` (sync_rediscluster.go).
use middleware_operator_mana.Base.{
  ◌≡◌, refl, List, ◌∷◌, some, Perm, sort_stable, sort_stable-perm, InOrder, sort_stable-InOrder,
  str_lt, str_lt-asymmetric,
}
use middleware_operator_mana.Lifecycle.Endpoints.{by_pod_name, sort_endpoints}
use middleware_operator_mana.Types.{EndpointAddress, EndpointSubset, Endpoints}

-- The first subset holds the same addresses as before, each once, and none of them has a pod name less
-- than the one before it; the other subsets and the names of the endpoints are kept.
pub sort_endpoints-InOrder :
    (endpoints : Endpoints) (subset : EndpointSubset) (others : List EndpointSubset)
    → endpoints.subsets ≡ some (subset ∷ others)
    → (addresses : List EndpointAddress) × (sort_endpoints endpoints
        ≡ record endpoints { subsets = some (record { addresses = addresses } ∷ others) })
      × Perm addresses subset.addresses
      × InOrder (λ a b. str_lt a.target.name b.target.name) addresses
unfolding sort_endpoints
sort_endpoints-InOrder endpoints subset others h = (
  sort_stable by_pod_name subset.addresses,
  rw (h, sort_endpoints) refl,
  sort_stable-perm by_pod_name subset.addresses,
  sort_stable-InOrder by_pod_name (λ a b. str_lt-asymmetric a.target.name b.target.name)
      subset.addresses,
)
