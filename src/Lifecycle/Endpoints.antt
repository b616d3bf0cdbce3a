-- ===== src/Lifecycle/Endpoints.antt =====
-- The endpoints of a cluster (sync_rediscluster.go): the pods' addresses, their order, the node ids that
-- go with them, and which of them are new.
use middleware_operator_mana.Base.{
  Bool, true, false, not, List, [], ◌∷◌, String, str_eq, str_lt, Option, none, some, if◌then◌else◌,
  sort_stable,
}
use middleware_operator_mana.Commands.{with_port}
use middleware_operator_mana.Errors.{Result, ok, err, Error, subsets_nil}
use middleware_operator_mana.Outcome.{Outcome, done, panic, deref}
use middleware_operator_mana.Outcome
use middleware_operator_mana.Text.{contains}
use middleware_operator_mana.Types.{EndpointAddress, Endpoints, RedisNodeInfo}

-- `endpoints.Subsets[0].Addresses`
abbrev pub subset_addresses : Endpoints → Outcome (List EndpointAddress)
subset_addresses endpoints = elim endpoints.subsets [
  | none ↦ panic
  | some subsets ↦ elim subsets [ [] ↦ panic | subset ∷ _ ↦ done subset.addresses ]
]

-- `len(endpoints.Subsets) == 0 || len(endpoints.Subsets[0].Addresses) == 0`
unfoldable pub has_no_address : Endpoints → Bool
has_no_address endpoints = elim endpoints.subsets [
  | none ↦ true
  | some subsets ↦ elim subsets [
    | [] ↦ true
    | subset ∷ _ ↦ elim subset.addresses [ [] ↦ true | _ ↦ false ]
  ]
]

abbrev pub by_pod_name : EndpointAddress → EndpointAddress → Bool
by_pod_name a b = str_lt a.target.name b.target.name

-- One round of `sortEndpointsByPodName`: the addresses of the first subset, in place.
unfoldable pub sort_endpoints : Endpoints → Endpoints
unfolding sort_stable
sort_endpoints endpoints = elim endpoints.subsets [
  | none ↦ endpoints
  | some subsets ↦ elim subsets [
    | [] ↦ endpoints
    | subset ∷ others ↦ record endpoints {
      subsets = some (record { addresses = sort_stable by_pod_name subset.addresses } ∷ others);
    }
  ]
]

-- `masterInstanceIp+":6379" == info.IpPort`, for the first such line.
unfoldable pub node_id_at : String → List RedisNodeInfo → Option String
node_id_at ip [] = none
node_id_at ip (info ∷ infos) =
    if str_eq (with_port ip) info.ip_port then some info.node_id else node_id_at ip infos

-- The node ids of those IPs that a line has; the others are skipped.
unfoldable pub node_ids_of : List String → List RedisNodeInfo → List String
unfolding node_id_at
node_ids_of [] infos = []
node_ids_of (ip ∷ ips) infos =
    let rest = node_ids_of ips infos in
    elim (node_id_at ip infos) [ none ↦ rest | some id ↦ id ∷ rest ]

-- The same loop in `scaleRedisCluster`, which asks for `strings.Contains(info.IpPort, ip)`.
unfoldable pub node_id_containing : String → List RedisNodeInfo → Option String
unfolding contains
node_id_containing ip [] = none
node_id_containing ip (info ∷ infos) =
    if contains info.ip_port ip then some info.node_id else node_id_containing ip infos

unfoldable pub node_ids_containing : List String → List RedisNodeInfo → List String
unfolding node_id_containing
node_ids_containing [] infos = []
node_ids_containing (ip ∷ ips) infos =
    let rest = node_ids_containing ips infos in
    elim (node_id_containing ip infos) [ none ↦ rest | some id ↦ id ∷ rest ]

-- Is `ip` none of the old addresses? The inner loop of `assignMasterSlaveIPAddress`.
unfoldable pub is_new : String → List EndpointAddress → Bool
is_new ip [] = false
is_new ip (old ∷ []) = not (str_eq ip old.ip)
is_new ip (old ∷ next ∷ rest) = if str_eq ip old.ip then false else is_new ip (next ∷ rest)

unfoldable pub new_addresses : List EndpointAddress → List EndpointAddress → List EndpointAddress
unfolding is_new
new_addresses [] old = []
new_addresses (addr ∷ addrs) old =
    let rest = new_addresses addrs old in if is_new addr.ip old then addr ∷ rest else rest

-- `assignMasterSlaveIPAddress`: all addresses, or at an upgrade those that are new.
unfoldable pub assign_address :
    Endpoints → Option Endpoints → Outcome (Result Error (List EndpointAddress))
unfolding has_no_address new_addresses
assign_address endpoints old =
    if has_no_address endpoints
    then done (err subsets_nil)
    else Outcome.◌>>=◌ (subset_addresses endpoints) λ addresses. elim old [
      | none ↦ done (ok addresses)
      | some olds ↦
          if has_no_address olds
          then done (ok addresses)
          else Outcome.◌>>=◌ (subset_addresses olds)
              λ old_addresses. done (ok (new_addresses addresses old_addresses))
    ]
