-- ===== src/Repair/Parts.antt =====
-- What `checkAndUpdateRedisClusterStatus` (check_rediscluster.go) reads off a custom resource, its
-- endpoints and the replies to its commands.
use middleware_operator_mana.Base.{
  ℕ, ◌-◌, Bool, true, false, ◌||◌, List, [], ◌∷◌, ◌++◌, String, str_eq, none, some, if◌then◌else◌,
  ◌==◌, ltb, length, take, drop,
}
use middleware_operator_mana.Commands.{with_port}
use middleware_operator_mana.Outcome.{Outcome, done, panic}
use middleware_operator_mana.Types.{
  EndpointAddress, Endpoints, RedisCluster, RedisNodeInfo, RedisTribInfo,
}
use middleware_operator_mana.Types.Phase.{RedisClusterPhase}
use middleware_operator_mana.Types.Phase

abbrev pub cluster_state_failed : String
cluster_state_failed = "cluster state failed"

-- The phases with which a cluster can be settled.
unfoldable pub may_be_settled : RedisClusterPhase → Bool
may_be_settled phase =
    str_eq phase Phase.running || (str_eq phase Phase.upgrading || str_eq phase Phase.creating)

-- The phase that the repair goes by.
unfoldable pub repair_phase : RedisCluster → RedisClusterPhase
repair_phase rc =
    if str_eq rc.status.phase Phase.failed
    then (elim rc.status.conditions [ [] ↦ Phase.creating | _ ↦ Phase.upgrading ])
    else rc.status.phase

-- `addresses[:len(addresses)-len(conditions)]`: a panic where there are more conditions.
unfoldable pub old_addresses : List EndpointAddress → ℕ → Outcome (List EndpointAddress)
old_addresses addresses conditions =
    if ltb (length addresses) conditions
    then panic
    else done (take (length addresses - conditions) addresses)

-- `oldEndpoints.Subsets[0].Addresses = …` on a deep copy.
unfoldable pub with_addresses : Endpoints → List EndpointAddress → Endpoints
with_addresses endpoints addresses = elim endpoints.subsets [
  | none ↦ endpoints
  | some subsets ↦ record endpoints {
    subsets = some (record { addresses = addresses } ∷ drop 1 subsets);
  }
]

-- The masters without slots.
unfoldable pub empty_masters : List RedisTribInfo → List String
empty_masters [] = []
empty_masters (info ∷ infos) =
    let rest = empty_masters infos in if info.slots == 0 then info.ip ∷ rest else rest

-- Every line of such a master, as the inner loop has no `break`.
unfoldable pub ids_at : String → List RedisNodeInfo → List String
ids_at ip [] = []
ids_at ip (info ∷ infos) =
    let rest = ids_at ip infos in
    if str_eq (with_port ip) info.ip_port then info.node_id ∷ rest else rest

unfoldable pub all_ids_of : List String → List RedisNodeInfo → List String
unfolding ids_at
all_ids_of [] infos = []
all_ids_of (ip ∷ ips) infos = ids_at ip infos ++ all_ids_of ips infos

-- Has every instance a condition, in a phase that can be settled?
unfoldable pub is_settled : RedisCluster → Outcome Bool
unfolding may_be_settled
is_settled rc = elim (may_be_settled rc.status.phase) [
  | false ↦ done false
  | true ↦ elim rc.spec.replicas [
    | none ↦ panic
    | some replicas ↦ done (length rc.status.conditions == replicas)
  ]
]
