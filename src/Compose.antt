-- ===== src/Compose.antt =====
-- `composeMasterSlaveIP` and `buildWillAddClusterMasterSlaveIPs` of check_rediscluster.go: the roles of
-- instances that join a cluster that exists.
pub mod Masters
pub mod Roles
pub mod Hangs
pub mod Bounds
use middleware_operator_mana.Assign.{Chosen, interleave, choose_slaves}
use middleware_operator_mana.Base.{
  ℕ, zero, suc, ◌+◌, ◌-◌, ◌/◌, Bool, true, false, not, ◌||◌, List, [], ◌∷◌, ◌++◌, map, String,
  str_eq, Option, none, some, if◌then◌else◌, leb, ltb, ◌==◌, length, get_elem?, erase_idx, take,
}
use middleware_operator_mana.Errors.{Result, ok, err, Error, addresses_empty}
use middleware_operator_mana.Outcome.{Outcome, done, panic, diverge, ◌>>=◌, deref}
use middleware_operator_mana.Text.{split}
use middleware_operator_mana.Types.{EndpointAddress, Endpoints, RedisNodeInfo}
use middleware_operator_mana.Util.Slice.{in_slice, string_eq}

-- A Go `int` that may fall below 0.
pub data ℤ : Type 0 where
  pos : ℕ → ℤ
  negsuc : ℕ → ℤ

abbrev pub sub_ℕ : ℕ → ℕ → ℤ
sub_ℕ a b = if leb b a then pos (a - b) else negsuc (b - a - 1)

-- `len(s) == count` and `len(s) < count`.
abbrev pub is_count : ℕ → ℤ → Bool
is_count n (pos m) = n == m
is_count n (negsuc m) = false

abbrev pub below_count : ℕ → ℤ → Bool
below_count n (pos m) = ltb n m
below_count n (negsuc m) = false

-- The new addresses by their role in the cluster.
pub record Sorted : Type 0 where
  pub exist_master : List EndpointAddress
  pub exist_slave : List EndpointAddress
  pub will_add : List EndpointAddress

unfoldable pub classify : List String → List String → List EndpointAddress → Sorted
unfolding in_slice
classify masters slaves [] = record { exist_master = []; exist_slave = []; will_add = [] }
classify masters slaves (addr ∷ addrs) =
    let rest = classify masters slaves addrs in
    if in_slice addr.ip masters
    then record rest { exist_master = addr ∷ rest.exist_master }
    else if in_slice addr.ip slaves
    then record rest { exist_slave = addr ∷ rest.exist_slave }
    else record rest { will_add = addr ∷ rest.will_add }

-- The slices that the choice of new masters works on.
pub record Pick : Type 0 where
  pub new_master : List EndpointAddress
  pub exist_master : List EndpointAddress
  pub will_add : List EndpointAddress

-- Does an existing master live on the node?
unfoldable pub is_same_node : String → List EndpointAddress → Bool
is_same_node node [] = false
is_same_node node (exist ∷ rest) =
    if str_eq exist.node_name node then true else is_same_node node rest

-- The first loop: an address on a node without a master becomes one. `passed` are those before index
-- `i`, which share a node with a master and stay; `ahead` are those from `i` on.
unfoldable pub pick_apart :
    ℤ
    → List EndpointAddress
    → List EndpointAddress
    → List EndpointAddress
    → List EndpointAddress
    → Pick
unfolding is_same_node
pick_apart count new exist passed [] = record {
  new_master = new;
  exist_master = exist;
  will_add = passed;
}
pick_apart count new exist passed (addr ∷ ahead) = elim (is_count (length new) count) [
  | true ↦ record { new_master = new; exist_master = exist; will_add = passed ++ addr ∷ ahead }
  | false ↦ elim (is_same_node addr.node_name exist) [
    | true ↦ pick_apart count new exist (passed ++ addr ∷ []) ahead
    | false ↦ pick_apart count (new ++ addr ∷ []) (exist ++ addr ∷ []) passed ahead
  ]
]

-- The second loop: the masters still missing, from index `i` of what is left; the index grows while
-- what is left shrinks.
unfoldable pub pick_rest : ℕ → ℤ → ℕ → Pick → Outcome Pick
pick_rest zero count i p = diverge
pick_rest (suc fuel) count i p = elim (below_count (length p.new_master) count) [
  | false ↦ done p
  | true ↦ deref (get_elem? p.will_add i) >>= λ addr. pick_rest fuel count (suc i) (record {
    new_master = p.new_master ++ addr ∷ [];
    exist_master = p.exist_master ++ addr ∷ [];
    will_add = erase_idx p.will_add i;
  })
]

-- Both loops. Each round of the second takes an address, so one more round than addresses is enough.
unfoldable pub pick_masters : ℤ → Sorted → Outcome Pick
unfolding pick_apart pick_rest
pick_masters count s =
    let p = pick_apart count [] s.exist_master [] s.will_add in
    pick_rest (suc (length p.will_add)) count 0 p

-- The keys and values of `masterSlaveConnector`.
unfoldable pub has_key : String → List (String × String) → Bool
has_key key [] = false
has_key key ((k, v) ∷ m) = if str_eq k key then true else has_key key m

unfoldable pub without_slave : List (String × String) → List EndpointAddress → List EndpointAddress
unfolding has_key
without_slave connector [] = []
without_slave connector (addr ∷ addrs) =
    let rest = without_slave connector addrs in
    if has_key addr.ip connector then rest else addr ∷ rest

-- The three slices that are returned.
pub record Composition : Type 0 where
  pub master_ips : List String
  pub slave_ips : List String
  pub parent_ips : List String

-- The second half: slaves for the masters that have none, out of what is left.
unfoldable pub compose_slaves : List (String × String) → Pick → Outcome Composition
unfolding without_slave interleave choose_slaves
compose_slaves connector p = do
  let orphans = without_slave connector p.exist_master
  interleaved ← interleave p.will_add
  chosen ← choose_slaves orphans interleaved (length p.will_add)
  done (record {
    master_ips = map (λ a. a.ip) p.new_master;
    slave_ips = map (λ c. c.ip) chosen;
    parent_ips = map (λ a. a.ip) (take (length chosen) orphans);
  })

unfoldable pub compose_master_slave_ip :
    List EndpointAddress → List String → List String → List (String × String) → Outcome Composition
unfolding classify pick_masters compose_slaves
compose_master_slave_ip new_addresses masters slaves connector =
    let s = classify masters slaves new_addresses in
    elim s.will_add [
      | [] ↦ done (record { master_ips = []; slave_ips = []; parent_ips = [] })
      | _ ↦ pick_masters (sub_ℕ (length new_addresses / 2) (length masters)) s >>= λ p.
          compose_slaves connector p
    ]

-- `strings.Split(info.IpPort, ":")[0]`
unfoldable pub ip_of : String → String
unfolding split
ip_of ip_port = elim (split b':' ip_port) [ [] ↦ "" | ip ∷ _ ↦ ip ]

-- The first line that names `node_id` as its master.
unfoldable pub slave_of : String → List RedisNodeInfo → Option RedisNodeInfo
slave_of node_id [] = none
slave_of node_id (info ∷ infos) =
    if str_eq node_id info.master then some info else slave_of node_id infos

unfoldable pub master_ips : List RedisNodeInfo → List String
unfolding ip_of
master_ips [] = []
master_ips (info ∷ infos) =
    let rest = master_ips infos in
    if str_eq "master" info.flags then ip_of info.ip_port ∷ rest else rest

unfoldable pub slave_ips : List RedisNodeInfo → List String
unfolding ip_of
slave_ips [] = []
slave_ips (info ∷ infos) =
    let rest = slave_ips infos in
    if str_eq "master" info.flags then rest else ip_of info.ip_port ∷ rest

-- A master with a slave, and that slave.
unfoldable pub connector_of : List RedisNodeInfo → List RedisNodeInfo → List (String × String)
unfolding ip_of slave_of
connector_of all [] = []
connector_of all (info ∷ infos) =
    let rest = connector_of all infos in
    if str_eq "master" info.flags
    then elim (slave_of info.node_id all) [
      | none ↦ rest
      | some slave ↦ (ip_of info.ip_port, ip_of slave.ip_port) ∷ rest
    ]
    else rest

unfoldable pub build_will_add : List RedisNodeInfo → Endpoints → Outcome (Result Error Composition)
unfolding compose_master_slave_ip master_ips slave_ips connector_of
build_will_add infos new_endpoints = elim new_endpoints.subsets [
  | none ↦ done (err addresses_empty)
  | some subsets ↦ elim subsets [
    | [] ↦ done (err addresses_empty)
    | subset ∷ _ ↦ elim subset.addresses [
      | [] ↦ done (err addresses_empty)
      | _ ↦ do
        c ←
            compose_master_slave_ip subset.addresses (master_ips infos) (slave_ips infos)
              (connector_of infos infos)
        done (ok c)
    ]
  ]
]
