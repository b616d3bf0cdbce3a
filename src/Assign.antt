-- ===== src/Assign.antt =====
-- `assignMasterSlaveIP` of pkg/operator/redis/sync_rediscluster.go: which instances become masters,
-- and which slave each master gets. The interleaving and the choice of slaves serve
-- `composeMasterSlaveIP` of check_rediscluster.go too, which repeats their text.
pub mod Buckets
pub mod Groups
pub mod Rounds
pub mod Spread
pub mod Slaves
pub mod Plan
use middleware_operator_mana.Base.{
  ℕ, zero, suc, ◌-◌, ◌+◌, ◌/◌, Bool, true, false, not, List, [], ◌∷◌, ◌++◌, map, String, str_eq,
  str_lt, if◌then◌else◌, ◌==◌, ltb, length, get_elem?, erase_idx, take, drop, sort_stable,
}
use middleware_operator_mana.Outcome.{Outcome, done, panic, diverge, ◌>>=◌, deref}
use middleware_operator_mana.Errors.{Result, ok, err, Error, no_addresses}
use middleware_operator_mana.Types.{EndpointAddress}
use middleware_operator_mana.Util.Slice.{in_slice, string_eq}

-- The map `nodeIPs`, with the keys that `range` goes over. A missing key reads as nil.
pub record NodeIps : Type 0 where
  pub keys : List String
  pub at : String → List EndpointAddress

abbrev pub update :
    (String → List EndpointAddress) → String → List EndpointAddress → String → List EndpointAddress
update at k v j = if str_eq k j then v else at j

-- `nodeIPs[*addr.NodeName] = append(nodeIPs[*addr.NodeName], addr)`
unfoldable pub add_addr : NodeIps → EndpointAddress → NodeIps
unfolding in_slice
add_addr m addr = record {
  keys = if in_slice addr.node_name m.keys then m.keys else m.keys ++ addr.node_name ∷ [];
  at = update m.at addr.node_name (m.at addr.node_name ++ addr ∷ []);
}

unfoldable pub group_from : NodeIps → List EndpointAddress → NodeIps
unfolding add_addr
group_from m [] = m
group_from m (addr ∷ addresses) = group_from (add_addr m addr) addresses

unfoldable pub group : List EndpointAddress → NodeIps
unfolding group_from
group addresses = group_from (record { keys = []; at = λ _. [] }) addresses

unfoldable pub sorted_keys : NodeIps → List String
unfolding sort_stable
sorted_keys m = sort_stable str_lt m.keys

-- The variables of the loop that takes one address from each node in turn.
pub record Interleaving : Type 0 where
  pub interleaved : List EndpointAddress
  pub at : String → List EndpointAddress
  pub is_loop : Bool

-- The body of `for _, key := range sortedKeys`.
abbrev pub take_from : ℕ → String → List EndpointAddress → Interleaving → Interleaving
take_from nodes_count key [] st =
    if length st.interleaved == nodes_count then record st { is_loop = false } else st
take_from nodes_count key (addr ∷ rest) st = record st {
  interleaved = st.interleaved ++ addr ∷ [];
  at = update st.at key rest;
}

unfoldable pub round : ℕ → List String → Interleaving → Interleaving
round nodes_count [] st = st
round nodes_count (key ∷ keys) st =
    round nodes_count keys (take_from nodes_count key (st.at key) st)

-- `for isLoop { … }`, on fuel.
unfoldable pub rounds : ℕ → ℕ → List String → Interleaving → Outcome (List EndpointAddress)
unfolding round
rounds zero nodes_count keys st = diverge
rounds (suc fuel) nodes_count keys st = elim st.is_loop [
  | false ↦ done st.interleaved
  | true ↦ rounds fuel nodes_count keys (round nodes_count keys st)
]

abbrev pub initial : NodeIps → Interleaving
initial m = record { interleaved = []; at = m.at; is_loop = true }

unfoldable pub interleave_fuel : ℕ → List EndpointAddress → Outcome (List EndpointAddress)
unfolding group sorted_keys rounds
interleave_fuel fuel addresses =
    rounds fuel (length addresses) (sorted_keys (group addresses)) (initial (group addresses))

-- Each round takes an address, but for the last, which sees that all are taken.
unfoldable pub interleave : List EndpointAddress → Outcome (List EndpointAddress)
unfolding interleave_fuel
interleave addresses = interleave_fuel (length addresses + 2) addresses

-- The first address on another node than `node`, and its index; ("", 0) if there is none.
unfoldable pub find_other : String → List EndpointAddress → ℕ → String × ℕ
find_other node [] i = ("", 0)
find_other node (addr ∷ interleaved) i =
    if not (str_eq node addr.node_name) then (addr.ip, i) else find_other node interleaved (suc i)

pub record Chosen : Type 0 where
  pub ip : String
  pub slave : EndpointAddress
  pub rest : List EndpointAddress

-- The instance found, moved out of the slice. An empty IP counts as "none found".
unfoldable pub choose_at : List EndpointAddress → String × ℕ → Outcome Chosen
choose_at interleaved (instance_ip, index) = do
  let missing = str_eq instance_ip ""
  let remove_index = if missing then 0 else index
  slave ← deref (get_elem? interleaved remove_index)
  done (record {
    ip = if missing then slave.ip else instance_ip;
    slave = slave;
    rest = erase_idx interleaved remove_index;
  })

-- A slave for one master.
unfoldable pub choose_slave : EndpointAddress → List EndpointAddress → Outcome Chosen
unfolding find_other choose_at
choose_slave master interleaved = choose_at interleaved (find_other master.node_name interleaved 0)

-- The loop over the masters; `nodes_count` instances are not assigned yet.
unfoldable pub choose_slaves :
    List EndpointAddress → List EndpointAddress → ℕ → Outcome (List Chosen)
unfolding choose_slave
choose_slaves [] interleaved nodes_count = done []
choose_slaves (master ∷ masters) interleaved nodes_count = if nodes_count == 0 then done [] else (do
  chosen ← choose_slave master interleaved
  more ← choose_slaves masters chosen.rest (nodes_count - 1)
  done (chosen ∷ more))

-- `append(interleaved[1:], interleaved[:1]...)`: the empty slice has no `[1:]`.
unfoldable pub rotate : List EndpointAddress → Outcome (List EndpointAddress)
rotate [] = panic
rotate (first ∷ others) = done (others ++ first ∷ [])

-- The masters are the first half of the interleaving; each gets one slave from the rotated rest.
-- The deferred log reads `slaves[i]` for each master.
unfoldable pub assign_master_slave_ip :
    List EndpointAddress → Outcome (Result Error (List String × List String))
unfolding interleave rotate choose_slaves
assign_master_slave_ip [] = done (err no_addresses)
assign_master_slave_ip (addr ∷ addrs) = do
  let addresses = addr ∷ addrs
  let masters_count = length addresses / 2
  interleaved ← interleave addresses
  let masters = take masters_count interleaved
  rest ← rotate (drop masters_count interleaved)
  chosen ← choose_slaves masters rest (length addresses - length masters)
  if ltb (length chosen) (length masters)
      then panic
      else done (ok (map (λ a. a.ip) masters, map (λ c. c.ip) chosen))
