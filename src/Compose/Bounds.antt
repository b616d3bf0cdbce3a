-- ===== src/Compose/Bounds.antt =====
-- How many new masters `composeMasterSlaveIP` (check_rediscluster.go) picks, when it returns.
use middleware_operator_mana.Base.{
  ℕ, zero, suc, ◌-◌, ◌/◌, ◌<◌, ◌≤◌, ◌≡◌, refl, sym, ap, ◌∙◌, false, List, [], ◌∷◌, ◌++◌, map,
  String, ltb, length, length-append, length-map, get_elem?, Bool-cases, Option-cases, inl, inr,
  arith,
}
use middleware_operator_mana.Compose.{
  pos, negsuc, sub_ℕ, Sorted, classify, Pick, is_same_node, pick_apart, pick_rest, pick_masters,
  Composition, without_slave, compose_slaves, compose_master_slave_ip,
}
use middleware_operator_mana.Compose.Masters.{pick_apart-Picked}
use middleware_operator_mana.Compose.Roles.{pick_apart_le}
use middleware_operator_mana.Assign.{interleave, choose_slaves}
use middleware_operator_mana.Outcome.{done, panic, diverge, ◌>>=◌, >>=-eq-done}
use middleware_operator_mana.Types.{EndpointAddress}

pick_rest_count :
    (fuel m i : ℕ) (p q : Pick)
    → length p.new_master ≤ m
    → pick_rest fuel (pos m) i p ≡ done q
    → length q.new_master ≡ m
unfolding pick_rest
pick_rest_count zero m i p q h r = cc
pick_rest_count (suc fuel) m i p q h r = elim (Bool-cases (ltb (length p.new_master) m)) [
  | inr e ↦
      let same : done p ≡ done q = rw (e, pick_rest) at r in
      let equal : p ≡ q = cc in rw⁻¹ equal (ground arith)
  | inl e ↦ elim (Option-cases (get_elem? p.will_add i)) [
    | inl g ↦ let never : panic ≡ done q = rw (e, g, pick_rest) at r in absurd (cc never)
    | inr (a, g) ↦
        let taken = length-append p.new_master (a ∷ []) in
        pick_rest_count fuel m (suc i) _ q (ground arith) (rw (e, g, pick_rest) at r)
  ]
]

-- The new masters that are returned are those that were picked.
compose_slaves-masters :
    (connector : List (String × String)) (p : Pick) (c : Composition)
    → compose_slaves connector p ≡ done c
    → c.master_ips ≡ map (λ a. a.ip) p.new_master
unfolding compose_slaves
compose_slaves-masters connector p c h =
    let (interleaved, _, r) = >>=-eq-done (interleave p.will_add) _ h in
    let (chosen, _, made) =
      >>=-eq-done
        (choose_slaves (without_slave connector p.exist_master) interleaved (length p.will_add)) _
        r in
    ap (λ o. elim o [ done d ↦ d.master_ips | panic ↦ [] | diverge ↦ [] ]) (sym made)

pick_rest-surplus : (fuel k : ℕ) (p q : Pick) → pick_rest (suc fuel) (negsuc k) 0 p ≡ done q → p ≡ q
unfolding pick_rest
pick_rest-surplus fuel k p q h = cc

pick_apart-fresh :
    (k : ℕ) (exist : List EndpointAddress) (addr : EndpointAddress) (rest : List EndpointAddress)
    → is_same_node addr.node_name exist ≡ false
    → (more : List EndpointAddress) × ((pick_apart (negsuc k) [] exist [] (addr ∷ rest)).new_master
        ≡ addr ∷ more)
unfolding pick_apart
pick_apart-fresh k exist addr rest fresh =
    let r = pick_apart-Picked (negsuc k) (addr ∷ []) (exist ++ addr ∷ []) [] rest in
    (r.more, rw (fresh, pick_apart) r.picked)

module _ (addresses : List EndpointAddress) (masters slaves : List String)
    (connector : List (String × String)) (addr : EndpointAddress) (rest : List EndpointAddress)
    (joins : (classify masters slaves addresses).will_add ≡ addr ∷ rest) (c : Composition)
    (returns : compose_master_slave_ip addresses masters slaves connector ≡ done c) where
  abbrev sorted : Sorted
  sorted = classify masters slaves addresses

  picked :
      (p : Pick) × (pick_masters (sub_ℕ (length addresses / 2) (length masters)) sorted ≡ done p)
      × (c.master_ips ≡ map (λ a. a.ip) p.new_master)
  unfolding compose_master_slave_ip
  picked =
      let run : (pick_masters (sub_ℕ (length addresses / 2) (length masters)) sorted >>= λ p.
      compose_slaves connector p)
          ≡ done c =
        rw (joins, compose_master_slave_ip) at returns in
      let (p, e, r) = >>=-eq-done _ (λ p. compose_slaves connector p) run in
      (p, e, compose_slaves-masters connector p c r)

  -- When the code returns for a cluster that is joined by some address and has at most half as many
  -- masters as there are addresses, it returns exactly the masters that are missing to half.
  pub compose-count :
      length masters ≤ length addresses / 2
      → length c.master_ips ≡ length addresses / 2 - length masters
  unfolding pick_masters
  compose-count few =
      let (p, e, same) = picked in
      let m = length addresses / 2 - length masters in
      let missing : sub_ℕ (length addresses / 2) (length masters) ≡ pos m = ground arith in
      let first = pick_apart (pos m) [] sorted.exist_master [] sorted.will_add in
      let chosen : length p.new_master ≡ m =
        pick_rest_count (suc (length first.will_add)) m 0 first p
          (pick_apart_le m [] sorted.exist_master [] sorted.will_add (omega arith))
          (rw missing at e) in
      rw same (length-map (λ a. a.ip) p.new_master ∙ chosen)

  -- When it has more masters than that, so that none is missing, the first address that joins becomes
  -- a master all the same if no existing master is on its node.
  pub compose-surplus :
      length addresses / 2 < length masters
      → is_same_node addr.node_name sorted.exist_master ≡ false
      → (more : List String) × (c.master_ips ≡ addr.ip ∷ more)
  unfolding pick_masters pick_apart
  compose-surplus many fresh =
      let (p, e, same) = picked in
      let k = length masters - length addresses / 2 - 1 in
      let none_missing : sub_ℕ (length addresses / 2) (length masters) ≡ negsuc k = ground arith in
      let ended : pick_masters (negsuc k) sorted ≡ done p = rw none_missing at e in
      let only : pick_apart (negsuc k) [] sorted.exist_master [] sorted.will_add ≡ p =
        pick_rest-surplus
          (length (pick_apart (negsuc k) [] sorted.exist_master [] sorted.will_add).will_add) k _ p
          ended in
      let (more, taken) = pick_apart-fresh k sorted.exist_master addr rest fresh in
      (map (λ a. a.ip) more, rw (same, sym only, joins, taken) refl)
