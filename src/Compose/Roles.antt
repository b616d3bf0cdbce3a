-- ===== src/Compose/Roles.antt =====
-- The whole of `composeMasterSlaveIP` (check_rediscluster.go) where enough instances join.
use mathlib.Core.List.Perm
use middleware_operator_mana.Assign.{Chosen}
use middleware_operator_mana.Assign.Rounds.{interleave_total}
use middleware_operator_mana.Assign.Slaves.{
  HasIps, Choices, Choices-length, HasIps-perm, choose_slaves-Choices,
}
use middleware_operator_mana.Base.{
  ℕ, zero, suc, ◌+◌, ◌-◌, ◌*◌, ◌/◌, ◌≤◌, ◌<◌, ◌≡◌, ◌≢◌, refl, sym, ap, subst, ◌∙◌, Bool-cases, inl,
  inr, List, [], ◌∷◌, ◌++◌, map, String, Perm, arith, length, get_elem?-lt, erase_idx,
  length-erase_idx, length-append, length-perm, length-eq-zero, take, ltb,
}
use middleware_operator_mana.Compose.{
  pos, sub_ℕ, is_count, Sorted, classify, Pick, is_same_node, pick_apart, pick_rest, pick_masters,
  has_key, without_slave, compose_slaves, compose_master_slave_ip,
}
use middleware_operator_mana.Compose.Masters.{pick_apart-Picked, pick_rest-Picked}
use middleware_operator_mana.Outcome.{done}
use middleware_operator_mana.Types.{EndpointAddress}

-- The first loop takes no more than `m`.
pub pick_apart_le :
    (m : ℕ) (news exist passed ahead : List EndpointAddress)
    → length news ≤ m
    → length (pick_apart (pos m) news exist passed ahead).new_master ≤ m
unfolding pick_apart
pick_apart_le m news exist passed [] h = h
pick_apart_le m news exist passed (addr ∷ ahead) h =
    elim (Bool-cases (is_count (length news) (pos m))) [
      | inl e ↦ rw (e, pick_apart) h
      | inr e ↦ elim (Bool-cases (is_same_node addr.node_name exist)) [
        | inl s ↦ rw (e, s, pick_apart) (pick_apart_le m news exist (passed ++ addr ∷ []) ahead h)
        | inr s ↦
            rw (e, s, pick_apart)
              (pick_apart_le m (news ++ addr ∷ []) (exist ++ addr ∷ []) passed ahead
                (let taken = length-append news (addr ∷ []) in ground arith))
      ]
    ]

-- The second loop takes the rest, as what is left is long enough for its growing index.
pick_rest_total :
    (fuel m i : ℕ) (p : Pick)
    → length p.new_master ≤ m
    → m - length p.new_master < fuel
    → i + 2 * (m - length p.new_master) ≤ length p.will_add + 1
    → (q : Pick) × (pick_rest fuel (pos m) i p ≡ done q) × (length q.new_master ≡ m)
unfolding pick_rest
pick_rest_total zero m i p le f h = absurd (omega arith)
pick_rest_total (suc fuel) m i p le f h = elim (Bool-cases (ltb (length p.new_master) m)) [
  | inr e ↦ (p, rw (e, pick_rest) refl, ground arith)
  | inl e ↦
      let short : length p.new_master < m = ground arith in
      let (a, g) = get_elem?-lt p.will_add i (omega arith) in
      let taken = length-append p.new_master (a ∷ []) in
      let left = length-erase_idx p.will_add i (omega arith) in
      let (q, r, n) =
        pick_rest_total fuel m (suc i)
          (record {
            new_master = p.new_master ++ a ∷ [];
            exist_master = p.exist_master ++ a ∷ [];
            will_add = erase_idx p.will_add i;
          })
          (omega (arith, taken)) (omega (arith, taken)) (omega (arith, taken, left)) in
      (q, rw (e, g, pick_rest) r, n)
]

without_slave_le :
    (connector : List (String × String)) (xs ys : List EndpointAddress)
    → length (without_slave connector (xs ++ ys)) ≤ length (without_slave connector xs) + length ys
unfolding without_slave
without_slave_le connector [] [] = omega arith
without_slave_le connector [] (y ∷ ys) = elim (Bool-cases (has_key y.ip connector)) [
  | inl e ↦ rw e (omega (arith, without_slave_le connector [] ys))
  | inr e ↦ rw e (omega (arith, without_slave_le connector [] ys))
]
without_slave_le connector (x ∷ xs) ys = elim (Bool-cases (has_key x.ip connector)) [
  | inl e ↦ rw e (without_slave_le connector xs ys)
  | inr e ↦ rw e (omega (arith, without_slave_le connector xs ys))
]

take_all {ℓ} : {A : Type ℓ} (xs : List A) → take (length xs) xs ≡ xs
take_all [] = refl
take_all (x ∷ xs) = ap (◌∷◌ x) (take_all xs)

-- The choice of the masters, where `m` are missing and no more than half of the instances.
pick_masters_total :
    (m : ℕ) (s : Sorted)
    → 2 * m ≤ length s.will_add
    → (p : Pick) × (pick_masters (pos m) s ≡ done p)
      × (length p.new_master ≡ m)
      × (p.exist_master ≡ s.exist_master ++ p.new_master)
      × Perm (p.new_master ++ p.will_add) s.will_add
unfolding pick_masters
pick_masters_total m s h =
    let first = pick_apart (pos m) [] s.exist_master [] s.will_add in
    let v = pick_apart-Picked (pos m) [] s.exist_master [] s.will_add in
    let le = pick_apart_le m [] s.exist_master [] s.will_add (omega arith) in
    let whole = length-perm v.kept in
    let split = length-append v.more first.will_add in
    let size = ap length v.picked in
    let (q, r, n) =
      pick_rest_total (suc (length first.will_add)) m 0 first le (omega arith) (omega arith) in
    let w =
      pick_rest-Picked (suc (length first.will_add)) (pos m) 0 [] s.exist_master s.will_add first q
        v r in
    (
      q,
      r,
      n,
      w.counted ∙ ap (λ l. s.exist_master ++ l) (sym w.picked),
      subst (λ l. Perm (l ++ q.will_add) s.will_add) (sym w.picked) w.kept,
    )

abbrev ips : List EndpointAddress → List String
ips = map (λ a. a.ip)

-- The choice of the slaves, where there are no more masters without one than instances left.
compose_slaves_total :
    (connector : List (String × String)) (p : Pick)
    → p.will_add ≢ []
    → HasIps p.will_add
    → length (without_slave connector p.exist_master) ≤ length p.will_add
    → (pool rest : List EndpointAddress) × (choices : List Chosen) × (compose_slaves connector p
        ≡ done (record {
          master_ips = ips p.new_master;
          slave_ips = map (λ c. c.ip) choices;
          parent_ips = ips (without_slave connector p.exist_master);
        }))
      × Perm pool p.will_add
      × Choices (without_slave connector p.exist_master) pool choices rest
unfolding compose_slaves
compose_slaves_total connector p some_left has enough =
    let orphans = without_slave connector p.exist_master in
    let (pool, e, moved) = interleave_total p.will_add some_left in
    let size = length-perm moved in
    let (cs, rest, c, chosen) =
      choose_slaves-Choices orphans pool (length p.will_add) (HasIps-perm moved has) (omega arith)
        enough in
    let all : take (length cs) orphans ≡ orphans =
      ap (λ (n : ℕ). take n orphans) (Choices-length orphans pool cs rest chosen)
      ∙ take_all orphans in
    (pool, rest, cs, rw (e, c, all) refl, moved, chosen)

HasIps-append_right : (xs ys : List EndpointAddress) → HasIps (xs ++ ys) → HasIps ys
HasIps-append_right [] ys h = h
HasIps-append_right (x ∷ xs) ys h = HasIps-append_right xs ys h.1

branch :
    {A : Type 0} (l : List EndpointAddress) → l ≢ [] → (x y : A) → (elim l [ [] ↦ x | _ ↦ y ]) ≡ y
branch [] h x y = absurd (h refl)
branch (a ∷ l) h x y = refl

-- Let `m` masters be missing, and let the new addresses that are not in the cluster yet, not none and
-- all with an IP, be enough for `m` masters, `m` slaves, and a slave for each of the new addresses
-- that is a master without one. Then the code returns: `m` of those addresses are the masters, the
-- slaves are others of them, one for each master without a slave, old or new, in the order of these;
-- a slave is on its master's node only if all that were left were on it; nothing is used twice.
pub compose-roles :
    (addresses : List EndpointAddress) (masters slaves : List String)
    (connector : List (String × String)) (m : ℕ)
    → sub_ℕ (length addresses / 2) (length masters) ≡ pos m
    → (classify masters slaves addresses).will_add ≢ []
    → HasIps (classify masters slaves addresses).will_add
    → length (without_slave connector (classify masters slaves addresses).exist_master) + 2 * m
      ≤ length (classify masters slaves addresses).will_add
    → (new pool rest : List EndpointAddress) × (choices : List Chosen) × (compose_master_slave_ip
          addresses masters slaves connector
        ≡ done (record {
          master_ips = ips new;
          slave_ips = map (λ c. c.ip) choices;
          parent_ips =
              ips
                (without_slave connector ((classify masters slaves addresses).exist_master ++ new));
        }))
      × (length new ≡ m)
      × Perm (new ++ pool) (classify masters slaves addresses).will_add
      × Choices
          (without_slave connector ((classify masters slaves addresses).exist_master ++ new))
          pool
          choices
          rest
unfolding compose_master_slave_ip
compose-roles addresses masters slaves connector m missing joins has enough =
    let s = classify masters slaves addresses in
    let (p, e, n, counted, kept) = pick_masters_total m s (omega arith) in
    let size = length-perm kept in
    let split = length-append p.new_master p.will_add in
    let orphans = without_slave_le connector s.exist_master p.new_master in
    let left = HasIps-append_right p.new_master p.will_add (HasIps-perm kept has) in
    let some_left : p.will_add ≢ [] =
      λ z. joins (length-eq-zero s.will_add (let none = ap length z in omega arith)) in
    let (pool, rest, cs, r, moved, chosen) =
      compose_slaves_total connector p some_left left (rw counted (omega arith)) in
    (
      p.new_master,
      pool,
      rest,
      cs,
      branch s.will_add joins _ _
          ∙ rw (missing, e)
              (subst
                (λ l.
                  compose_slaves connector p
                  ≡ done (record {
                    master_ips = ips p.new_master;
                    slave_ips = map (λ c. c.ip) cs;
                    parent_ips = ips (without_slave connector l);
                  }))
                counted r),
      n,
      Perm.trans (Perm.append_left p.new_master moved) kept,
      subst (λ l. Choices (without_slave connector l) pool cs rest) counted chosen,
    )
