-- ===== src/Assign/Plan.antt =====
-- The whole of `assignMasterSlaveIP` (sync_rediscluster.go): masters, slaves, and what is left over.
use mathlib.Core.List.{Nodup-append, perm_append_singleton}
use mathlib.Core.List.Perm
use middleware_operator_mana.Assign.{
  Chosen, interleave, rotate, assign_master_slave_ip, group, sorted_keys,
}
use middleware_operator_mana.Assign.Rounds.{interleave_total}
use middleware_operator_mana.Assign.Slaves.{
  HasIps, Choices, Choices-perm, Choices-length, Choices-ips, HasIps-perm, choose_slaves-Choices,
}
use middleware_operator_mana.Assign.Spread.{nodes, interleave_spread}
use middleware_operator_mana.Base.{
  ℕ, zero, suc, ◌-◌, ◌/◌, ◌≤◌, ◌<◌, ◌%◌, ◌≡◌, refl, sym, ap, subst, List, [], ◌∷◌, ◌++◌, map,
  String, Perm, Nodup, arith, length, take, drop, take-append-drop, length-take, length-drop,
  length-append, length-perm, length-map, ltb, false, ◌≢◌, ◌∙◌,
}
use middleware_operator_mana.Errors.{ok}
use middleware_operator_mana.Outcome.{done}
use middleware_operator_mana.Types.{EndpointAddress}

abbrev ips : List EndpointAddress → List String
ips = map (λ a. a.ip)

abbrev slaves_of : List Chosen → List EndpointAddress
slaves_of = map (λ c. c.slave)

rotate_total :
    (xs : List EndpointAddress)
    → 0 < length xs
    → (ys : List EndpointAddress) × (rotate xs ≡ done ys) × Perm ys xs
unfolding rotate
rotate_total [] h = elim h [ ]
rotate_total (x ∷ xs) h = (xs ++ x ∷ [], refl, perm_append_singleton x xs)

HasIps-append_right : (xs ys : List EndpointAddress) → HasIps (xs ++ ys) → HasIps ys
HasIps-append_right [] ys h = h
HasIps-append_right (x ∷ xs) ys h = HasIps-append_right xs ys h.1

-- A run: the interleaving `l`, the pool the slaves are chosen from, and the choices.
record Run (addresses : List EndpointAddress) : Type 0 where
  l : List EndpointAddress
  interleaved : interleave addresses ≡ done l
  pool : List EndpointAddress
  choices : List Chosen
  rest : List EndpointAddress
  pooled : Perm pool (drop (length addresses / 2) l)
  chosen : Choices (take (length addresses / 2) l) pool choices rest
  moved : Perm l addresses
  halved : length (take (length addresses / 2) l) ≡ length addresses / 2
  returned :
      assign_master_slave_ip addresses
      ≡ done (ok (ips (take (length addresses / 2) l), map (λ c. c.ip) choices))

run : (addresses : List EndpointAddress) → addresses ≢ [] → HasIps addresses → Run addresses
unfolding assign_master_slave_ip
run [] h has = absurd (h refl)
run (a ∷ others) h has =
    let addresses : List EndpointAddress = a ∷ others in
    let k = length addresses / 2 in
    let (l, e, p) = interleave_total addresses h in
    let size = length-perm p in
    let halved = length-take k l (omega arith) in
    let (pool, r, pooled) = rotate_total (drop k l) (omega (arith, length-drop k l)) in
    let pool_ips = HasIps-perm pooled (
      HasIps-append_right (take k l) (drop k l)
        (subst HasIps (sym (take-append-drop k l)) (HasIps-perm p has))) in
    let (cs, rest, c, chosen) =
      choose_slaves-Choices (take k l) pool (length addresses - length (take k l)) pool_ips
        (omega (arith, length-perm pooled, length-drop k l)) (omega arith) in
    let paired : ltb (length cs) (length (take k l)) ≡ false =
      ground (arith, Choices-length (take k l) pool cs rest chosen) in
    record {
      l = l;
      interleaved = e;
      pool = pool;
      choices = cs;
      rest = rest;
      pooled = pooled;
      chosen = chosen;
      moved = p;
      halved = halved;
      returned = rw (e, r, c, paired) refl;
    }

-- For instances, not none and all with an IP, the code returns masters and slaves: each list as long as
-- half of the instances, rounded down; together with what is left over, one instance if their number
-- is odd and none if it is even, they are the instances, each used once.
pub assign-partition :
    (addresses : List EndpointAddress)
    → addresses ≢ []
    → HasIps addresses
    → (masters slaves rest : List EndpointAddress) × (assign_master_slave_ip addresses
        ≡ done (ok (ips masters, ips slaves)))
      × Perm (masters ++ (slaves ++ rest)) addresses
      × (length masters ≡ length addresses / 2)
      × (length slaves ≡ length addresses / 2)
      × (length rest ≡ length addresses % 2)
assign-partition addresses h has =
    let r = run addresses h has in
    let k = length addresses / 2 in
    let masters = take k r.l in
    let slaves = slaves_of r.choices in
    let named = Choices-ips masters r.pool r.choices r.rest r.chosen in
    let shared = Choices-perm masters r.pool r.choices r.rest r.chosen in
    let whole : Perm (masters ++ (slaves ++ r.rest)) addresses =
      Perm.trans (Perm.append_left masters (Perm.trans shared r.pooled))
        (subst (λ x. Perm x addresses) (sym (take-append-drop k r.l)) r.moved) in
    let count : length slaves ≡ length addresses / 2 =
      length-map (λ c. c.slave) r.choices
      ∙ Choices-length masters r.pool r.choices r.rest r.chosen
      ∙ r.halved in
    (
      masters,
      slaves,
      r.rest,
      r.returned ∙ ap (λ x. done (ok (ips masters, x))) named,
      whole,
      r.halved,
      count,
      omega (
        arith,
        length-perm whole,
        length-append masters (slaves ++ r.rest),
        length-append slaves r.rest,
        r.halved,
        count,
      ),
    )

-- For instances, not none and all with an IP, the slaves that the code returns are choices made for the
-- masters one by one out of the instances that are no masters: each takes its instance out of the pool
-- that the earlier ones left, and an instance on its master's own node only if the pool had no other.
pub assign-slaves_apart :
    (addresses : List EndpointAddress)
    → addresses ≢ []
    → HasIps addresses
    → (masters pool rest : List EndpointAddress) × (choices : List Chosen) × (assign_master_slave_ip
          addresses
        ≡ done (ok (ips masters, map (λ c. c.ip) choices)))
      × Perm (masters ++ pool) addresses
      × Choices masters pool choices rest
assign-slaves_apart addresses h has =
    let r = run addresses h has in
    let k = length addresses / 2 in
    (
      take k r.l,
      r.pool,
      r.rest,
      r.choices,
      r.returned,
      Perm.trans (Perm.append_left (take k r.l) r.pooled)
          (subst (λ x. Perm x addresses) (sym (take-append-drop k r.l)) r.moved),
      r.chosen,
    )

take-append_left {ℓ} :
    {A : Type ℓ} (n : ℕ) (xs ys : List A) → n ≤ length xs → take n (xs ++ ys) ≡ take n xs
take-append_left zero xs ys h = refl
take-append_left (suc n) [] ys h = elim h [ ]
take-append_left (suc n) (x ∷ xs) ys h = ap (◌∷◌ x) (take-append_left n xs ys (omega arith))

map-take {ℓ κ} :
    {A : Type ℓ} {B : Type κ} (f : A → B) (n : ℕ) (xs : List A)
    → map f (take n xs) ≡ take n (map f xs)
map-take f zero xs = refl
map-take f (suc n) [] = refl
map-take f (suc n) (x ∷ xs) = ap (◌∷◌ (f x)) (map-take f n xs)

-- For instances, not none and all with an IP, on at least half as many nodes as there are instances,
-- no two masters that the code returns are on one node: they are on the first nodes by name.
pub assign-masters_apart :
    (addresses : List EndpointAddress)
    → addresses ≢ []
    → HasIps addresses
    → length addresses / 2 ≤ length (sorted_keys (group addresses))
    → (masters others : List EndpointAddress) × (slave_ips : List String) × (assign_master_slave_ip
          addresses
        ≡ done (ok (ips masters, slave_ips)))
      × Perm (masters ++ others) addresses
      × (nodes masters ≡ take (length addresses / 2) (sorted_keys (group addresses)))
      × Nodup (nodes masters)
assign-masters_apart addresses h has enough =
    let r = run addresses h has in
    let k = length addresses / 2 in
    let (heads, more, e, names, distinct) = interleave_spread addresses r.l r.interleaved in
    let wide : k ≤ length heads =
      omega (arith, ap length names, length-map (λ a. a.node_name) heads) in
    let front : take k r.l ≡ take k heads = ap (take k) e ∙ take-append_left k heads more wide in
    let named : nodes (take k r.l) ≡ take k (nodes heads) =
      ap nodes front ∙ map-take (λ a. a.node_name) k heads in
    (
      take k r.l,
      drop k r.l,
      map (λ c. c.ip) r.choices,
      r.returned,
      subst (λ x. Perm x addresses) (sym (take-append-drop k r.l)) r.moved,
      named ∙ ap (take k) names,
      subst Nodup (sym named)
          ((Nodup-append {l₁ = take k (nodes heads)}).0
            (subst Nodup (sym (take-append-drop k (nodes heads))) distinct)).0,
    )
