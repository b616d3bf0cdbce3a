-- ===== src/Assign/Slaves.antt =====
-- The choice of a slave for each master (sync_rediscluster.go, check_rediscluster.go).
use mathlib.Core.List.Perm
use mathlib.Core.HLevel.{¬_prop}
use middleware_operator_mana.Assign.{Chosen, find_other, choose_at, choose_slave, choose_slaves}
use middleware_operator_mana.Base.{
  ℕ, suc, ◌+◌, ◌-◌, ◌≤◌, ◌≡◌, refl, sym, ap, false, List, [], ◌∷◌, ◌++◌, map, String, str_eq,
  eq_iff, Perm, All, arith, length, ◌==◌, Bool-cases, some, get_elem?, erase_idx, erase_idx-perm,
  All-get_elem?, All-perm, length-perm, ◌≢◌, ◌⊎◌, inl, inr, ◌∙◌,
}
use middleware_operator_mana.Outcome.{done}
use middleware_operator_mana.Types.{EndpointAddress}

-- What `find_other` finds, with its index counted from `i`.
find_other_cases :
    (node : String) (pool : List EndpointAddress) (i : ℕ)
    → ((find_other node pool i ≡ ("", 0)) × All (λ a. node ≡ a.node_name) pool)
      ⊎ ((k : ℕ) × (a : EndpointAddress) × (get_elem? pool k ≡ some a)
          × (find_other node pool i ≡ (a.ip, i + k))
          × (a.node_name ≢ node))
unfolding find_other
find_other_cases node [] i = inl (refl, tt)
find_other_cases node (addr ∷ pool) i = elim (Bool-cases (str_eq node addr.node_name)) [
  | inr e ↦ inr (
    0,
    addr,
    refl,
    rw e (ap (λ (t : ℕ). (addr.ip, t)) (omega arith)),
    λ q. cc (e, (eq_iff node addr.node_name).1 (sym q)),
  )
  | inl e ↦ elim (find_other_cases node pool (suc i)) [
    | inl (h, all) ↦ inl (rw e h, ((eq_iff node addr.node_name).0 e, all))
    | inr (k, a, g, h, d) ↦
        inr (suc k, a, g, rw (e, h) (ap (λ (t : ℕ). (a.ip, t)) (omega arith)), d)
  ]
]

-- A choice out of `pool` for a master on `node`: it moves one instance out, and takes one on the
-- master's own node only if all of the pool is there.
pub record Choice (node : String) (pool : List EndpointAddress) (c : Chosen) : Type 0 where
  pub moved : Perm (c.slave ∷ c.rest) pool
  pub named : c.ip ≡ c.slave.ip
  pub apart : (c.slave.node_name ≢ node) ⊎ All (λ a. node ≡ a.node_name) pool

-- No IP is empty.
abbrev pub HasIps : List EndpointAddress → Type 0
HasIps = All (λ a. a.ip ≢ "")

choose_at_found :
    (pool : List EndpointAddress) (k : ℕ) (a : EndpointAddress)
    → a.ip ≢ ""
    → get_elem? pool k ≡ some a
    → choose_at pool (a.ip, k) ≡ done (record { ip = a.ip; slave = a; rest = erase_idx pool k })
unfolding choose_at
choose_at_found pool k a ne g = elim (Bool-cases (str_eq a.ip "")) [
  | inl e ↦ absurd (ne ((eq_iff a.ip "").0 e))
  | inr e ↦ rw (e, g) refl
]

choose_at_missing :
    (first : EndpointAddress) (others : List EndpointAddress)
    → choose_at (first ∷ others) ("", 0)
      ≡ done (record { ip = first.ip; slave = first; rest = others })
unfolding choose_at
choose_at_missing first others = refl

-- A choice is made out of every pool that is not empty.
pub choose_slave-Choice :
    (master first : EndpointAddress) (others : List EndpointAddress)
    → HasIps (first ∷ others)
    → (c : Chosen) × (choose_slave master (first ∷ others) ≡ done c)
      × Choice master.node_name (first ∷ others) c
unfolding choose_slave
choose_slave-Choice master first others ips =
    elim (find_other_cases master.node_name (first ∷ others) 0) [
      | inl (h, all) ↦ (
        record { ip = first.ip; slave = first; rest = others },
        ap (choose_at (first ∷ others)) h ∙ choose_at_missing first others,
        record { moved = Perm.rfl; named = refl; apart = inr all },
      )
      | inr (k, a, g, h, d) ↦ (
        record { ip = a.ip; slave = a; rest = erase_idx (first ∷ others) k },
        ap (choose_at (first ∷ others)) (h ∙ ap (λ (t : ℕ). (a.ip, t)) (omega arith))
            ∙ choose_at_found (first ∷ others) k a
                (All-get_elem? (λ x. x.ip ≢ "") (first ∷ others) k a ips g) g,
        record { moved = erase_idx-perm (first ∷ others) k g; named = refl; apart = inl d },
      )
    ]

-- One choice for each master, each out of what the earlier ones left; `rest` is left at the end.
abbrev pub Choices :
    List EndpointAddress → List EndpointAddress → List Chosen → List EndpointAddress → Type 0
Choices [] pool [] rest = pool ≡ rest
Choices [] pool (c ∷ cs) rest = ⊥
Choices (m ∷ ms) pool [] rest = ⊥
Choices (m ∷ ms) pool (c ∷ cs) rest = Choice m.node_name pool c × Choices ms c.rest cs rest

pub Choices-perm :
    (masters pool : List EndpointAddress) (cs : List Chosen) (rest : List EndpointAddress)
    → Choices masters pool cs rest
    → Perm (map (λ c. c.slave) cs ++ rest) pool
Choices-perm [] pool [] rest h = rw h Perm.rfl
Choices-perm [] pool (c ∷ cs) rest h = absurd h
Choices-perm (m ∷ ms) pool [] rest h = absurd h
Choices-perm (m ∷ ms) pool (c ∷ cs) rest h =
    Perm.trans (Perm.cons c.slave (Choices-perm ms c.rest cs rest h.1)) h.0.moved

pub Choices-length :
    (masters pool : List EndpointAddress) (cs : List Chosen) (rest : List EndpointAddress)
    → Choices masters pool cs rest
    → length cs ≡ length masters
Choices-length [] pool [] rest h = refl
Choices-length [] pool (c ∷ cs) rest h = absurd h
Choices-length (m ∷ ms) pool [] rest h = absurd h
Choices-length (m ∷ ms) pool (c ∷ cs) rest h = ap suc (Choices-length ms c.rest cs rest h.1)

pub Choices-ips :
    (masters pool : List EndpointAddress) (cs : List Chosen) (rest : List EndpointAddress)
    → Choices masters pool cs rest
    → map (λ c. c.ip) cs ≡ map (λ a. a.ip) (map (λ c. c.slave) cs)
Choices-ips [] pool [] rest h = refl
Choices-ips [] pool (c ∷ cs) rest h = absurd h
Choices-ips (m ∷ ms) pool [] rest h = absurd h
Choices-ips (m ∷ ms) pool (c ∷ cs) rest h = cc (h.0.named, Choices-ips ms c.rest cs rest h.1)

pub HasIps-perm : {xs ys : List EndpointAddress} → Perm xs ys → HasIps ys → HasIps xs
HasIps-perm p h = All-perm (λ a. a.ip ≢ "") (λ a. ¬_prop) p h

-- Where the pool is large enough, every master gets its choice, and nothing panics.
pub choose_slaves-Choices :
    (masters pool : List EndpointAddress) (nodes_count : ℕ)
    → HasIps pool
    → length masters ≤ length pool
    → length masters ≤ nodes_count
    → (cs : List Chosen) × (rest : List EndpointAddress) × (choose_slaves masters pool nodes_count
        ≡ done cs)
      × Choices masters pool cs rest
unfolding choose_slaves
choose_slaves-Choices [] pool n ips fits enough = ([], pool, refl, refl)
choose_slaves-Choices (m ∷ ms) [] n ips fits enough = absurd (omega arith)
choose_slaves-Choices (m ∷ ms) (a ∷ pool) n ips fits enough =
    let (c, e, choice) = choose_slave-Choice m a pool ips in
    let l = length-perm choice.moved in
    let (cs, rest, h, k) =
      choose_slaves-Choices ms c.rest (n - 1) (HasIps-perm choice.moved ips).1 (omega arith)
        (omega arith) in
    let more : (n == 0) ≡ false = ground arith in (c ∷ cs, rest, rw (more, e, h) refl, (choice, k))
