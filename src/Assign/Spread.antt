-- ===== src/Assign/Spread.antt =====
-- The first round of the interleaving (sync_rediscluster.go, check_rediscluster.go).
use mathlib.Core.List.{append-nil, append_assoc, Nodup-cons, mem-cons, mem-cons_of_mem}
use mathlib.Core.Logic.Or
use middleware_operator_mana.Assign.{
  Interleaving, update, take_from, round, rounds, initial, interleave_fuel, interleave, group,
  sorted_keys,
}
use middleware_operator_mana.Assign.Groups.{group-Start}
use middleware_operator_mana.Base.{
  ℕ, zero, suc, ◌+◌, ◌≡◌, refl, sym, ap, subst, List, [], ◌∷◌, ◌++◌, map, String, Mem, Nodup, arith,
  length, Bool-cases, ◌≢◌, inl, inr, All, ◌∙◌, str_eq, eq_iff,
}
use middleware_operator_mana.Outcome.{done}
use middleware_operator_mana.Types.{EndpointAddress}

abbrev pub nodes : List EndpointAddress → List String
nodes = map (λ a. a.node_name)

-- What a loop that only appends ends with.
abbrev Extends : List EndpointAddress → List EndpointAddress → Type 0
Extends xs ys = (more : List EndpointAddress) × (ys ≡ xs ++ more)

Extends-trans : (xs ys zs : List EndpointAddress) → Extends xs ys → Extends ys zs → Extends xs zs
Extends-trans xs ys zs (m, e) (n, f) = (m ++ n, rw (f, e) (append_assoc xs m n))

take_from-Extends :
    (n : ℕ) (key : String) (bucket : List EndpointAddress) (st : Interleaving)
    → Extends st.interleaved (take_from n key bucket st).interleaved
take_from-Extends n key [] st = ([], ground (arith, append-nil st.interleaved))
take_from-Extends n key (addr ∷ rest) st = (addr ∷ [], refl)

round-Extends :
    (n : ℕ) (keys : List String) (st : Interleaving)
    → Extends st.interleaved (round n keys st).interleaved
unfolding round
round-Extends n [] st = ([], sym (append-nil st.interleaved))
round-Extends n (key ∷ keys) st =
    Extends-trans _ _ _ (take_from-Extends n key (st.at key) st)
      (round-Extends n keys (take_from n key (st.at key) st))

rounds-Extends :
    (fuel n : ℕ) (keys : List String) (st : Interleaving) (l : List EndpointAddress)
    → rounds fuel n keys st ≡ done l
    → Extends st.interleaved l
unfolding rounds
rounds-Extends zero n keys st l h = cc
rounds-Extends (suc fuel) n keys st l h = elim (Bool-cases st.is_loop) [
  | inr e ↦ ([], ground (arith, append-nil st.interleaved))
  | inl e ↦
      Extends-trans _ _ _ (round-Extends n keys st)
        (rounds-Extends fuel n keys (round n keys st) l (rw (e, rounds) at h))
]

placed_update :
    (key : String) (addr : EndpointAddress) (rest : List EndpointAddress)
    (at : String → List EndpointAddress)
    → at key ≡ addr ∷ rest
    → ((k : String) → All (λ a. a.node_name ≡ k) (at k))
    → (k : String) → All (λ a. a.node_name ≡ k) (update at key rest k)
placed_update key addr rest at e p k = elim (Bool-cases (str_eq key k)) [
  | inl h ↦
      let q : key ≡ k = (eq_iff key k).0 h in
      rw h (subst (λ b. All (λ a. a.node_name ≡ k) b) (ap at (sym q) ∙ e) (p k)).1
  | inr h ↦ rw h (p k)
]

All-same :
    (keys : List String) (at at' : String → List EndpointAddress) (key : String)
    → ¬ Mem key keys
    → ((k : String) → ¬ (key ≡ k) → at' k ≡ at k)
    → All (λ k. at k ≢ []) keys
    → All (λ k. at' k ≢ []) keys
All-same [] at at' key h same f = tt
All-same (k ∷ keys) at at' key h same f = (
  rw (same k (λ q. h (mem-cons.1 (Or.inl q)))) f.0,
  All-same keys at at' key (λ m. h (mem-cons_of_mem k m)) same f.1,
)

abbrev Heads : ℕ → List String → Interleaving → List EndpointAddress → Type 0
Heads n keys st before =
    (heads : List EndpointAddress) × ((round n keys st).interleaved ≡ before ++ heads)
    × (nodes heads ≡ keys)

head_step :
    (n : ℕ) (key : String) (keys : List String) (bucket : List EndpointAddress) (st : Interleaving)
    → st.at key ≡ bucket
    → bucket ≢ []
    → ((k : String) → All (λ a. a.node_name ≡ k) (st.at k))
    → ((s : Interleaving)
        → ((k : String) → All (λ a. a.node_name ≡ k) (s.at k))
        → ((k : String) → ¬ (key ≡ k) → s.at k ≡ st.at k)
        → Heads n keys s s.interleaved)
    → (heads : List EndpointAddress) × ((round n keys (take_from n key bucket st)).interleaved
        ≡ st.interleaved ++ heads)
      × (nodes heads ≡ key ∷ keys)
head_step n key keys [] st e ne p ih = absurd (ne refl)
head_step n key keys (addr ∷ rest) st e ne p ih =
    let (heads, q, r) =
      ih (take_from n key (addr ∷ rest) st) (placed_update key addr rest st.at e p) (λ k d.
        elim (Bool-cases (str_eq key k)) [
          | inl h ↦ absurd (d ((eq_iff key k).0 h))
          | inr h ↦ rw h refl
        ]) in
    let first : addr.node_name ≡ key = (subst (All (λ a. a.node_name ≡ key)) e (p key)).0 in
    (addr ∷ heads, q ∙ append_assoc st.interleaved (addr ∷ []) heads, cc (first, r))

-- Over distinct nodes that all have an address left, a round takes one from each, in their order.
round-Heads :
    (n : ℕ) (keys : List String) (st : Interleaving)
    → Nodup keys
    → ((k : String) → All (λ a. a.node_name ≡ k) (st.at k))
    → All (λ k. st.at k ≢ []) keys
    → Heads n keys st st.interleaved
unfolding round
round-Heads n [] st d p f = ([], sym (append-nil st.interleaved), refl)
round-Heads n (key ∷ keys) st d p f =
    head_step n key keys (st.at key) st refl f.0 p λ s placed same.
      round-Heads n keys s (Nodup-cons.0 d).1 placed
        (All-same keys st.at s.at key (Nodup-cons.0 d).0 same f.1)

-- The result of the interleaving begins with one address of each node, in the order of the nodes'
-- names, no node twice.
pub interleave_spread :
    (addresses l : List EndpointAddress)
    → interleave addresses ≡ done l
    → (heads more : List EndpointAddress) × (l ≡ heads ++ more)
      × (nodes heads ≡ sorted_keys (group addresses))
      × Nodup (nodes heads)
unfolding interleave interleave_fuel rounds
interleave_spread addresses l h =
    let s = group-Start addresses in
    let keys = sorted_keys (group addresses) in
    let n = length addresses in
    let two : n + 2 ≡ suc (n + 1) = omega arith in
    let start = initial (group addresses) in
    let (heads, first, names) = round-Heads n keys start s.distinct s.placed s.filled in
    let (more, e) =
      rounds-Extends (n + 1) n keys (round n keys start) l
        (subst (λ f. rounds f n keys start ≡ done l) two h) in
    (heads, more, e ∙ ap (λ x. x ++ more) first, names, subst Nodup (sym names) s.distinct)
