-- ===== src/Assign/Rounds.antt =====
-- The loop that interleaves the pods of the nodes (sync_rediscluster.go, check_rediscluster.go), round by
-- round.
use mathlib.Core.List.{append-nil, append-eq-nil_iff, append_assoc, mem-cons_self, mem-cons_of_mem}
use mathlib.Core.List.Perm
use middleware_operator_mana.Assign.{
  Interleaving, update, take_from, round, rounds, initial, interleave_fuel, interleave, group,
  sorted_keys,
}
use middleware_operator_mana.Assign.Buckets.{flat, flat-update-perm}
use middleware_operator_mana.Assign.Groups.{group-Start}
use middleware_operator_mana.Base.{
  ℕ, zero, suc, ◌+◌, ◌≤◌, ◌<◌, ◌≡◌, refl, sym, subst, true, false, List, [], ◌∷◌, ◌++◌, String,
  Perm, Nodup, arith, length, ◌==◌, All, ◌⊎◌, ◌∙◌, Nat-cases, Mem, length-append, length-perm,
  length-eq-zero, ==_iff, Bool-cases, ◌≢◌, inl, inr,
}
use middleware_operator_mana.Outcome.{Outcome, done, diverge}
use middleware_operator_mana.Types.{EndpointAddress}
use middleware_operator_mana.Util.Slice.{string_eq, in_slice, in_slice-Mem}

module _ (addresses : List EndpointAddress) (keys : List String) (distinct : Nodup keys) where
  -- No address is lost or made up, and the loop stops only when all are taken.
  record Inv (st : Interleaving) : Type 0 where
    held : Perm (st.interleaved ++ flat keys st.at) addresses
    full : st.is_loop ≡ false → length st.interleaved ≡ length addresses

  take_from-Inv :
      (key : String) (bucket : List EndpointAddress) (st : Interleaving)
      → in_slice key keys ≡ true
      → st.at key ≡ bucket
      → Inv st
      → Inv (take_from (length addresses) key bucket st)
  take_from-Inv key [] st k e v = elim (Bool-cases (length st.interleaved == length addresses)) [
    | inl h ↦ rw h (record { held = v.held; full = λ _. (==_iff _ _).0 h })
    | inr h ↦ rw h v
  ]
  take_from-Inv key (addr ∷ rest) st k e v =
      let moved =
        flat-update-perm keys st.at key (addr ∷ []) [] rest distinct k
          (subst (λ b. Perm (addr ∷ rest) b) (sym e) Perm.rfl) in
      let held : Perm ((st.interleaved ++ addr ∷ []) ++ flat keys (update st.at key rest))
          addresses =
        rw append_assoc (Perm.trans (Perm.append_left st.interleaved moved) v.held) in
      record {
        held = held;
        full = λ stopped. absurd (
            omega (
              arith,
              length-perm held,
              length-append (st.interleaved ++ addr ∷ []) (flat keys (update st.at key rest)),
              length-append st.interleaved (addr ∷ []),
              v.full stopped,
            ));
      }

  abbrev Known : List String → Type 0
  Known ks = All (λ k. in_slice k keys ≡ true) ks

  round-Inv :
      (ks : List String) (st : Interleaving)
      → Known ks
      → Inv st
      → Inv (round (length addresses) ks st)
  unfolding round
  round-Inv [] st k v = v
  round-Inv (key ∷ ks) st k v = round-Inv ks _ k.1 (take_from-Inv key (st.at key) st k.0 refl v)

-- `round` only adds to what is taken.
take_from-grows :
    (n : ℕ) (key : String) (bucket : List EndpointAddress) (st : Interleaving)
    → length st.interleaved ≤ length (take_from n key bucket st).interleaved
take_from-grows n key [] st = ground arith
take_from-grows n key (addr ∷ rest) st = omega (arith, length-append st.interleaved (addr ∷ []))

round-grows :
    (n : ℕ) (keys : List String) (st : Interleaving)
    → length st.interleaved ≤ length (round n keys st).interleaved
unfolding round
round-grows n [] st = omega arith
round-grows n (key ∷ keys) st = omega (
  arith,
  take_from-grows n key (st.at key) st,
  round-grows n keys (take_from n key (st.at key) st),
)

-- While a bucket is not empty, a round takes something.
take_from_rest :
    (n : ℕ) (key : String) (keys : List String) (bucket : List EndpointAddress) (st : Interleaving)
    → ((s : Interleaving)
        → 0 < length (flat keys s.at)
        → length s.interleaved < length (round n keys s).interleaved)
    → 0 < length (bucket ++ flat keys st.at)
    → length st.interleaved < length (round n keys (take_from n key bucket st)).interleaved
take_from_rest n key keys [] st ih h = elim (Bool-cases (length st.interleaved == n)) [
  | inl e ↦ rw e (ih (record st { is_loop = false }) h)
  | inr e ↦ rw e (ih st h)
]
take_from_rest n key keys (addr ∷ rest) st ih h = omega (
  arith,
  length-append st.interleaved (addr ∷ []),
  round-grows n keys (take_from n key (addr ∷ rest) st),
)

round_takes :
    (n : ℕ) (keys : List String) (st : Interleaving)
    → 0 < length (flat keys st.at)
    → length st.interleaved < length (round n keys st).interleaved
unfolding round
round_takes n [] st h = elim h [ ]
round_takes n (key ∷ keys) st h = take_from_rest n key keys (st.at key) st (round_takes n keys) h

-- Once everything is taken, the next round stops the loop.
all_taken :
    (n : ℕ) (keys : List String) (st : Interleaving)
    → flat keys st.at ≡ []
    → length st.interleaved ≡ n
    → ((keys ≢ []) ⊎ (st.is_loop ≡ false))
    → ((round n keys st).is_loop ≡ false) × ((round n keys st).interleaved ≡ st.interleaved)
unfolding round
all_taken n [] st e l (inl h) = absurd (h refl)
all_taken n [] st e l (inr h) = (h, refl)
all_taken n (key ∷ keys) st e l h =
    let (empty, others) = (append-eq-nil_iff {p = st.at key} {q = flat keys st.at}).0 e in
    let full : (length st.interleaved == n) ≡ true = (==_iff _ _).1 l in
    rw (empty, round, full) (all_taken n keys (record st { is_loop = false }) others l (inr refl))

module _ (addresses : List EndpointAddress) (keys : List String) (distinct : Nodup keys)
    (known : All (λ k. in_slice k keys ≡ true) keys) (some_key : keys ≢ []) where
  abbrev Ends : Outcome (List EndpointAddress) → Type 0
  Ends r = (l : List EndpointAddress) × (r ≡ done l) × Perm l addresses

  left_over :
      (st : Interleaving)
      → Inv addresses keys distinct st
      → length st.interleaved + length (flat keys st.at) ≡ length addresses
  left_over st v = sym (length-append st.interleaved (flat keys st.at)) ∙ length-perm v.held

  Ends-stopped :
      (fuel : ℕ) (st : Interleaving)
      → Inv addresses keys distinct st
      → 0 < fuel
      → st.is_loop ≡ false
      → Ends (rounds fuel (length addresses) keys st)
  unfolding rounds
  Ends-stopped zero st v h e = elim h [ ]
  Ends-stopped (suc fuel) st v h e =
      let nothing : flat keys st.at ≡ [] =
        length-eq-zero (flat keys st.at) (omega (arith, left_over st v, v.full e)) in
      rw (e, rounds)
        (
          st.interleaved,
          refl,
          subst (λ l. Perm l addresses) (append-nil st.interleaved)
              (subst (λ l. Perm (st.interleaved ++ l) addresses) nothing v.held),
        )

  rounds_end :
      (fuel : ℕ) (st : Interleaving)
      → Inv addresses keys distinct st
      → length addresses + 2 ≤ fuel + length st.interleaved
      → Ends (rounds fuel (length addresses) keys st)
  unfolding rounds
  rounds_end zero st v h = absurd (omega (arith, left_over st v))
  rounds_end (suc fuel) st v h = elim (Bool-cases st.is_loop) [
    | inr e ↦ Ends-stopped (suc fuel) st v (omega arith) e
    | inl e ↦
        rw (e, rounds)
          (elim (Nat-cases (length (flat keys st.at))) [
            | inl z ↦
                let nothing = length-eq-zero (flat keys st.at) z in
                let next =
                  all_taken (length addresses) keys st nothing (omega (arith, left_over st v))
                    (inl some_key) in
                Ends-stopped fuel _ (round-Inv addresses keys distinct keys st known v)
                  (omega (arith, left_over st v)) next.0
            | inr p ↦
                rounds_end fuel _ (round-Inv addresses keys distinct keys st known v)
                  (omega (arith, round_takes (length addresses) keys st p))
          ])
  ]

known-All :
    (keys : List String) (ks : List String)
    → ((k : String) → Mem k ks → Mem k keys)
    → All (λ k. in_slice k keys ≡ true) ks
known-All keys [] h = tt
known-All keys (k ∷ ks) h = (
  (in_slice-Mem k keys).1 (h k mem-cons_self),
  known-All keys ks (λ j m. h j (mem-cons_of_mem k m)),
)

-- On a list that is not empty, the loop ends, and the result is a reordering of the list.
pub interleave_total :
    (addresses : List EndpointAddress)
    → addresses ≢ []
    → (l : List EndpointAddress) × (interleave addresses ≡ done l) × Perm l addresses
unfolding interleave
interleave_total addresses h =
    let s = group-Start addresses in
    let keys = sorted_keys (group addresses) in
    rounds_end addresses keys s.distinct (known-All keys keys (λ k m. m))
      (λ e.
        h (
          sym (Perm.nil-eq (subst (λ ks. Perm (flat ks (group addresses).at) addresses) e s.held))))
      (length addresses + 2) (initial (group addresses)) (record { held = s.held; full = λ e. cc })
      (omega arith)

-- On the empty list there is no key to loop over, and the loop never ends: no fuel is enough.
pub interleave_hangs : (fuel : ℕ) → interleave_fuel fuel [] ≡ diverge
unfolding interleave_fuel
interleave_hangs fuel = hang fuel
  where
    hang : (fuel : ℕ) → rounds fuel 0 [] (initial (group [])) ≡ diverge
    hang zero = refl
    hang (suc fuel) = hang fuel
