-- ===== src/Workers/Spec.antt =====
-- What the workers promise, without queue and workers: a sync of a key begins only while none of it is in
-- flight, and one that is in flight may end.
use middleware_operator_mana.Base.{
  ℕ, ◌≡◌, refl, sym, ap, subst, Bool, false, List, ◌∷◌, String, str_eq, eq_iff, some, if◌then◌else◌,
  Bool-cases, inl, inr, arith,
}
use middleware_operator_mana.Sync.Queue.{WorkQueue}
use middleware_operator_mana.Workers.Marks.{in_flight-one_ended}
use middleware_operator_mana.Workers.Single.{Got-cases, IsTracked, Reach-IsTracked, Reach-single}
use middleware_operator_mana.Workers.Steps.{
  Processing, in_flight, one_ended, Running, run, process_next_work_item, Step, event, work, ended,
  Reach,
}

-- A step on how many syncs of each key are in flight.
pub data Turn (a b : String → ℕ) : Type 0 where
  stays : ((j : String) → b j ≡ a j) → Turn a b
  begins :
      (key : String)
      → a key ≡ 0
      → ((j : String) → b j ≡ (if str_eq key j then 1 else a j))
      → Turn a b
  ends :
      (key : String)
      → a key ≡ 1
      → ((j : String) → b j ≡ (if str_eq key j then 0 else a j))
      → Turn a b

item-seen :
    (key j : String) (keys : List String)
    → in_flight key keys ≡ 0
    → in_flight j (key ∷ keys) ≡ (if str_eq key j then 1 else in_flight j keys)
unfolding in_flight
item-seen key j keys free = elim (Bool-cases (str_eq key j)) [
  | inl e ↦
      let none_yet : in_flight j keys ≡ 0 = rw⁻¹ ((eq_iff key j).0 e) free in rw (e, none_yet) refl
  | inr e ↦ rw e refl
]

ended-seen :
    (key j : String) (keys : List String)
    → in_flight key keys ≡ 1
    → in_flight j (one_ended key keys) ≡ (if str_eq key j then 0 else in_flight j keys)
ended-seen key j keys one = elim (Bool-cases (str_eq key j)) [
  | inl e ↦
      let there : in_flight j keys ≡ 1 = rw⁻¹ ((eq_iff key j).0 e) one in
      rw (in_flight-one_ended j key keys, e, there) refl
  | inr e ↦ rw (in_flight-one_ended j key keys, e) (omega arith)
]

module _ (w : WorkQueue) (p : Processing w) where
  open w use {Queue}

  abbrev pub seen : Running w p → String → ℕ
  seen s j = in_flight j s.syncing

  work-Turn :
      (s t : Running w p) (go_on : Bool)
      → IsTracked w p s
      → process_next_work_item w p s ≡ some (go_on, t)
      → Turn (seen s) (seen t)
  unfolding process_next_work_item in_flight
  work-Turn s t go_on h r = elim (Got-cases (p.get s.queue)) [
    | inl e ↦ let never = rw (e, process_next_work_item) at r in absurd (cc never)
    | inr (inl e) ↦
        let same : s ≡ t = ground (arith, e, r) in stays (λ j. ap (λ x. seen x j) (sym same))
    | inr (inr (key, q, e)) ↦
        let same : record s { queue = q; syncing = key ∷ s.syncing } ≡ t = ground (arith, e, r) in
        let free : seen s key ≡ 0 = rw (h key, p.get-free s.queue q key e) refl in
        subst (λ x. Turn (seen s) (seen x)) same
          (begins key free (λ j. item-seen key j s.syncing free))
  ]

  -- Every step from a state that is reached from the start either leaves the syncs in flight as they are,
  -- or begins the sync of a key of which none was in flight, or ends the one sync of a key.
  pub Step-Turn :
      (synced : Bool) (workers : ℕ) (q : Queue) (s t : Running w p)
      → ((j : String) → p.processing q j ≡ false)
      → Reach w p (run w p synced workers q) s
      → Step w p s t
      → Turn (seen s) (seen t)
  unfolding run in_flight
  Step-Turn synced workers q s t unmarked r (event key_of rcs e) = stays (λ j. refl)
  Step-Turn synced workers q s t unmarked r (work alive d) =
      work-Turn s t _ (Reach-IsTracked w p (λ k. rw (unmarked k) refl) r) d
  Step-Turn synced workers q s t unmarked r (ended env split key before alive d) =
      let once = Reach-single w p synced workers q s unmarked r key in
      let one : seen s key ≡ 1 = omega arith in ends key one (λ j. ended-seen key j s.syncing one)
