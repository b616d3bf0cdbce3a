-- ===== src/Workers/Single.antt =====
-- Which syncs run at the same time.
use middleware_operator_mana.Base.{
  ℕ, ◌-◌, ◌≤◌, ◌≡◌, refl, subst, ◌↔◌, Bool, true, false, not, ◌&&◌, ◌∷◌, String, str_eq, eq_iff,
  some, if◌then◌else◌, Bool-cases, inl, inr, ◌⊎◌, arith,
}
use middleware_operator_mana.Sync.Queue.{WorkQueue}
use middleware_operator_mana.Workers.Marks.{in_flight-one_ended, sync-ends, on_event-Unmoved}
use middleware_operator_mana.Workers.Steps.{
  Got, blocked, shut_down, item, Processing, in_flight, one_ended, Running, run,
  process_next_work_item, Step, event, work, ended, Reach, here, next,
}

pub Got-cases :
    {Q : Type 0} (g : Got Q)
    → (g ≡ blocked) ⊎ ((g ≡ shut_down) ⊎ ((key : String) × (q : Q) × (g ≡ item key q)))
Got-cases blocked = inl refl
Got-cases shut_down = inr (inl refl)
Got-cases (item key q) = inr (inr (key, q, refl))

at_most_one : (b : Bool) → (if b then 1 else 0) - 1 ≡ 0
at_most_one true = refl
at_most_one false = refl

module _ (w : WorkQueue) (p : Processing w) where
  open w use {Queue}

  -- Each key is in flight as often as the queue marks it: once, or not at all.
  abbrev pub IsTracked : Running w p → Type 0
  IsTracked s = (j : String) → in_flight j s.syncing ≡ (if p.processing s.queue j then 1 else 0)

  item-IsTracked :
      (s : Running w p) (key : String) (q : Queue)
      → p.get s.queue ≡ item key q
      → IsTracked s
      → IsTracked (record s { queue = q; syncing = key ∷ s.syncing })
  unfolding in_flight
  item-IsTracked s key q g h j =
      let free : in_flight key s.syncing ≡ 0 = rw (h key, p.get-free s.queue q key g) refl in
      let marked = p.get-marks s.queue q key j g in
      elim (Bool-cases (str_eq key j)) [
        | inl e ↦
            let none_yet : in_flight j s.syncing ≡ 0 = rw⁻¹ ((eq_iff key j).0 e) free in
            rw (marked, e, none_yet) refl
        | inr e ↦ rw (marked, e) (h j)
      ]

  work-IsTracked :
      (s t : Running w p) (go_on : Bool)
      → process_next_work_item w p s ≡ some (go_on, t)
      → IsTracked s
      → IsTracked t
  unfolding process_next_work_item
  work-IsTracked s t go_on r h = elim (Got-cases (p.get s.queue)) [
    | inl e ↦ let never = rw (e, process_next_work_item) at r in cc
    | inr (inl e) ↦ let same : s ≡ t = ground (arith, e, r) in subst IsTracked same h
    | inr (inr (key, q, e)) ↦
        let same : record s { queue = q; syncing = key ∷ s.syncing } ≡ t = ground (arith, e, r) in
        subst IsTracked same (item-IsTracked s key q e h)
  ]

  ended-IsTracked :
      (s : Running w p) (key : String) (q : Queue)
      → ((j : String) → p.processing q j ≡ (not (str_eq key j) && p.processing s.queue j))
      → IsTracked s
      → IsTracked (record s { queue = q; syncing = one_ended key s.syncing })
  ended-IsTracked s key q m h j = elim (Bool-cases (str_eq key j)) [
    | inl e ↦
        rw (in_flight-one_ended j key s.syncing, m j, e, h j) (at_most_one (p.processing s.queue j))
    | inr e ↦ rw (in_flight-one_ended j key s.syncing, m j, e, h j) (omega arith)
  ]

  Step-IsTracked : {s t : Running w p} → Step w p s t → IsTracked s → IsTracked t
  Step-IsTracked (event key_of rcs e) h = λ j. rw (on_event-Unmoved w p key_of rcs e _ j) (h j)
  Step-IsTracked (work alive r) h = work-IsTracked _ _ _ r h
  Step-IsTracked {s = s} (ended env split key t alive r) h =
      ended-IsTracked s key _ (λ j. sync-ends w p env split key j t _ _ r) h

  pub Reach-IsTracked : {s t : Running w p} → IsTracked s → Reach w p s t → IsTracked t
  Reach-IsTracked h here = h
  Reach-IsTracked h (next r st) = Step-IsTracked st (Reach-IsTracked h r)

  -- From the start of the operator, on a queue that marks no key as being processed, whatever events,
  -- rounds of the workers and ends of syncs follow in whatever order: no key is ever in flight twice, and
  -- the keys in flight are those that the queue marks.
  pub Reach-single :
      (synced : Bool) (workers : ℕ) (q : Queue) (s : Running w p)
      → ((j : String) → p.processing q j ≡ false)
      → Reach w p (run w p synced workers q) s
      → (j : String)
      → (in_flight j s.syncing ≤ 1)
        × ((p.processing s.queue j ≡ true) ↔ (in_flight j s.syncing ≡ 1))
  unfolding run in_flight
  Reach-single synced workers q s unmarked r j =
      let tracked = Reach-IsTracked (λ k. rw (unmarked k) refl) r j in
      elim (Bool-cases (p.processing s.queue j)) [
        | inl e ↦
            let once : in_flight j s.syncing ≡ 1 = rw e at tracked in
            (omega arith, ((λ _. once), (λ _. e)))
        | inr e ↦
            let never : in_flight j s.syncing ≡ 0 = rw e at tracked in
            (omega arith, ((λ f. cc), (λ f. absurd (omega arith))))
      ]
