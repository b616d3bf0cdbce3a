-- ===== src/Compose/Masters.antt =====
-- The choice of new masters in `composeMasterSlaveIP` (check_rediscluster.go): its two loops, and the
-- slaves that the masters without one get.
use mathlib.Core.List.{append_assoc, append-nil, perm_middle}
use mathlib.Core.List.Perm
use middleware_operator_mana.Base.{
  ℕ, zero, suc, ◌≡◌, sym, ap, subst, ◌∙◌, Bool-cases, Option-cases, inl, inr, List, [], ◌∷◌, ◌++◌,
  Perm, some, length, get_elem?, erase_idx, erase_idx-perm,
}
use middleware_operator_mana.Compose.{
  ℤ, is_count, below_count, Pick, is_same_node, pick_apart, pick_rest,
}
use middleware_operator_mana.Outcome.{done, panic}
use middleware_operator_mana.Types.{EndpointAddress}

-- What both loops keep: nothing is lost of what joins, and a new master counts as an existing one.
pub record Picked (news exist joining : List EndpointAddress) (p : Pick) : Type 0 where
  pub more : List EndpointAddress
  pub picked : p.new_master ≡ news ++ more
  pub counted : p.exist_master ≡ exist ++ more
  pub kept : Perm (more ++ p.will_add) joining

done-inj : {A : Type 0} {a b : A} → done a ≡ done b → a ≡ b
done-inj h = cc

panic-not-done : {A : Type 0} {a : A} → panic ≡ done a → ⊥
panic-not-done h = cc

pub pick_apart-Picked :
    (count : ℤ) (news exist passed ahead : List EndpointAddress)
    → Picked news exist (passed ++ ahead) (pick_apart count news exist passed ahead)
unfolding pick_apart
pick_apart-Picked count news exist passed [] = record {
  more = [];
  picked = sym (append-nil news);
  counted = sym (append-nil exist);
  kept = subst (λ l. Perm passed l) (sym (append-nil passed)) Perm.rfl;
}
pick_apart-Picked count news exist passed (addr ∷ ahead) =
    elim (Bool-cases (is_count (length news) count)) [
      | inl e ↦
          rw (e, pick_apart)
            (record {
              more = [];
              picked = sym (append-nil news);
              counted = sym (append-nil exist);
              kept = Perm.rfl;
            })
      | inr e ↦ elim (Bool-cases (is_same_node addr.node_name exist)) [
        | inl s ↦
            rw (e, s, pick_apart)
              (subst
                (λ l. Picked news exist l (pick_apart count news exist (passed ++ addr ∷ []) ahead))
                (append_assoc passed (addr ∷ []) ahead)
                (pick_apart-Picked count news exist (passed ++ addr ∷ []) ahead))
        | inr s ↦
            rw (e, s, pick_apart)
              (let r =
                  pick_apart-Picked count (news ++ addr ∷ []) (exist ++ addr ∷ []) passed ahead in
                record {
                  more = addr ∷ r.more;
                  picked = r.picked ∙ append_assoc news (addr ∷ []) r.more;
                  counted = r.counted ∙ append_assoc exist (addr ∷ []) r.more;
                  kept = Perm.trans (Perm.cons addr r.kept) (Perm.symm (perm_middle _ _));
                })
      ]
    ]

pick_one :
    (news exist joining : List EndpointAddress) (p : Pick) (i : ℕ) (a : EndpointAddress)
    → Picked news exist joining p
    → get_elem? p.will_add i ≡ some a
    → Picked news exist joining (record {
      new_master = p.new_master ++ a ∷ [];
      exist_master = p.exist_master ++ a ∷ [];
      will_add = erase_idx p.will_add i;
    })
pick_one news exist joining p i a v g = record {
  more = v.more ++ a ∷ [];
  picked = ap (λ l. l ++ a ∷ []) v.picked ∙ append_assoc news v.more (a ∷ []);
  counted = ap (λ l. l ++ a ∷ []) v.counted ∙ append_assoc exist v.more (a ∷ []);
  kept =
      rw append_assoc (Perm.trans (Perm.append_left v.more (erase_idx-perm p.will_add i g)) v.kept);
}

pub pick_rest-Picked :
    (fuel : ℕ) (count : ℤ) (i : ℕ) (news exist joining : List EndpointAddress) (p q : Pick)
    → Picked news exist joining p
    → pick_rest fuel count i p ≡ done q
    → Picked news exist joining q
unfolding pick_rest
pick_rest-Picked zero count i news exist joining p q v h = cc
pick_rest-Picked (suc fuel) count i news exist joining p q v h =
    elim (Bool-cases (below_count (length p.new_master) count)) [
      | inr e ↦ subst (Picked news exist joining) (done-inj (rw (e, pick_rest) at h)) v
      | inl e ↦ elim (Option-cases (get_elem? p.will_add i)) [
        | inl g ↦ absurd (panic-not-done (rw (e, g, pick_rest) at h))
        | inr (a, g) ↦
            pick_rest-Picked fuel count (suc i) news exist joining _ q
              (pick_one news exist joining p i a v g) (rw (e, g, pick_rest) at h)
      ]
    ]
