-- ===== src/Assign/Buckets.antt =====
-- What is left in the map `nodeIPs` (sync_rediscluster.go), and how a change of one bucket changes it.
use mathlib.Core.List.{Nodup-cons, mem-cons, mem-cons_of_mem, append_assoc, perm_append_comm}
use mathlib.Core.List.Perm
use mathlib.Core.Logic.Or
use middleware_operator_mana.Assign.{update}
use middleware_operator_mana.Base.{
  ◌≡◌, refl, sym, subst, true, false, List, [], ◌∷◌, ◌++◌, String, str_eq, eq_iff, Perm, Mem, Nodup,
  arith, Bool-cases, inl, inr,
}
use middleware_operator_mana.Types.{EndpointAddress}
use middleware_operator_mana.Util.Slice.{string_eq, in_slice}

-- What is left in the map, over its keys in order.
abbrev pub flat : List String → (String → List EndpointAddress) → List EndpointAddress
flat [] at = []
flat (k ∷ ks) at = at k ++ flat ks at

str_eq_ne : (k j : String) → str_eq k j ≡ false → ¬ (k ≡ j)
str_eq_ne k j h q = cc (h, (eq_iff k j).1 q)

pub update_self :
    (at : String → List EndpointAddress) (k : String) (v : List EndpointAddress)
    → update at k v k ≡ v
update_self at k v = rw ((eq_iff k k).1 refl)

pub flat-update_other :
    (ks : List String) (at : String → List EndpointAddress) (k : String) (v : List EndpointAddress)
    → ¬ Mem k ks
    → flat ks (update at k v) ≡ flat ks at
flat-update_other [] at k v h = refl
flat-update_other (j ∷ ks) at k v h = elim (Bool-cases (str_eq k j)) [
  | inl e ↦ absurd (h (mem-cons.1 (Or.inl ((eq_iff k j).0 e))))
  | inr e ↦ rw (e, flat-update_other ks at k v (λ m. h (mem-cons_of_mem j m))) refl
]

pub perm_append_swap : (a b c : List EndpointAddress) → Perm (a ++ (b ++ c)) (b ++ (a ++ c))
perm_append_swap a b c =
    rw (← append_assoc a b c, ← append_assoc b a c) (Perm.append_right c (perm_append_comm a b))

-- To replace one bucket changes what is left by what it changes in the bucket.
pub flat-update-perm :
    (ks : List String) (at : String → List EndpointAddress) (k : String)
    (w u v : List EndpointAddress)
    → Nodup ks
    → in_slice k ks ≡ true
    → Perm (w ++ v) (u ++ at k)
    → Perm (w ++ flat ks (update at k v)) (u ++ flat ks at)
unfolding in_slice
flat-update-perm [] at k w u v d m h = cc
flat-update-perm (j ∷ ks) at k w u v d m h = elim (Bool-cases (str_eq k j)) [
  | inl e ↦
      let q : k ≡ j = (eq_iff k j).0 e in
      let absent : ¬ Mem k ks = subst (λ x. ¬ Mem x ks) (sym q) (Nodup-cons.0 d).0 in
      rw
        (
          e,
          flat-update_other ks at k v absent,
          ← q,
          ← append_assoc w v (flat ks at),
          ← append_assoc u (at k) (flat ks at),
        )
        (Perm.append_right (flat ks at) h)
  | inr e ↦
      let held : in_slice k ks ≡ true = ground (arith, eq_iff k j, eq_iff j k) in
      rw e (
        Perm.trans (perm_append_swap w (at j) _) (
          Perm.trans
            (Perm.append_left (at j) (flat-update-perm ks at k w u v (Nodup-cons.0 d).1 held h))
            (perm_append_swap (at j) u (flat ks at))))
]
