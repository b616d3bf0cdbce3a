-- ===== src/Assign/Groups.antt =====
-- The map `nodeIPs` (sync_rediscluster.go) as its loop fills it.
use mathlib.Core.List.{
  Nodup-cons, Nodup-nil, mem-cons_self, mem-cons_of_mem, perm_middle, append_assoc, append-nil,
  Permᴰ, Perm-prop, perm_append_singleton,
}
use mathlib.Core.List.Perm
use mathlib.Core.Logic.{∥∥₁_elim}
use middleware_operator_mana.Assign.{NodeIps, update, add_addr, group_from, group, sorted_keys}
use middleware_operator_mana.Base.{
  ◌≡◌, refl, sym, ap, subst, true, false, List, [], ◌∷◌, ◌++◌, String, str_eq, eq_iff, Perm, Mem,
  Nodup, arith, Bool-cases, inl, inr, sort_stable-perm, str_lt, All, ◌≢◌,
}
use middleware_operator_mana.Types.{EndpointAddress}
use middleware_operator_mana.Util.Slice.{string_eq, in_slice, in_slice-Mem, not-in_slice}
use middleware_operator_mana.Assign.Buckets.{
  flat, update_self, perm_append_swap, flat-update_other, flat-update-perm,
}

abbrev reverse_onto : List EndpointAddress → List EndpointAddress → List EndpointAddress
reverse_onto [] seen = seen
reverse_onto (addr ∷ addresses) seen = reverse_onto addresses (addr ∷ seen)

reverse_onto-perm :
    (addresses seen : List EndpointAddress) → Perm (reverse_onto addresses seen) (addresses ++ seen)
reverse_onto-perm [] seen = Perm.rfl
reverse_onto-perm (addr ∷ addresses) seen =
    Perm.trans (reverse_onto-perm addresses (addr ∷ seen)) (perm_middle addresses seen)

-- A node that is no key has an empty bucket, the keys are distinct, and the buckets hold `seen`.
pub record Groups (m : NodeIps) (seen : List EndpointAddress) : Type 0 where
  pub distinct : Nodup m.keys
  pub absent : (k : String) → in_slice k m.keys ≡ false → m.at k ≡ []
  pub held : Perm (flat m.keys m.at) seen
  pub placed : (k : String) → All (λ a. a.node_name ≡ k) (m.at k)
  pub filled : (k : String) → in_slice k m.keys ≡ true → m.at k ≢ []

flat-snoc :
    (ks : List String) (at : String → List EndpointAddress) (k : String)
    → flat (ks ++ k ∷ []) at ≡ flat ks at ++ at k
flat-snoc [] at k = append-nil (at k)
flat-snoc (j ∷ ks) at k = rw (flat-snoc ks at k) (sym (append_assoc (at j) (flat ks at) (at k)))

in_slice-snoc :
    (k j : String) (ks : List String)
    → in_slice k (ks ++ j ∷ []) ≡ false
    → (in_slice k ks ≡ false) × (str_eq j k ≡ false)
unfolding in_slice
in_slice-snoc k j [] h = (refl, ground arith)
in_slice-snoc k j (i ∷ ks) h = ground (arith, in_slice-snoc k j ks)

in_slice-snoc_other :
    (k j : String) (ks : List String)
    → str_eq j k ≡ false
    → in_slice k (ks ++ j ∷ []) ≡ true
    → in_slice k ks ≡ true
unfolding in_slice
in_slice-snoc_other k j [] q h = cc (q, h)
in_slice-snoc_other k j (i ∷ ks) q h = ground (arith, in_slice-snoc_other k j ks q)

All-snoc :
    (P : EndpointAddress → Type 0) (xs : List EndpointAddress) (x : EndpointAddress)
    → All P xs
    → P x
    → All P (xs ++ x ∷ [])
All-snoc P [] x h p = (p, tt)
All-snoc P (y ∷ xs) x h p = (h.0, All-snoc P xs x h.1 p)

snoc-ne-nil : (xs : List EndpointAddress) (x : EndpointAddress) → (xs ++ x ∷ []) ≢ []
snoc-ne-nil [] x e = cc
snoc-ne-nil (y ∷ xs) x e = cc

module _ (m : NodeIps) (seen : List EndpointAddress) (addr : EndpointAddress)
    (g : Groups m seen) where
  bucket : List EndpointAddress
  bucket = m.at addr.node_name ++ addr ∷ []

  bucket-placed : (k : String) → All (λ a. a.node_name ≡ k) (update m.at addr.node_name bucket k)
  unfolding bucket
  bucket-placed k = elim (Bool-cases (str_eq addr.node_name k)) [
    | inl q ↦
        let e : addr.node_name ≡ k = (eq_iff addr.node_name k).0 q in
        rw q (
          All-snoc (λ a. a.node_name ≡ k) (m.at addr.node_name) addr
            (subst (λ j. All (λ a. a.node_name ≡ k) (m.at j)) (sym e) (g.placed k)) e)
    | inr q ↦ rw q (g.placed k)
  ]

  add_known :
      in_slice addr.node_name m.keys ≡ true
      → Groups (record { keys = m.keys; at = update m.at addr.node_name bucket }) (addr ∷ seen)
  unfolding bucket
  add_known e = record {
    distinct = g.distinct;
    absent = λ k h. elim (Bool-cases (str_eq addr.node_name k)) [
      | inl q ↦ cc (h, e, (eq_iff addr.node_name k).0 q)
      | inr q ↦ rw q (g.absent k h)
    ];
    held =
        Perm.trans
          (flat-update-perm m.keys m.at addr.node_name [] (addr ∷ []) _ g.distinct e
            (perm_append_singleton addr (m.at addr.node_name)))
          (Perm.cons addr g.held);
    placed = bucket-placed;
    filled = λ k h. elim (Bool-cases (str_eq addr.node_name k)) [
      | inl q ↦ rw q (snoc-ne-nil (m.at addr.node_name) addr)
      | inr q ↦ rw q (g.filled k h)
    ];
  }

  add_new :
      in_slice addr.node_name m.keys ≡ false
      → Groups
          (record { keys = m.keys ++ addr.node_name ∷ []; at = update m.at addr.node_name bucket })
          (addr ∷ seen)
  unfolding bucket
  add_new e = record {
    distinct =
        Perm.nodup (Perm.symm (perm_append_singleton addr.node_name m.keys))
          (Nodup-cons.1 (not-in_slice addr.node_name m.keys e, g.distinct));
    absent = λ k h.
        let (unlisted, q) = in_slice-snoc k addr.node_name m.keys h in rw q (g.absent k unlisted);
    held =
        rw
          (
            flat-snoc m.keys (update m.at addr.node_name bucket) addr.node_name,
            flat-update_other m.keys m.at addr.node_name bucket
                (not-in_slice addr.node_name m.keys e),
            update_self m.at addr.node_name bucket,
            g.absent addr.node_name e,
          )
          (Perm.trans (perm_append_singleton addr (flat m.keys m.at)) (Perm.cons addr g.held));
    placed = bucket-placed;
    filled = λ k h. elim (Bool-cases (str_eq addr.node_name k)) [
      | inl q ↦ rw q (snoc-ne-nil (m.at addr.node_name) addr)
      | inr q ↦ rw q (g.filled k (in_slice-snoc_other k addr.node_name m.keys q h))
    ];
  }

  add_addr-Groups : Groups (add_addr m addr) (addr ∷ seen)
  unfolding add_addr bucket
  add_addr-Groups = elim (Bool-cases (in_slice addr.node_name m.keys)) [
    | inl e ↦ rw e (add_known e)
    | inr e ↦ rw e (add_new e)
  ]

group_from-Groups :
    (m : NodeIps) (seen addresses : List EndpointAddress)
    → Groups m seen
    → Groups (group_from m addresses) (reverse_onto addresses seen)
unfolding group_from
group_from-Groups m seen [] g = g
group_from-Groups m seen (addr ∷ addresses) g =
    group_from-Groups (add_addr m addr) (addr ∷ seen) addresses (add_addr-Groups m seen addr g)

flat-perm_d :
    (at : String → List EndpointAddress) {ks js : List String}
    → Permᴰ ks js
    → Perm (flat ks at) (flat js at)
flat-perm_d at Permᴰ.nil = Perm.nil
flat-perm_d at (Permᴰ.cons {a} e p) = rw (ap at e) (Perm.append_left _ (flat-perm_d at p))
flat-perm_d at (Permᴰ.swap {a} {b} {l = l} e f) =
    rw (ap at e, ap at f) (perm_append_swap _ _ (flat l at))
flat-perm_d at (Permᴰ.trans p q) = Perm.trans (flat-perm_d at p) (flat-perm_d at q)

empty-Groups : Groups (record { keys = []; at = λ _. [] }) []
unfolding in_slice
empty-Groups = record {
  distinct = Nodup-nil;
  absent = λ k h. refl;
  held = Perm.nil;
  placed = λ k. tt;
  filled = λ k h. cc;
}

-- What the interleaving starts from: the keys sorted, distinct, each with a bucket of its own node.
pub record Start (addresses : List EndpointAddress) (keys : List String)
    (at : String → List EndpointAddress) : Type 0 where
  pub distinct : Nodup keys
  pub held : Perm (flat keys at) addresses
  pub placed : (k : String) → All (λ a. a.node_name ≡ k) (at k)
  pub filled : All (λ k. at k ≢ []) keys

All-in_slice : (P : String → Type 0) (ks : List String) → ((k : String) → Mem k ks → P k) → All P ks
All-in_slice P [] h = tt
All-in_slice P (k ∷ ks) h =
    (h k mem-cons_self, All-in_slice P ks (λ j m. h j (mem-cons_of_mem k m)))

pub group-Start :
    (addresses : List EndpointAddress)
    → Start addresses (sorted_keys (group addresses)) (group addresses).at
unfolding sorted_keys group
group-Start addresses =
    let g = group_from-Groups (record { keys = []; at = λ _. [] }) [] addresses empty-Groups in
    let sorted = sort_stable-perm str_lt (group addresses).keys in
    record {
      distinct = Perm.nodup (Perm.symm sorted) g.distinct;
      held =
          Perm.trans (∥∥₁_elim sorted Perm-prop (flat-perm_d (group addresses).at))
            (Perm.trans g.held (rw append-nil at (reverse_onto-perm addresses [])));
      placed = g.placed;
      filled =
          All-in_slice _ _
            λ k m. g.filled k ((in_slice-Mem k (group addresses).keys).1 (Perm.subset sorted k m));
    }
