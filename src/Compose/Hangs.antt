-- ===== src/Compose/Hangs.antt =====
-- `composeMasterSlaveIP` (check_rediscluster.go) where no address is left for the slaves.
use middleware_operator_mana.Assign.{interleave, interleave_fuel}
use middleware_operator_mana.Assign.Rounds.{interleave_hangs}
use middleware_operator_mana.Base.{
  ℕ, suc, ◌-◌, ◌/◌, ◌≡◌, refl, true, Bool-cases, inl, inr, List, [], ◌∷◌, ◌++◌, String, arith,
  length, leb,
}
use middleware_operator_mana.Compose.{
  pos, sub_ℕ, classify, Pick, is_same_node, pick_apart, pick_rest, pick_masters, compose_slaves,
  compose_master_slave_ip,
}
use middleware_operator_mana.Outcome.{done, diverge}
use middleware_operator_mana.Types.{EndpointAddress}

-- The sole address becomes the one master that is missing, whatever its node.
pick_sole :
    (a : EndpointAddress) (exist : List EndpointAddress)
    → pick_rest
        (suc (length (pick_apart (pos 1) [] exist [] (a ∷ [])).will_add))
        (pos 1)
        0
        (pick_apart (pos 1) [] exist [] (a ∷ []))
      ≡ done (record { new_master = a ∷ []; exist_master = exist ++ a ∷ []; will_add = [] })
unfolding pick_apart pick_rest
pick_sole a exist = elim (Bool-cases (is_same_node a.node_name exist)) [
  | inl e ↦ rw (e, pick_apart) refl
  | inr e ↦ rw (e, pick_apart) refl
]

sub_one : (m n : ℕ) → n ≡ suc m → sub_ℕ n m ≡ pos 1
sub_one m n h =
    let below : leb m n ≡ true = ground arith in
    let one : n - m ≡ 1 = omega arith in rw (below, one) refl

compose_slaves_empty :
    (connector : List (String × String)) (p : Pick)
    → p.will_add ≡ []
    → compose_slaves connector p ≡ diverge
unfolding compose_slaves interleave
compose_slaves_empty connector p h = rw h refl

-- When a cluster lacks exactly one master and exactly one of the new addresses is not in the cluster,
-- that address becomes a master, none is left for the slaves, and the code does not return: no number
-- of rounds ends the loop over the nodes of no addresses.
pub compose-hangs :
    (addresses : List EndpointAddress) (masters slaves : List String)
    (connector : List (String × String)) (a : EndpointAddress)
    → (classify masters slaves addresses).will_add ≡ a ∷ []
    → length addresses / 2 ≡ suc (length masters)
    → (compose_master_slave_ip addresses masters slaves connector ≡ diverge)
      × ((fuel : ℕ) → interleave_fuel fuel [] ≡ diverge)
unfolding compose_master_slave_ip pick_masters
compose-hangs addresses masters slaves connector a joins lacks = (
  rw (joins, compose_master_slave_ip)
      (rw (sub_one (length masters) (length addresses / 2) lacks, pick_masters)
        (rw (joins, pick_sole a (classify masters slaves addresses).exist_master)
          (compose_slaves_empty connector
            (record {
              new_master = a ∷ [];
              exist_master = (classify masters slaves addresses).exist_master ++ a ∷ [];
              will_add = [];
            })
            refl))),
  interleave_hangs,
)
