-- ===== src/Samples/Planning.antt =====
-- The plans for the pods of `Samples`: at the creation of a cluster, and when pods join one.
use middleware_operator_mana.Assign.{
  Chosen, assign_master_slave_ip, interleave_fuel, sorted_keys, group,
}
use middleware_operator_mana.Assign.Plan.{
  assign-partition, assign-slaves_apart, assign-masters_apart,
}
use middleware_operator_mana.Assign.Slaves.{HasIps, Choices}
use middleware_operator_mana.Assign.Spread.{nodes}
use middleware_operator_mana.Base.{
  ℕ, ◌/◌, ◌%◌, ◌≡◌, ◌≢◌, refl, List, [], ◌∷◌, ◌++◌, map, String, Perm, Nodup, length, take, arith,
}
use middleware_operator_mana.Compose.{compose_master_slave_ip, without_slave, classify}
use middleware_operator_mana.Compose.Hangs.{compose-hangs}
use middleware_operator_mana.Compose.Roles.{compose-roles}
use middleware_operator_mana.Errors.{ok}
use middleware_operator_mana.Outcome.{done, diverge}
use middleware_operator_mana.Samples.{
  pod, six_pods, two_masters, two_slaves, three_slaves, two_pairs, not-blank,
}
use middleware_operator_mana.Types.{EndpointAddress}

six_pods_ips : HasIps six_pods
six_pods_ips = (
  not-blank "10.0.0.1" refl,
  (
    not-blank "10.0.0.2" refl,
    (
      not-blank "10.0.0.3" refl,
      (not-blank "10.0.0.4" refl, (not-blank "10.0.0.5" refl, (not-blank "10.0.0.6" refl, tt))),
    ),
  ),
)

six_pods_some : six_pods ≢ []
six_pods_some h = cc

assign_six :
    assign_master_slave_ip six_pods
    ≡ done
        (ok ("10.0.0.1" ∷ "10.0.0.3" ∷ "10.0.0.5" ∷ [], "10.0.0.4" ∷ "10.0.0.6" ∷ "10.0.0.2" ∷ []))
unfolding assign_master_slave_ip
assign_six = refl

assign-partition_example :
    (masters slaves rest : List EndpointAddress) × (assign_master_slave_ip six_pods
      ≡ done (ok (map (λ a. a.ip) masters, map (λ a. a.ip) slaves)))
    × Perm (masters ++ (slaves ++ rest)) six_pods
    × (length masters ≡ length six_pods / 2)
    × (length slaves ≡ length six_pods / 2)
    × (length rest ≡ length six_pods % 2)
assign-partition_example = assign-partition six_pods six_pods_some six_pods_ips

assign-slaves_apart_example :
    (masters pool rest : List EndpointAddress) × (choices : List Chosen) × (assign_master_slave_ip
        six_pods
      ≡ done (ok (map (λ a. a.ip) masters, map (λ c. c.ip) choices)))
    × Perm (masters ++ pool) six_pods
    × Choices masters pool choices rest
assign-slaves_apart_example = assign-slaves_apart six_pods six_pods_some six_pods_ips

three_nodes : sorted_keys (group six_pods) ≡ "a" ∷ "b" ∷ "c" ∷ []
unfolding sorted_keys group
three_nodes = refl

assign-masters_apart_example :
    (masters others : List EndpointAddress) × (slave_ips : List String) × (assign_master_slave_ip
        six_pods
      ≡ done (ok (map (λ a. a.ip) masters, slave_ips)))
    × Perm (masters ++ others) six_pods
    × (nodes masters ≡ take (length six_pods / 2) (sorted_keys (group six_pods)))
    × Nodup (nodes masters)
assign-masters_apart_example =
    assign-masters_apart six_pods six_pods_some six_pods_ips (rw three_nodes (omega arith))

-- The last two pods join: one as the third master, the other as its slave.
two_join :
    (classify two_masters two_slaves six_pods).will_add
    ≡ pod "r-4" "10.0.0.5" "c" ∷ pod "r-5" "10.0.0.6" "c" ∷ []
unfolding classify
two_join = refl

paired : without_slave two_pairs (classify two_masters two_slaves six_pods).exist_master ≡ []
unfolding classify without_slave
paired = refl

compose-roles_example :
    (new pool rest : List EndpointAddress) × (choices : List Chosen) × (compose_master_slave_ip
        six_pods two_masters two_slaves two_pairs
      ≡ done (record {
        master_ips = map (λ a. a.ip) new;
        slave_ips = map (λ c. c.ip) choices;
        parent_ips =
            map
              (λ a. a.ip)
              (without_slave two_pairs
                ((classify two_masters two_slaves six_pods).exist_master ++ new));
      }))
    × (length new ≡ 1)
    × Perm (new ++ pool) (classify two_masters two_slaves six_pods).will_add
    × Choices
        (without_slave two_pairs ((classify two_masters two_slaves six_pods).exist_master ++ new))
        pool
        choices
        rest
compose-roles_example =
    compose-roles six_pods two_masters two_slaves two_pairs 1 refl (rw two_join (λ h. cc))
      (rw two_join (not-blank "10.0.0.5" refl, (not-blank "10.0.0.6" refl, tt)))
      (rw (paired, two_join) (omega arith))

-- The fifth pod alone joins two masters with three slaves.
one_joins : (classify two_masters three_slaves six_pods).will_add ≡ pod "r-4" "10.0.0.5" "c" ∷ []
unfolding classify
one_joins = refl

compose-hangs_example :
    (compose_master_slave_ip six_pods two_masters three_slaves two_pairs ≡ diverge)
    × ((fuel : ℕ) → interleave_fuel fuel [] ≡ diverge)
compose-hangs_example =
    compose-hangs six_pods two_masters three_slaves two_pairs (pod "r-4" "10.0.0.5" "c") one_joins
      refl
