-- ===== src/Samples/Composing.antt =====
-- Two pods that join a cluster of two masters, and one of four.
use middleware_operator_mana.Base.{◌-◌, ◌/◌, ◌≡◌, refl, List, [], ◌∷◌, String, length, arith}
use middleware_operator_mana.Compose.{Composition, classify, is_same_node, compose_master_slave_ip}
use middleware_operator_mana.Compose.Bounds.{compose-count, compose-surplus}
use middleware_operator_mana.Samples.{pod, six_pods, two_masters, two_slaves, two_pairs}

abbrev last_pair : Composition
last_pair = record {
  master_ips = "10.0.0.5" ∷ [];
  slave_ips = "10.0.0.6" ∷ [];
  parent_ips = "10.0.0.5" ∷ [];
}

compose-count_example : length last_pair.master_ips ≡ length six_pods / 2 - length two_masters
unfolding compose_master_slave_ip classify
compose-count_example =
    compose-count six_pods two_masters two_slaves two_pairs (pod "r-4" "10.0.0.5" "c")
      (pod "r-5" "10.0.0.6" "c" ∷ []) refl last_pair refl (omega arith)

-- One master more than half of the addresses.
abbrev four_masters : List String
four_masters = "10.0.0.1" ∷ "10.0.0.2" ∷ "10.0.0.3" ∷ "10.0.0.4" ∷ []

abbrev one_more : Composition
one_more = record {
  master_ips = "10.0.0.5" ∷ [];
  slave_ips = "10.0.0.6" ∷ [];
  parent_ips = "10.0.0.1" ∷ [];
}

compose-surplus_example : (more : List String) × (one_more.master_ips ≡ "10.0.0.5" ∷ more)
unfolding compose_master_slave_ip classify is_same_node
compose-surplus_example =
    compose-surplus six_pods four_masters [] [] (pod "r-4" "10.0.0.5" "c")
      (pod "r-5" "10.0.0.6" "c" ∷ []) refl one_more refl (omega arith) refl
