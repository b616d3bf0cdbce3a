-- ===== src/Samples/Joining.antt =====
-- Instances that join a cluster, and the event of a stateful set, in the surroundings of `Samples`.
use middleware_operator_mana.Base.{
  ◌≤◌, ◌<◌, none, All, ◌≡◌, ◌≢◌, ◌⊎◌, refl, true, List, [], ◌∷◌, String, length, ℕ, some,
}
use middleware_operator_mana.Commands.Slots.{slot_calls, reshard-calls}
use middleware_operator_mana.Commands.{pipeline_of, reshard_slots}
use middleware_operator_mana.Commands.Joining.{Calm}
use middleware_operator_mana.Errors.{Result, ok, Error}
use middleware_operator_mana.Outcome.{done, panic}
use middleware_operator_mana.Samples.{pod, printing, cluster_of, set_of}
use middleware_operator_mana.Workers.Handlers.{InformerEvent, updated_set}
use middleware_operator_mana.Text.{contains}
use middleware_operator_mana.Types.{EndpointAddress, RedisCluster, RedisClusterUpdateStrategy}
use middleware_operator_mana.World.{Env}

abbrev quiet : Env
quiet = printing "[OK] All 16384 slots covered."

abbrev two_ids : List String
two_ids = "n1" ∷ "n2" ∷ []

abbrev the_pod : EndpointAddress
the_pod = pod "r-0" "10.0.0.1" "a"

quiet-Calm : Calm quiet the_pod.target
unfolding contains
quiet-Calm t command = (refl, refl)

abbrev key_of : RedisCluster → Result Error String
key_of rc = ok "ns/r"

abbrev six_replicas : RedisCluster
six_replicas = cluster_of (some 6)

abbrev twice : String → ℕ
twice key = 2

abbrev grown : InformerEvent
grown = updated_set true (set_of 4) (set_of 6)

abbrev by_hand : RedisClusterUpdateStrategy
by_hand = record {
  type = "AssignReceive";
  pipeline = "";
  assign_strategies =
      record { slots = some 100; from_replicas = "n3" }
      ∷ record { slots = some 200; from_replicas = "n4" }
      ∷ [];
}

with_slots : All (λ s. s.slots ≢ none) by_hand.assign_strategies
with_slots = ((λ h. cc), ((λ h. cc), tt))

reshard-calls_example :
    ((length two_ids ≤ length by_hand.assign_strategies)
      × (reshard_slots quiet by_hand "10.0.0.9" the_pod.target two_ids [] ≡ (
        done (ok tt),
        slot_calls the_pod.target
            (pipeline_of by_hand.pipeline)
            "10.0.0.9"
            by_hand.assign_strategies
            two_ids
            [],
      )))
    ⊎ ((length by_hand.assign_strategies < length two_ids)
        × ((reshard_slots quiet by_hand "10.0.0.9" the_pod.target two_ids []).0 ≡ panic))
reshard-calls_example =
    reshard-calls quiet the_pod.target quiet-Calm by_hand "10.0.0.9" two_ids [] with_slots
