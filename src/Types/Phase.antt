-- ===== src/Types/Phase.antt =====
-- The phases of a cluster: `RedisClusterPhase` of pkg/apis/redis/v1alpha1/types.go.
use Prim.Native.String.{String}

abbrev pub RedisClusterPhase : Type 0
RedisClusterPhase = String

abbrev pub upgrading : RedisClusterPhase
upgrading = "Upgrading"

-- `RedisClusterNone`.
abbrev pub fresh : RedisClusterPhase
fresh = "None"

abbrev pub creating : RedisClusterPhase
creating = "Creating"

abbrev pub running : RedisClusterPhase
running = "Running"

abbrev pub failed : RedisClusterPhase
failed = "Failed"

abbrev pub scaling : RedisClusterPhase
scaling = "Scaling"

abbrev pub deleting : RedisClusterPhase
deleting = "Deleting"
