-- ===== src/Sync/Strategy.antt =====
-- The strategies of an upgrade (types.go, redis_operator.go) that pass its checks.
use middleware_operator_mana.Base.{ℕ, ◌/◌, ◌≤◌, ◌≡◌, ◌≢◌, ◌⊎◌, inl, inr, none, length, arith, All}
use middleware_operator_mana.Lifecycle.Scaled.{Hands}
use middleware_operator_mana.Sync.Core.{strategy_error}
use middleware_operator_mana.Sync.Decisions.{strategy_error-none}
use middleware_operator_mana.Types.{
  RedisCluster, RedisClusterUpdateStrategy, auto_receive, assign_receive,
}

-- The strategy is rebalancing, or gives slots to each second one of `new` instances.
abbrev pub Strategic : RedisClusterUpdateStrategy → ℕ → Type 0
Strategic strategy new =
    (strategy.type ≡ auto_receive)
    ⊎ ((strategy.type ≡ assign_receive)
        × All (λ s. s.slots ≢ none) strategy.assign_strategies
        × (length strategy.assign_strategies ≡ new / 2))

pub Strategic-accepted :
    (rc : RedisCluster) (new : ℕ)
    → Strategic rc.spec.update_strategy new
    → strategy_error rc new ≡ none
Strategic-accepted rc new (inl auto) = (strategy_error-none rc new).1 (inl auto)
Strategic-accepted rc new (inr (by_hand, _, count)) =
    (strategy_error-none rc new).1 (inr (by_hand, count))

pub Strategic-Hands :
    (strategy : RedisClusterUpdateStrategy) (new n : ℕ)
    → n ≤ new / 2
    → Strategic strategy new
    → Hands strategy n
Strategic-Hands strategy new n few (inl auto) = inl auto
Strategic-Hands strategy new n few (inr (by_hand, given, count)) =
    inr (by_hand, given, omega (arith, few, count))
