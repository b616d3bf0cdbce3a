-- ===== src/Sync/Decisions.antt =====
-- What `sync` decides, and which custom resource and stateful set belong together.
use Prim.Native.String.{◌++◌ as str_append}
use mathlib.Core.List.{mem-cons, mem-cons_of_mem, not-mem-nil}
use mathlib.Core.HLevel.{⊥_prop}
use mathlib.Core.Logic.Or
use middleware_operator_mana.Base.{
  ℕ, ◌/◌, ◌≤◌, ◌<◌, ◌≡◌, ◌≢◌, sym, ap, ◌∙◌, ◌⊎◌, ◌↔◌, inl, inr, true, List, [], ◌∷◌, str_eq, eq_iff,
  none, some, arith, length, Mem, Bool-cases, Option-cases, ==_iff,
}
use middleware_operator_mana.Outcome.{done}
use middleware_operator_mana.Sync.Core.{
  value_at, manages, find_stateful_set, create_cluster, upgrade_cluster, check_cluster, handle_flag,
  strategy_error,
}
use middleware_operator_mana.Types.{
  RedisCluster, assign_receive, auto_receive, middleware_redis_type_key,
  middleware_redis_clusters_prefix,
}
use middleware_operator_mana.Types.Objects.{StatefulSet}

-- The set carries the annotation, the name and the namespace of the custom resource.
abbrev pub Owns : RedisCluster → StatefulSet → Type 0
Owns rc sts =
    (value_at middleware_redis_type_key sts.meta.annotations
      ≡ str_append middleware_redis_clusters_prefix rc.name)
    × (sts.meta.namespace ≡ rc.namespace)
    × (sts.meta.name ≡ rc.name)
    × (sts.meta.annotations ≢ [])

pub manages-Owns : (rc : RedisCluster) (sts : StatefulSet) → (manages rc sts ≡ true) ↔ Owns rc sts
unfolding manages
manages-Owns rc sts =
    let annotated =
      eq_iff (value_at middleware_redis_type_key sts.meta.annotations)
        (str_append middleware_redis_clusters_prefix rc.name) in
    let spaced = eq_iff sts.meta.namespace rc.namespace in
    let named = eq_iff sts.meta.name rc.name in
    (
      (λ h. (
        ground (arith, annotated),
        ground (arith, spaced),
        ground (arith, named),
        λ e. ground arith,
      )),
      (λ h. ground (arith, annotated, spaced, named)),
    )

find_stateful_set_sound :
    (rc : RedisCluster) (sets : List StatefulSet) (sts : StatefulSet)
    → find_stateful_set rc sets ≡ some sts
    → Mem sts sets × (manages rc sts ≡ true)
unfolding find_stateful_set
find_stateful_set_sound rc [] sts h = cc
find_stateful_set_sound rc (s ∷ sets) sts h = elim (Bool-cases (manages rc s)) [
  | inl m ↦ let q : s ≡ sts = ground arith in (mem-cons.1 (Or.inl (sym q)), ground arith)
  | inr m ↦
      let r = find_stateful_set_sound rc sets sts (ground arith) in (mem-cons_of_mem s r.0, r.1)
]

find_stateful_set-none :
    (rc : RedisCluster) (sets : List StatefulSet)
    → find_stateful_set rc sets ≡ none
    → (sts : StatefulSet) → Mem sts sets
    → manages rc sts ≢ true
unfolding find_stateful_set
find_stateful_set-none rc [] h sts m = absurd (not-mem-nil m)
find_stateful_set-none rc (s ∷ sets) h sts m = elim (Bool-cases (manages rc s)) [
  | inl e ↦ λ _. ground arith
  | inr e ↦ λ q.
      Or.elim ⊥_prop (mem-cons.0 m) (λ same. cc (ap (manages rc) same))
        (λ t. find_stateful_set-none rc sets (ground arith) sts t q)
]

-- The stateful set found for a custom resource is one of the sets listed that carry its annotation,
-- name and namespace; nothing is found only if no such set is listed.
pub find_stateful_set-Owns :
    (rc : RedisCluster) (sets : List StatefulSet)
    → ((sts : StatefulSet) × (find_stateful_set rc sets ≡ some sts) × Mem sts sets × Owns rc sts)
      ⊎ ((find_stateful_set rc sets ≡ none) × ((sts : StatefulSet) → Mem sts sets → ¬ Owns rc sts))
find_stateful_set-Owns rc sets = elim (Option-cases (find_stateful_set rc sets)) [
  | inl e ↦ inr (e, λ sts m o. find_stateful_set-none rc sets e sts m ((manages-Owns rc sts).1 o))
  | inr (sts, e) ↦
      let r = find_stateful_set_sound rc sets sts e in
      inl (sts, e, r.0, (manages-Owns rc sts).0 r.1)
]

two_types : auto_receive ≢ assign_receive
two_types h = cc (ap (str_eq auto_receive) h)

-- The strategy of a custom resource passes the checks before an upgrade by `scale_len` instances
-- exactly if it is one of the two known ones and, for the one that assigns slots by hand, lists one
-- assignment for each two new instances.
pub strategy_error-none :
    (rc : RedisCluster) (scale_len : ℕ)
    → (strategy_error rc scale_len ≡ none) ↔ (
        (rc.spec.update_strategy.type ≡ auto_receive)
        ⊎ ((rc.spec.update_strategy.type ≡ assign_receive)
            × (length rc.spec.update_strategy.assign_strategies ≡ scale_len / 2)))
unfolding strategy_error
strategy_error-none rc scale_len =
    let auto = eq_iff rc.spec.update_strategy.type auto_receive in
    let by_hand = eq_iff rc.spec.update_strategy.type assign_receive in
    let count = ==_iff (length rc.spec.update_strategy.assign_strategies) (scale_len / 2) in
    elim (Bool-cases (str_eq rc.spec.update_strategy.type assign_receive)) [
      | inl b ↦ (
        (λ h. inr (by_hand.0 b, count.0 (ground arith))),
        (λ h. elim h [
          | inl a ↦ absurd (two_types (sym a ∙ by_hand.0 b))
          | inr (a, n) ↦ ground (arith, count)
        ]),
      )
      | inr b ↦ (
        (λ h. inl (auto.0 (ground arith))),
        (λ h. elim h [ inl a ↦ ground (arith, auto) | inr (a, n) ↦ absurd (cc (b, by_hand.1 a)) ]),
      )
    ]

-- With the replicas of both known: a custom resource is created when its set reports no replica; it is
-- only checked when it wants no more than its set has; it is upgraded when it wants more, unless the
-- set is being deleted, which leaves it alone.
pub handle_flag_cases :
    (rc : RedisCluster) (sts : StatefulSet) (wanted current : ℕ)
    → rc.spec.replicas ≡ some wanted
    → sts.spec.replicas ≡ some current
    → ((handle_flag rc (some sts) ≡ done (create_cluster true)) ↔ (sts.status_replicas ≡ 0))
      × ((handle_flag rc (some sts) ≡ done check_cluster)
          ↔ ((sts.status_replicas ≢ 0) × (wanted ≤ current)))
      × ((handle_flag rc (some sts) ≡ done (upgrade_cluster current))
          ↔ ((sts.status_replicas ≢ 0) × (current < wanted) × (sts.deletion_timestamp ≡ none)))
unfolding handle_flag
handle_flag_cases rc sts wanted current w c = (
  ((λ e. ground arith), (λ e. ground arith)),
  ((λ e. (ground arith, ground arith)), (λ e. ground arith)),
  ((λ e. (ground arith, ground arith, ground arith)), (λ e. ground arith)),
)
