-- ===== src/Sync/Written.antt =====
-- The stateful sets that `sync` writes, and the calls of `sync` in general.
use Prim.Native.String.{◌++◌ as str_append}
use text.Mathlib.TextLemmas.{append-nil}
use middleware_operator_mana.Base.{
  arith, ◌≡◌, ◌≢◌, refl, ap, subst, List, [], ◌∷◌, String, str_eq, eq_iff, some, Bool-cases,
  Option-cases, List-cases, inl, inr,
}
use middleware_operator_mana.Build.{set_key, pod_labels, stateful_set, build_stateful_set}
use middleware_operator_mana.Outcome.{done}
use middleware_operator_mana.Sync.Core.{value_at, find_stateful_set, find_redis_cluster}
use middleware_operator_mana.Sync.Decisions.{Owns, manages-Owns}
use middleware_operator_mana.Types.{
  RedisCluster, middleware_redis_type_key, middleware_redis_clusters_prefix,
}
use middleware_operator_mana.Types.Objects.{StatefulSet}
use middleware_operator_mana.Types.Template.{RedisClusterPodTemplateSpec}

-- The set carries this name and namespace, is annotated as the set of the custom resource of that name,
-- and selects the pods that its template makes.
abbrev pub Ours : String → String → StatefulSet → Type 0
Ours namespace name sts =
    (sts.meta.namespace ≡ namespace)
    × (sts.meta.name ≡ name)
    × (value_at middleware_redis_type_key sts.meta.annotations
        ≡ str_append middleware_redis_clusters_prefix name)
    × (sts.spec.match_labels ≡ ("app", name) ∷ [])
    × (value_at "app" sts.spec.template_labels ≡ name)

value_at-set_key :
    (key value : String) (m : List (String × String)) → value_at key (set_key key value m) ≡ value
unfolding value_at set_key
value_at-set_key key value [] = rw ((eq_iff key key).1 refl) refl
value_at-set_key key value ((k, v) ∷ m) = elim (Bool-cases (str_eq k key)) [
  | inl e ↦ rw (e, (eq_iff key key).1 refl) refl
  | inr e ↦ rw (e, e) (value_at-set_key key value m)
]

pod_labels-app :
    (rc : RedisCluster) (namespace name : String) (pod_tpl : RedisClusterPodTemplateSpec)
    → value_at "app" (pod_labels rc namespace name pod_tpl) ≡ name
unfolding pod_labels value_at
pod_labels-app rc namespace name pod_tpl = elim (Option-cases pod_tpl.labels) [
  | inl e ↦ rw e refl
  | inr (labels, e) ↦ rw e (value_at-set_key "app" name labels)
]

stateful_set-Ours :
    (rc : RedisCluster) (namespace name : String) (pod_tpl : RedisClusterPodTemplateSpec)
    → Ours namespace name (stateful_set rc namespace name pod_tpl)
unfolding stateful_set value_at
stateful_set-Ours rc namespace name pod_tpl = (
  refl,
  refl,
  ap (str_append middleware_redis_clusters_prefix) (append-nil name),
  refl,
  pod_labels-app rc namespace name pod_tpl,
)

-- What holds of the set of every template holds of the set that is built.
built-by :
    (P : StatefulSet → Type 0) (namespace name : String) (rc : RedisCluster)
    (built : StatefulSet × RedisCluster)
    → ((pod_tpl : RedisClusterPodTemplateSpec) → P (stateful_set rc namespace name pod_tpl))
    → build_stateful_set namespace name rc ≡ done built
    → P built.0
unfolding build_stateful_set
built-by P namespace name rc built k h = elim (List-cases rc.spec.pod) [
  | inl e ↦ ground (arith, e, h)
  | inr (pod_tpl, others, e) ↦
      let same : stateful_set rc namespace name pod_tpl ≡ built.0 = ground (arith, e, h) in
      subst P same (k pod_tpl)
]

pub build_stateful_set-Ours :
    (namespace name : String) (rc : RedisCluster) (built : StatefulSet × RedisCluster)
    → build_stateful_set namespace name rc ≡ done built
    → Ours namespace name built.0
build_stateful_set-Ours namespace name rc built h =
    built-by (Ours namespace name) namespace name rc built (stateful_set-Ours rc namespace name) h

stateful_set-annotated :
    (rc : RedisCluster) (namespace name : String) (pod_tpl : RedisClusterPodTemplateSpec)
    → (stateful_set rc namespace name pod_tpl).meta.annotations ≢ []
unfolding stateful_set
stateful_set-annotated rc namespace name pod_tpl = λ e. cc

built-Owns :
    (rc : RedisCluster) (built : StatefulSet × RedisCluster)
    → build_stateful_set rc.namespace rc.name rc ≡ done built
    → Owns rc built.0
built-Owns rc built h =
    let (spaced, named, annotated, _, _) =
      build_stateful_set-Ours rc.namespace rc.name rc built h in
    (
      annotated,
      spaced,
      named,
      built-by (λ sts. sts.meta.annotations ≢ []) rc.namespace rc.name rc built
          (stateful_set-annotated rc rc.namespace rc.name) h,
    )

-- The stateful set that is built for a custom resource, under its own name and namespace, is found for
-- it when it is listed first, and the custom resource is found for the set.
pub build_stateful_set-found :
    (rc : RedisCluster) (built : StatefulSet × RedisCluster) (sets : List StatefulSet)
    (rcs : List RedisCluster)
    → build_stateful_set rc.namespace rc.name rc ≡ done built
    → (find_stateful_set rc (built.0 ∷ sets) ≡ some built.0)
      × (find_redis_cluster built.0 (rc ∷ rcs) ≡ some rc)
unfolding find_stateful_set find_redis_cluster
build_stateful_set-found rc built sets rcs h =
    let managed = (manages-Owns rc built.0).1 (built-Owns rc built h) in
    (rw managed refl, rw managed refl)
