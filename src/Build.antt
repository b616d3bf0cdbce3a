-- ===== src/Build.antt =====
-- `buildRedisClusterService` and `buildRedisClusterStatefulset` of sync_rediscluster.go.
pub mod Containers
unfoldable pub use Containers.{
  redis_container_name, set_key, texts, domain_name, container_env, redis_container,
  exporter_container, init_container, pod_spec,
}
use Prim.Native.String.{◌++◌ as str_append}
use middleware_operator_mana.Base.{
  ℕ, Bool, true, false, List, [], ◌∷◌, ◌++◌, String, str_eq, Option, none, some, if◌then◌else◌,
}
use middleware_operator_mana.Outcome.{Outcome, done, panic, ◌>>=◌}
use middleware_operator_mana.Types.{
  RedisCluster, RedisClusterSpec, middleware_redis_type_key, middleware_redis_clusters_prefix,
}
use middleware_operator_mana.Types.Objects.{
  OwnerReference, ObjectMeta, ServicePort, Service, Probe, VolumeMount, ContainerPort, Container,
  VolumeSource, config_map, persistent_volume_claim, Volume, PodSpec, StatefulSetSpec, StatefulSet,
}
use middleware_operator_mana.Types.Template.{EnvVar, RedisClusterPodTemplateSpec}

abbrev pub pause_key : String
pause_key = "pause.middleware.harmonycloud.cn"

-- The reference to the custom resource: `controllerKind` is the group, version and kind.
abbrev owner : RedisCluster → String → OwnerReference
owner rc name = record {
  api_version = "redis.middleware.hc.cn/v1alpha1";
  kind = "RedisCluster";
  name = name;
  uid = rc.uid;
  block_owner_deletion = true;
  controller = true;
}

unfoldable pub build_service : RedisCluster → String → String → Service
build_service rc namespace name = record {
  meta = record {
    name = name;
    namespace = namespace;
    annotations =
        (middleware_redis_type_key, texts (middleware_redis_clusters_prefix ∷ name ∷ [])) ∷ [];
    labels = ("app", name) ∷ [];
    owner_references = owner rc name ∷ [];
  };
  cluster_ip = "None";
  ports =
      record { name = name; port = 6379; target_port = 6379 }
      ∷ record { name = "redis-exporter"; port = 9105; target_port = 9105 }
      ∷ [];
  selector = ("app", name) ∷ [];
}

module _ (rc : RedisCluster) (namespace name : String) (pod_tpl : RedisClusterPodTemplateSpec) where
  unfoldable pub pod_labels : List (String × String)
  unfolding set_key
  pod_labels = elim pod_tpl.labels [
    | none ↦ ("app", name) ∷ []
    | some labels ↦ set_key "app" name labels
  ]

  unfoldable pub stateful_set : StatefulSet
  unfolding pod_labels pod_spec
  stateful_set = record {
    meta = record {
      name = name;
      namespace = namespace;
      annotations =
          (middleware_redis_type_key, texts (middleware_redis_clusters_prefix ∷ name ∷ []))
          ∷ (pause_key, if rc.spec.pause then "true" else "false")
          ∷ [];
      labels = ("app", name) ∷ [];
      owner_references = owner rc rc.name ∷ [];
    };
    resource_version = "";
    deletion_timestamp = none;
    spec = record {
      update_strategy = pod_tpl.update_strategy;
      replicas = rc.spec.replicas;
      revision_history_limit = 10;
      match_labels = ("app", name) ∷ [];
      service_name = rc.name;
      template_labels = pod_labels;
      template_annotations = pod_tpl.annotations;
      pod = pod_spec rc namespace name pod_tpl;
    };
    status_replicas = 0;
  }

-- The set, and the custom resource with the label that was written into its own template: the map of
-- labels is shared unless it was nil.
unfoldable pub build_stateful_set :
    String → String → RedisCluster → Outcome (StatefulSet × RedisCluster)
unfolding stateful_set pod_labels
build_stateful_set namespace name rc = elim rc.spec.pod [
  | [] ↦ panic
  | pod_tpl ∷ others ↦
      let labelled : RedisClusterPodTemplateSpec = elim pod_tpl.labels [
        | none ↦ pod_tpl
        | some labels ↦ record pod_tpl { labels = some (pod_labels rc namespace name pod_tpl) }
      ] in
      done (
        stateful_set rc namespace name pod_tpl,
        record rc { spec = record rc.spec { pod = labelled ∷ others } },
      )
]
