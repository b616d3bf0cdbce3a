-- ===== src/Build/Containers.antt =====
-- The containers and volumes of the pods: the template of `buildRedisClusterStatefulset`.
use Prim.Native.String.{◌++◌ as str_append}
use middleware_operator_mana.Base.{List, [], ◌∷◌, ◌++◌, String, str_eq, none, some, if◌then◌else◌}
use middleware_operator_mana.Types.{RedisCluster}
use middleware_operator_mana.Types.Objects.{
  Probe, ContainerPort, Container, config_map, persistent_volume_claim, PodSpec,
}
use middleware_operator_mana.Types.Template.{EnvVar, RedisClusterPodTemplateSpec}

abbrev pub redis_container_name : String
redis_container_name = "redis-cluster"

-- `m[key] = value` on a map.
unfoldable pub set_key : String → String → List (String × String) → List (String × String)
set_key key value [] = (key, value) ∷ []
set_key key value ((k, v) ∷ m) =
    if str_eq k key then (key, value) ∷ m else (k, v) ∷ set_key key value m

abbrev pub texts : List String → String
texts [] = ""
texts (s ∷ rest) = str_append s (texts rest)

-- The value of the variable DOMAINNAME, or "".
unfoldable pub domain_name : List EnvVar → String
domain_name [] = ""
domain_name (env ∷ rest) = if str_eq env.name "DOMAINNAME" then env.value else domain_name rest

unfoldable pub container_env : String → List EnvVar → List EnvVar
container_env namespace env =
    (record { name = "POD_NAME"; value = ""; field_path = some "metadata.name" }
      ∷ record { name = "NAMESPACE"; value = namespace; field_path = none }
      ∷ record { name = "PODIP"; value = ""; field_path = some "status.podIP" }
      ∷ [])
    ++ env

abbrev ping : Probe
ping = record {
  command = "/bin/sh" ∷ "-c" ∷ "redis-cli -h ${POD_NAME} ping" ∷ [];
  initial_delay_seconds = 5;
  timeout_seconds = 5;
  period_seconds = 5;
  success_threshold = 1;
  failure_threshold = 3;
}

abbrev redis_ports : List ContainerPort
redis_ports =
    record { protocol = "TCP"; container_port = 16379 }
    ∷ record { protocol = "TCP"; container_port = 6379 }
    ∷ []

module _ (rc : RedisCluster) (namespace name : String) (pod_tpl : RedisClusterPodTemplateSpec) where
  data_path : String
  unfolding domain_name
  data_path = texts ("/nfs/redis/" ∷ domain_name pod_tpl.env ∷ "/" ∷ namespace ∷ [])

  unfoldable pub redis_container : Container
  unfolding container_env data_path
  redis_container = record {
    command = "/bin/redis-server" ∷ texts (data_path ∷ "/$(POD_NAME)/config/redis.conf" ∷ []) ∷ [];
    image = str_append rc.spec.repository pod_tpl.middleware_image;
    image_pull_policy = "Always";
    env = container_env namespace pod_tpl.env;
    name = redis_container_name;
    ports = redis_ports;
    liveness_probe = some ping;
    readiness_probe = some ping;
    resources = pod_tpl.resources;
    volume_mounts = record { name = "redis-data"; mount_path = data_path; sub_path = "" } ∷ [];
  }

  unfoldable pub exporter_container : Container
  unfolding container_env
  exporter_container = record {
    command =
        "/redis_exporter"
        ∷ "-redis.addr=$(PODIP):6379"
        ∷ "-redis.password="
        ∷ "-web.listen-address=:9105"
        ∷ "-redis-only-metrics=true"
        ∷ texts ("-redis.alias=" ∷ redis_container_name ∷ [])
        ∷ [];
    image = str_append rc.spec.repository pod_tpl.monitor_image;
    image_pull_policy = "Always";
    env = container_env namespace pod_tpl.env;
    name = "redis-exporter";
    ports = record { protocol = "TCP"; container_port = 9105 } ∷ [];
    liveness_probe = none;
    readiness_probe = none;
    resources = "";
    volume_mounts = [];
  }

  unfoldable pub init_container : Container
  unfolding container_env data_path
  init_container = record {
    command = "/bin/sh" ∷ "-c" ∷ "sh /init.sh" ∷ [];
    image = str_append rc.spec.repository pod_tpl.init_image;
    image_pull_policy = "Always";
    env = container_env namespace pod_tpl.env;
    name = str_append rc.name "-init";
    ports = redis_ports;
    liveness_probe = none;
    readiness_probe = none;
    resources = "";
    volume_mounts =
        record { name = "redis-data"; mount_path = data_path; sub_path = "" }
        ∷ record {
          name = "redis-config";
          mount_path = "/config/redis.conf";
          sub_path = "redis.conf";
        }
        ∷ [];
  }

  unfoldable pub pod_spec : PodSpec
  unfolding redis_container exporter_container init_container
  pod_spec = record {
    containers = redis_container ∷ exporter_container ∷ [];
    dns_policy = "ClusterFirst";
    init_containers = init_container ∷ [];
    restart_policy = "Always";
    affinity = pod_tpl.affinity;
    volumes =
        record { name = "redis-config"; source = config_map 420 (str_append rc.name "-config") }
        ∷ record { name = "redis-data"; source = persistent_volume_claim pod_tpl.volume_claim }
        ∷ [];
  }
