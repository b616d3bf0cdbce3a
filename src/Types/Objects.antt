-- ===== src/Types/Objects.antt =====
-- The Kubernetes objects that the operator builds: the fields that the code sets, and those it reads.
-- Resources, affinity and the update strategy of a pod template are passed on unread, as texts.
use Prim.Native.Nat.{ℕ}
use Prim.Native.String.{String}
use mathlib.Core.Bool.{Bool}
use mathlib.Core.List.{List}
use mathlib.Core.Option.{Option}
use middleware_operator_mana.Types.Template.{EnvVar}

pub record OwnerReference : Type 0 where
  pub api_version : String
  pub kind : String
  pub name : String
  pub uid : String
  pub block_owner_deletion : Bool
  pub controller : Bool

pub record ObjectMeta : Type 0 where
  pub name : String
  pub namespace : String
  pub annotations : List (String × String)
  pub labels : List (String × String)
  pub owner_references : List OwnerReference

pub record ServicePort : Type 0 where
  pub name : String
  pub port : ℕ
  pub target_port : ℕ

pub record Service : Type 0 where
  pub meta : ObjectMeta
  pub cluster_ip : String
  pub ports : List ServicePort
  pub selector : List (String × String)

pub record Probe : Type 0 where
  pub command : List String
  pub initial_delay_seconds : ℕ
  pub timeout_seconds : ℕ
  pub period_seconds : ℕ
  pub success_threshold : ℕ
  pub failure_threshold : ℕ

pub record VolumeMount : Type 0 where
  pub name : String
  pub mount_path : String
  pub sub_path : String

pub record ContainerPort : Type 0 where
  pub protocol : String
  pub container_port : ℕ

pub record Container : Type 0 where
  pub command : List String
  pub image : String
  pub image_pull_policy : String
  pub env : List EnvVar
  pub name : String
  pub ports : List ContainerPort
  pub liveness_probe : Option Probe
  pub readiness_probe : Option Probe
  pub resources : String
  pub volume_mounts : List VolumeMount

pub data VolumeSource : Type 0 where
  config_map : (default_mode : ℕ) → (name : String) → VolumeSource
  persistent_volume_claim : (claim_name : String) → VolumeSource

pub record Volume : Type 0 where
  pub name : String
  pub source : VolumeSource

pub record PodSpec : Type 0 where
  pub containers : List Container
  pub dns_policy : String
  pub init_containers : List Container
  pub restart_policy : String
  pub affinity : String
  pub volumes : List Volume

pub record StatefulSetSpec : Type 0 where
  pub update_strategy : String
  pub replicas : Option ℕ
  pub revision_history_limit : ℕ
  pub match_labels : List (String × String)
  pub service_name : String
  pub template_labels : List (String × String)
  pub template_annotations : List (String × String)
  pub pod : PodSpec

pub record StatefulSet : Type 0 where
  pub meta : ObjectMeta
  pub resource_version : String
  pub deletion_timestamp : Option ℕ
  pub spec : StatefulSetSpec
  pub status_replicas : ℕ
