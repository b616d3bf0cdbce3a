-- ===== src/Types/Template.antt =====
-- The pod template of the custom resource (pkg/apis/redis/v1alpha1/types.go).
use Prim.Native.String.{String}
use mathlib.Core.List.{List}
use mathlib.Core.Option.{Option}

pub record EnvVar : Type 0 where
  pub name : String
  pub value : String
  -- The path of a `fieldRef`, where the value comes from one.
  pub field_path : Option String

pub record RedisClusterPodTemplateSpec : Type 0 where
  pub configmap : String
  pub monitor_image : String
  pub init_image : String
  pub middleware_image : String
  pub volume_claim : String
  pub env : List EnvVar
  pub annotations : List (String × String)
  -- The map may be nil.
  pub labels : Option (List (String × String))
  -- Resources, affinity and the set's own update strategy are passed on unread.
  pub resources : String
  pub affinity : String
  pub update_strategy : String
