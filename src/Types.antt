-- ===== src/Types.antt =====
-- The data of the custom resource (pkg/apis/redis/v1alpha1/types.go), of the operator's own
-- records (pkg/operator/redis/types.go), and the part of the Kubernetes objects that it reads.
-- A pointer that may be nil is an `Option`; a slice whose nil is told from the empty one too.
pub mod Phase
pub mod Template
pub mod Objects
use Prim.Native.Nat.{ℕ}
use Prim.Native.String.{String}
use mathlib.Core.Bool.{Bool, true, false}
use mathlib.Core.List.{List, []}
use mathlib.Core.Option.{Option, none}
use Phase.{RedisClusterPhase}
use Template.{RedisClusterPodTemplateSpec}

-- The string enumerations are strings with constants.
abbrev pub assign_receive : String
assign_receive = "AssignReceive"

abbrev pub auto_receive : String
auto_receive = "AutoReceive"

abbrev pub master_condition_type : String
master_condition_type = "master"

abbrev pub slave_condition_type : String
slave_condition_type = "slave"

abbrev pub middleware_redis_type_key : String
middleware_redis_type_key = "redis.middleware.hc.cn"

abbrev pub middleware_redis_clusters_prefix : String
middleware_redis_clusters_prefix = "redisclusters-"

pub record SlotsAssignStrategy : Type 0 where
  pub slots : Option ℕ
  pub from_replicas : String

pub record RedisClusterUpdateStrategy : Type 0 where
  pub type : String
  pub pipeline : String
  pub assign_strategies : List SlotsAssignStrategy

pub record RedisClusterSpec : Type 0 where
  pub replicas : Option ℕ
  pub pause : Bool
  pub finalizers : String
  pub repository : String
  pub version : String
  pub update_strategy : RedisClusterUpdateStrategy
  pub pod : List RedisClusterPodTemplateSpec

pub record RedisClusterCondition : Type 0 where
  pub name : String
  pub type : String
  pub instance_address : String
  pub node_id : String
  pub master_node_id : String
  pub domain_name : String
  pub slots : String
  pub hostname : String
  pub host_ip : String
  pub status : String
  pub last_transition_time : ℕ
  pub reason : String
  pub message : String

pub record RedisClusterStatus : Type 0 where
  pub replicas : ℕ
  pub reason : String
  pub phase : RedisClusterPhase
  pub conditions : List RedisClusterCondition

pub record RedisCluster : Type 0 where
  pub namespace : String
  pub name : String
  pub uid : String
  pub resource_version : String
  pub spec : RedisClusterSpec
  pub status : RedisClusterStatus

-- One line of `cluster nodes`.
pub record RedisNodeInfo : Type 0 where
  pub node_id : String
  pub ip_port : String
  pub flags : String
  pub master : String
  pub ping_sent : String
  pub pong_recv : String
  pub config_epoch : String
  pub link_state : String
  pub slot : String

pub record InstanceInfo : Type 0 where
  pub instance_ip : String
  pub host_name : String
  pub host_ip : String
  pub node_name : String
  pub domain_name : String

pub record RedisTribInfo : Type 0 where
  pub ip : String
  pub port : String
  pub node_id_prefix : String
  pub keys : ℕ
  pub slots : ℕ
  pub slaves : ℕ

-- The name and namespace of a pod, as `TargetRef` holds them.
pub record ObjectReference : Type 0 where
  pub name : String
  pub namespace : String

pub record EndpointAddress : Type 0 where
  pub ip : String
  pub node_name : String
  pub target : ObjectReference

pub record EndpointSubset : Type 0 where
  pub addresses : List EndpointAddress

pub record Endpoints : Type 0 where
  pub namespace : String
  pub name : String
  pub subsets : Option (List EndpointSubset)

-- The zero value, `&v1.Endpoints{}`.
abbrev pub no_endpoints : Endpoints
no_endpoints = record { namespace = ""; name = ""; subsets = none }

pub record Node : Type 0 where
  pub name : String
  -- The type and the text of each address.
  pub addresses : List (String × String)
