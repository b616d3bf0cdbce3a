-- ===== src/Status.antt =====
-- The status of a cluster (sync_rediscluster.go): `updateRedisClusterStatus`.
pub mod Conditions
pub mod Writes
pub mod Nodes
pub mod Moves
pub mod Quiet
pub mod Phases
use Prim.Native.String.{◌++◌ as str_append}
use middleware_operator_mana.Base.{
  ℕ, zero, suc, Bool, true, false, not, ◌||◌, ◌&&◌, List, [], ◌∷◌, ◌++◌, map, String, str_eq,
  str_lt, Option, none, some, if◌then◌else◌, get_elem?, sort_stable,
}
use middleware_operator_mana.Build.Containers.{texts, set_key}
use middleware_operator_mana.Commands.{exec_cluster_nodes, with_port}
use middleware_operator_mana.Errors.{
  Result, ok, err, Error, ApiError, api, get_endpoints_error, subsets_nil, status_error,
}
use middleware_operator_mana.Outcome.{Outcome, done, panic, deref}
use middleware_operator_mana.Types.{
  EndpointAddress, EndpointSubset, Endpoints, InstanceInfo, Node, ObjectReference, RedisCluster,
  RedisClusterCondition, RedisClusterStatus, RedisNodeInfo, master_condition_type,
  slave_condition_type,
}
use middleware_operator_mana.Types.Objects.{StatefulSet}
use middleware_operator_mana.Types.Phase.{RedisClusterPhase}
use middleware_operator_mana.Types.Phase
use middleware_operator_mana.Util.Status.{deep_equal}
use middleware_operator_mana.World.{
  Env, Event, got_endpoints, got_stateful_set, listed_nodes, updated_cluster, looked_at_clock,
  Trace, M, ◌>>=◌, and_then, pure, lift, call, on_error,
}
use Conditions.{build_conditions}

-- The phases whose status goes on with the slice of conditions of the object, without a copy.
unfoldable pub shares_conditions : RedisClusterPhase → Bool
shares_conditions phase =
    str_eq phase Phase.fresh
    || (str_eq phase Phase.scaling
        || (str_eq phase Phase.upgrading
            || (str_eq phase Phase.failed || str_eq phase Phase.deleting)))

abbrev pub by_name : RedisClusterCondition → RedisClusterCondition → Bool
by_name v w = str_lt v.name w.name

abbrev pub sort_conditions : RedisClusterStatus → RedisClusterStatus
sort_conditions s = record s { conditions = sort_stable by_name s.conditions }

abbrev pub status_of :
    ℕ → RedisClusterPhase → String → List RedisClusterCondition → RedisClusterStatus
status_of replicas phase reason conditions = record {
  replicas = replicas;
  phase = phase;
  reason = reason;
  conditions = conditions;
}

-- The object that the caller holds after the call, the object returned, and the error.
pub record Updated : Type 0 where
  pub object : RedisCluster
  pub returned : RedisCluster
  pub error : Option Error

-- The zero value, which the client returns beside an error.
abbrev pub no_cluster : RedisCluster
no_cluster = record {
  namespace = "";
  name = "";
  uid = "";
  resource_version = "";
  spec = record {
    replicas = none;
    pause = false;
    finalizers = "";
    repository = "";
    version = "";
    update_strategy = record { type = ""; pipeline = ""; assign_strategies = [] };
    pod = [];
  };
  status = record { replicas = 0; reason = ""; phase = ""; conditions = [] };
}

module _ (env : Env) where
  abbrev pub get_endpoints : String → String → M (Result ApiError Endpoints)
  get_endpoints namespace name =
      call (got_endpoints namespace name) (λ t. env.get_endpoints t namespace name)

  abbrev pub get_stateful_set : RedisCluster → M (Result ApiError StatefulSet)
  get_stateful_set rc =
      call (got_stateful_set rc.namespace rc.name)
        (λ t. env.get_stateful_set t rc.namespace rc.name)

  -- The replicas of the stateful set, as the phases Scaling to Deleting report them.
  unfoldable pub with_replicas :
      RedisCluster → (ℕ → RedisClusterStatus) → M (Result Error RedisClusterStatus)
  with_replicas rc status = do
    r ← get_stateful_set rc
    on_error r (λ e. pure (err (status_error (api e))))
        λ sts. do replicas ← lift (deref sts.spec.replicas); pure (ok (status replicas))

  -- The case of Running; the endpoints are fetched where the caller has none.
  unfoldable pub running_status :
      RedisCluster → Option Endpoints → String → M (Result Error RedisClusterStatus)
  unfolding build_conditions
  running_status rc given reason = do
    fetched ← elim given [
      | some endpoints ↦ pure (ok endpoints)
      | none ↦ get_endpoints rc.namespace rc.name
    ]
    on_error fetched (λ e. pure (err (get_endpoints_error (api e))))
        λ endpoints. elim endpoints.subsets [
          | none ↦ pure (err subsets_nil)
          | some _ ↦ do
            r ← get_stateful_set rc
            on_error r (λ e. pure (err (status_error (api e))))
                λ sts. do
                  built ← build_conditions env endpoints
                  on_error built (λ e. pure (err (status_error e)))
                      λ conditions. do
                        replicas ← lift (deref sts.spec.replicas)
                        pure (ok (status_of replicas Phase.running reason conditions))
        ]

  -- `tempStatus`: the zero value for a phase that is none of the constants.
  unfoldable pub temp_status :
      RedisCluster
      → Option Endpoints
      → RedisClusterPhase
      → String
      → M (Result Error RedisClusterStatus)
  unfolding with_replicas running_status shares_conditions
  temp_status rc given phase reason =
      if str_eq phase Phase.fresh
      then pure (ok (status_of 0 Phase.fresh reason rc.status.conditions))
      else if str_eq phase Phase.creating
      then pure (ok (status_of 0 Phase.creating reason []))
      else if str_eq phase Phase.running
      then running_status rc given reason
      else if shares_conditions phase
      then with_replicas rc (λ n. status_of n phase reason rc.status.conditions)
      else pure (ok (status_of 0 "" "" []))

  -- The write of the new status, unless nothing but transition times would change. The sort is in
  -- place, so a shared slice is sorted in the object too.
  unfoldable pub write_status : RedisCluster → RedisClusterPhase → RedisClusterStatus → M Updated
  unfolding deep_equal shares_conditions sort_stable
  write_status rc phase temp =
      let sorted = sort_conditions temp in
      let held =
        if shares_conditions phase then record rc { status = sort_conditions rc.status } else rc in
      if not (deep_equal sorted held.status)
      then (do
        let changed = record held { status = sorted }
        r ← call (updated_cluster changed) (λ t. env.update_cluster t changed)
        pure (elim r [
          | ok stored ↦ record { object = changed; returned = stored; error = none }
          | err e ↦ record {
            object = changed;
            returned = no_cluster;
            error = some (status_error (api e));
          }
        ]))
      else pure (record { object = held; returned = held; error = none })

  -- `updateRedisClusterStatus`
  unfoldable pub update_redis_cluster_status :
      RedisCluster → Option Endpoints → RedisClusterPhase → String → M Updated
  unfolding temp_status write_status
  update_redis_cluster_status rc given phase reason = do
    r ← temp_status rc given phase reason
    on_error r (λ e. pure (record { object = rc; returned = rc; error = some e }))
        λ temp. write_status rc phase temp
