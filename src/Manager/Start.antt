-- ===== src/Manager/Start.antt =====
-- `Run` and `StartOperators` of operatormanager.go, with extensions.go: what the manager does, in order,
-- until it serves or ends.
use Prim.Native.String.{◌++◌ as str_append}
use middleware_operator_mana.Base.{
  ℕ, Bool, true, List, [], ◌∷◌, ◌++◌, map, String, Option, none, some, if◌then◌else◌,
}
use middleware_operator_mana.Errors.{
  Result, ok, err, ApiError, not_found, already_exists, other_api,
}
use middleware_operator_mana.Manager.Enabled.{is_operator_enabled}
use middleware_operator_mana.Manager.Options.{OperatorManagerServer}

-- The custom resource definition, as far as the code sets it.
pub record CustomResourceDefinition : Type 0 where
  pub name : String
  pub group : String
  pub version : String
  pub scope : String
  pub kind : String
  pub list_kind : String
  pub plural : String
  pub singular : String
  pub short_names : List String

-- What `CreateRedisClusterCRD` creates.
unfoldable pub redis_cluster_crd : CustomResourceDefinition
redis_cluster_crd = record {
  name = str_append "redisclusters." "redis.middleware.hc.cn";
  group = "redis.middleware.hc.cn";
  version = "v1alpha1";
  scope = "Namespaced";
  kind = "RedisCluster";
  list_kind = "RedisClusterList";
  plural = "redisclusters";
  singular = "rediscluster";
  short_names = "rec" ∷ [];
}

-- The paths that `startHTTP` serves itself; those of healthz and configz are the libraries'.
unfoldable pub profiling_paths : OperatorManagerServer → List String
profiling_paths s =
    if s.enable_profiling
    then "/debug/pprof/" ∷ "/debug/pprof/profile" ∷ "/debug/pprof/symbol" ∷ "/debug/pprof/trace"
      ∷ []
    else []

-- What the manager does.
pub data Action : Type 0 where
  asked_for_crd : CustomResourceDefinition → Action
  -- `go startHTTP(s)`
  serving : List String → Action
  elected : Action
  -- An operator was started, with this many workers.
  started : (name : String) → (workers : ℕ) → Action
  started_informers : Action

-- How a run ends: an error is returned, the process is ended by `glog.Fatalf`, or it never ends.
pub data Ending : Type 0 where
  returned : String → Ending
  fatal : String → Ending
  forever : Ending

-- The answers that the manager gets. `lead` is none where it is never elected, and tells whether the
-- lease is lost later.
pub record Machine : Type 0 where
  pub client_config : Option String
  pub clients : Option String
  pub crd : CustomResourceDefinition → Result ApiError (Unit {0})
  pub hostname : Option String
  pub lock : Option String
  pub lead : Option Bool
  -- `err.Error()`
  pub message : ApiError → String

-- An init function: the actions, and whether it started, or its error.
abbrev pub InitFunc : Type 0
InitFunc = OperatorManagerServer → List Action × Result String Bool

-- `startRedisClusterController`: `NewRedisClusterOperator` returns no error.
unfoldable pub start_redis_cluster_controller : InitFunc
start_redis_cluster_controller s =
    (started "rediscluster" s.concurrent_redis_cluster_syncs ∷ [], ok true)

-- `NewOperatorInitializers`
unfoldable pub new_operator_initializers : List (String × InitFunc)
unfolding start_redis_cluster_controller
new_operator_initializers = ("rediscluster", start_redis_cluster_controller) ∷ []

-- `KnownOperators`
unfoldable pub known_operators : List String
unfolding new_operator_initializers
known_operators = map (λ x. x.0) new_operator_initializers

-- `StartOperators`, over the entries of the map in the order in which Go ranges over them.
unfoldable pub start_operators :
    OperatorManagerServer → List (String × InitFunc) → List Action × Option String
unfolding is_operator_enabled
start_operators s [] = ([], none)
start_operators s ((name, init) ∷ operators) =
    let (later, failure) = start_operators s operators in
    if is_operator_enabled name s.operators
    then (elim (init s).1 [ err e ↦ ((init s).0, some e) | ok _ ↦ ((init s).0 ++ later, failure) ])
    else (later, failure)

-- The callback `run` of `Run`: the operators, then the informers, then nothing.
unfoldable pub lead : OperatorManagerServer → List (String × InitFunc) → List Action × Ending
unfolding start_operators
lead s operators =
    let (actions, failure) = start_operators s operators in
    elim failure [
      | some e ↦ (actions, fatal e)
      | none ↦ (actions ++ started_informers ∷ [], forever)
    ]

-- The election: the callback runs once the lease is won; losing it ends the process.
unfoldable pub elect :
    Machine → OperatorManagerServer → List (String × InitFunc) → List Action × Ending
unfolding lead
elect m s operators = elim m.hostname [
  | some e ↦ ([], returned e)
  | none ↦ elim m.lock [
    | some e ↦ ([], fatal e)
    | none ↦ elim m.lead [
      | none ↦ ([], forever)
      | some lost ↦
          let (actions, ending) = lead s operators in
          (elected ∷ actions, if lost then fatal "leaderelection lost" else ending)
    ]
  ]
]

-- `errors.IsAlreadyExists`
abbrev pub crd_error : Result ApiError (Unit {0}) → Option ApiError
crd_error (ok _) = none
crd_error (err already_exists) = none
crd_error (err not_found) = some not_found
crd_error (err (other_api e)) = some (other_api e)

-- `Run`
unfoldable pub run_manager :
    Machine → OperatorManagerServer → List (String × InitFunc) → List Action × Ending
unfolding redis_cluster_crd profiling_paths lead elect
run_manager m s operators = elim m.client_config [
  | some e ↦ ([], returned e)
  | none ↦ elim m.clients [
    | some e ↦ ([], fatal e)
    | none ↦ elim (crd_error (m.crd redis_cluster_crd)) [
      | some e ↦ (asked_for_crd redis_cluster_crd ∷ [], returned (m.message e))
      | none ↦
          let (actions, ending) =
            if s.leader_election.leader_elect then elect m s operators else lead s operators in
          (asked_for_crd redis_cluster_crd ∷ serving (profiling_paths s) ∷ actions, ending)
    ]
  ]
]
