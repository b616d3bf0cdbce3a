-- ===== src/Errors.antt =====
-- The errors that the operator makes or passes on. Go builds texts by `fmt.Errorf`; here each format
-- is a constructor with what it wraps, and the text is what the `message` of the environment makes.
use middleware_operator_mana.Base.{ℕ, ◌≡◌, refl, ◌⊎◌, inl, inr, List, String, Option}
use middleware_operator_mana.Types.{ObjectReference}

pub data Result {ℓ} (E : Type 0) (A : Type ℓ) : Type ℓ where
  ok : A → Result E A
  err : E → Result E A

pub Result-cases {ℓ} :
    {E : Type 0} {A : Type ℓ} (r : Result E A) → ((a : A) × (r ≡ ok a)) ⊎ ((e : E) × (r ≡ err e))
Result-cases (ok a) = inl (a, refl)
Result-cases (err e) = inr (e, refl)

-- An error of the API server or of a lister.
pub data ApiError : Type 0 where
  not_found already_exists : ApiError
  other_api : String → ApiError

-- The commands that are run in a pod. `%v` of an argument is the argument.
pub data Command : Type 0 where
  -- redis-cli -c -h %v -p 6379 cluster info
  cluster_info : (ip : String) → Command
  -- redis-cli -c -h %v -p 6379 cluster nodes
  cluster_nodes : (ip : String) → Command
  -- redis-trib.rb info %v:6379
  trib_info : (ip : String) → Command
  -- redis-trib.rb check %v:6379
  trib_check : (ip : String) → Command
  -- echo yes | redis-trib.rb create, with each address
  trib_create : (addresses : List String) → Command
  -- redis-trib.rb add-node --slave --master-id %v %v:6379 %v:6379
  add_slave : (master_id slave_ip master_ip : String) → Command
  -- redis-trib.rb add-node %v:6379 %v:6379
  add_master : (new_ip exist_ip : String) → Command
  -- redis-trib.rb rebalance --use-empty-masters --pipeline %v %v:6379
  rebalance : (pipeline ip : String) → Command
  -- redis-trib.rb reshard --from %v --to %v --slots %v --pipeline %v --yes %v:6379
  reshard : (from to : String) → (slots : ℕ) → (pipeline ip : String) → Command

-- What `ExecToPodThroughAPI` returns: the outputs, and the error of the stream if there was one.
pub record ExecReply : Type 0 where
  pub stdout : String
  pub stderr : String
  pub error : Option String

pub data Error : Type 0 where
  -- An error passed on as it came.
  api : ApiError → Error
  -- A command that failed or wrote to its standard error.
  command_failed : ObjectReference → Command → ExecReply → Error
  -- `cluster info` without a match of `cluster_known_nodes`.
  known_nodes_unmatched : (stdout : String) → Error
  -- `wait.ErrWaitTimeout`.
  wait_timeout : Error
  check_cluster : Error → Error
  cluster_not_ok : Error → Error
  get_endpoints_error : Error → Error
  get_stateful_set_error : Error → Error
  stateful_set_absent : Error
  -- "endpoints.Subsets is nil, maybe statefulset has been deleted", and its variants.
  subsets_nil : Error
  endpoints_blank : Error
  old_endpoints_empty : Error
  addresses_empty : Error
  -- "create redisCluster endpoints addresses is empty"
  no_addresses : Error
  -- The status could not be written, or not be made up.
  status_error : Error → Error
  lengths_differ : (slaves masters node_ids : List String) → Error
  cluster_status_error : Error
  strategy_type_error : String → Error
  strategies_length_error : Error
  too_few_strategies : Error
  upgrade_auto : Error → Error
  upgrade_manual : Error → Error
  create_service_error : Error → Error
  create_stateful_set_error : Error → Error
  scale_stateful_set_error : Error → Error
  bad_key : String → Error
