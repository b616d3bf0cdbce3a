-- ===== src/Lib.antt =====
-- middleware-operator-manager: the operator that creates, scales, checks and repairs Redis clusters on
-- Kubernetes for the custom resource RedisCluster.
--
-- How the program works. Events on custom resources and stateful sets put keys on a work queue. A sync
-- (pkg/operator/redis/redis_operator.go) reads the custom resource and its stateful set from the caches
-- and decides: create the cluster, scale it up, check it, or do nothing. To create is to make the service
-- and the stateful set, wait until all pods are ready, choose masters and slaves, and run `redis-trib.rb`
-- in a pod (sync_rediscluster.go). To scale is to give the new pods roles that fit the ones that exist,
-- let them join, and hand out slots. To check is to write the state of a settled cluster to the status,
-- or to take up what was left unfinished (check_rediscluster.go). Every step writes the status of the
-- custom resource, unless nothing has changed (util/rediscluster.go).
--
-- The model. A computation of the operator is a function from the history of its calls to an outcome and
-- the longer history (World). Whatever is outside the repository's code answers as a function of that
-- history: the API server, the caches, the commands run in pods, the timer of `wait.Poll`, the clock, the
-- texts of errors. So the order of calls is in the model, and a theorem holds of all deterministic
-- surroundings. An outcome (Outcome) is a value, a panic, or no end. A Go error is a Result; its text is
-- kept as a constructor of Error with what it wraps (Errors). A pointer or slice that may be nil, where
-- the code tells it apart, is an Option. int and int32 counts are natural numbers, as pods are few;
-- where a difference may fall below zero the model has an integer (Compose).
--
-- Base          numbers, tests, lists and the stable sort that the other files share.
-- Types         pkg/apis/redis/v1alpha1/types.go, pkg/operator/redis/types.go, and the Kubernetes
--               objects as far as they are read or set.
-- Text          `strings`, `strconv.Atoi` and the two regular expressions as they are used.
-- Util          util/slice.go (InSlice) and util/rediscluster.go (DeepEqualRedisClusterStatus).
-- Outcome, Errors, World   results, errors, surroundings.
-- Build         buildRedisClusterService and buildRedisClusterStatefulset (sync_rediscluster.go).
-- Commands      exec..., createCluster, add..., rebalance..., reshare..., waitRedisStatusOK; the parsers
--               of the replies (Commands/Parse); ExecToPodThroughAPI and the command lines that it is
--               given, over streams that are a parameter (Commands/Exec). The text that Redis prints is a
--               printer of its own (Commands/Printed, Commands/RoundTrip, Commands/Trib).
-- Status        buildRedisClusterStatusConditions (Status/Conditions) and updateRedisClusterStatus. The
--               in-place sort of a slice that the object and the new status share is in the model.
-- Assign        assignMasterSlaveIP: grouping by node, interleaving, the choice of slaves.
-- Compose       composeMasterSlaveIP and buildWillAddClusterMasterSlaveIPs (check_rediscluster.go).
-- Lifecycle     checkPodInstanceIsReadyByEndpoint, createAndInitRedisCluster, scaleRedisCluster,
--               upgradeRedisCluster and its two strategies.
-- Repair        checkAndUpdateRedisClusterStatus, one definition for each block.
-- Sync          sync and the lookups (Sync/Core), the work queue as an interface with client-go's laws,
--               handleErr, syncRedisCluster and the handlers of events (Sync/Queue).
-- Workers       the handlers with their tombstones and how NewRedisClusterOperator installs them
--               (Workers/Handlers); Run, worker and processNextWorkItem as a step relation on the queue and
--               the syncs in flight (Workers/Steps). `Get` and `Done` are client-go's: an interface with
--               the laws of its documentation about the keys that are being processed.
-- Manager       cmd/operator-manager and config: options and flags (Manager/Options), IsOperatorEnabled
--               (Manager/Enabled), StartOperators, the election and Run as a sequence of actions
--               (Manager/Start). Durations are seconds. That the lease is lost comes after the start of
--               the operators, if at all. Go's order over the map of operators is the order of a list.
-- Samples       small inputs.
--
-- Loops and fuel. The loop that interleaves the nodes' pods may not end, so it runs on fuel, two more than
-- there are pods: each round takes a pod, one round more sees that none is left (Assign/Rounds); on no
-- pods no fuel is enough. The second loop over new masters takes an address in each round, so one more
-- than there are addresses is enough (Compose/Roles). The loop of `wait.Poll`
-- (vendored) is World's `poll`; it ticks as often as the surroundings say. All other loops are structural recursion.
--
-- What calls a computation may make is a predicate on events (World/Emits); the files named Quiet
-- carry it through the definitions of their component. In which order it writes phases to the status is a
-- climb by a rank of the phases (World/Ascends, World/Climbs); the files named Phases carry that, and
-- Sync/Course puts it together. Whole runs in surroundings where nothing goes wrong are in
-- Lifecycle/Formed, Created, Running, Scaled, Upgraded and Reports, in Repair/Anew and Reformed, and in
-- Sync/Creating, Scaling and Steady; what such surroundings
-- answer may still depend on the history, as the members of a cluster do.
--
-- Not modelled: the SPDY streams behind ExecToPodThroughAPI (a parameter), generated clients and
-- informers, HTTP and clients of the manager, the interleaving of the calls of two syncs (Workers
-- takes the end of a sync as one step), and logging. `NodeName` and `TargetRef` of an
-- endpoint address are taken to be set.
pub mod Base
pub mod Types
pub mod Text
pub mod Util
pub mod Outcome
pub mod Errors
pub mod World
pub mod Build
pub mod Commands
pub mod Status
pub mod Assign
pub mod Compose
pub mod Lifecycle
pub mod Repair
pub mod Sync
pub mod Workers
pub mod Manager
pub mod Samples
