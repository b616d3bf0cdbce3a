-- ===== src/Samples.antt =====
-- Small inputs: six pods on three nodes, a pod that joins a cluster, surroundings, a work queue. The
-- theorems on them are instances of the library's, at inputs where their hypotheses hold.
pub mod Planning
pub mod Syncing
pub mod Joining
pub mod Forming
pub mod Working
pub mod Calling
pub mod Starting
pub mod Streaming
pub mod Composing
pub mod Creating
pub mod Growing
pub mod Staying
pub mod Repairing
pub mod Reading
use middleware_operator_mana.Base.{
  ℕ, suc, List, [], ◌∷◌, String, str_eq, eq_iff, Option, none, some, ◌≡◌, ◌≢◌, refl, Bool, true,
  false, if◌then◌else◌,
}
use middleware_operator_mana.Errors.{Result, ok, err, ApiError, other_api, not_found, ExecReply}
use middleware_operator_mana.Status.{no_cluster}
use middleware_operator_mana.Sync.Queue.{WorkQueue}
use middleware_operator_mana.Types.{
  EndpointAddress, ObjectReference, RedisCluster, RedisClusterSpec, RedisClusterUpdateStrategy,
}
use middleware_operator_mana.Types.Objects.{StatefulSet}
use middleware_operator_mana.World.{Env}

abbrev pub pod : String → String → String → EndpointAddress
pod name ip node = record {
  ip = ip;
  node_name = node;
  target = record { name = name; namespace = "ns" };
}

abbrev pub six_pods : List EndpointAddress
six_pods =
    pod "r-0" "10.0.0.1" "a"
    ∷ pod "r-1" "10.0.0.2" "a"
    ∷ pod "r-2" "10.0.0.3" "b"
    ∷ pod "r-3" "10.0.0.4" "b"
    ∷ pod "r-4" "10.0.0.5" "c"
    ∷ pod "r-5" "10.0.0.6" "c"
    ∷ []

-- Of the six, the masters and the slaves of a cluster that the sixth, or the last two, have yet to join.
abbrev pub two_masters : List String
two_masters = "10.0.0.1" ∷ "10.0.0.3" ∷ []

abbrev pub two_slaves : List String
two_slaves = "10.0.0.2" ∷ "10.0.0.4" ∷ []

abbrev pub three_slaves : List String
three_slaves = "10.0.0.2" ∷ "10.0.0.4" ∷ "10.0.0.6" ∷ []

abbrev pub two_pairs : List (String × String)
two_pairs = ("10.0.0.1", "10.0.0.4") ∷ ("10.0.0.3", "10.0.0.2") ∷ []

pub not-blank : (ip : String) → str_eq ip "" ≡ false → ip ≢ ""
not-blank ip h e = cc (h, (eq_iff ip "").1 e)

-- Surroundings in which each command prints `stdout`, and the API server knows nothing.
abbrev pub printing : String → Env
printing stdout = record {
  exec = λ t pod command. record { stdout = stdout; stderr = ""; error = none };
  get_endpoints = λ t namespace name. err not_found;
  get_stateful_set = λ t namespace name. err not_found;
  list_nodes = λ t. err not_found;
  update_cluster = λ t rc. ok rc;
  create_service = λ t service. ok service;
  create_stateful_set = λ t sts. ok sts;
  update_stateful_set = λ t sts. ok sts;
  delete_cluster = λ t namespace name. ok tt;
  cached_cluster = λ t namespace name. err (other_api "down");
  cached_stateful_set = λ t namespace name. err not_found;
  cached_stateful_sets = λ t namespace. ok [];
  ticks = λ t. 3;
  clock = λ t. 0;
  message = λ e. "failed";
}

abbrev pub cluster_of : Option ℕ → RedisCluster
cluster_of replicas = record no_cluster {
  namespace = "ns";
  name = "r";
  spec = record no_cluster.spec { replicas = replicas };
}

-- The set of `cluster_of`, with `current` replicas.
abbrev pub set_of : ℕ → StatefulSet
set_of current = record {
  meta = record {
    name = "r";
    namespace = "ns";
    annotations = ("redis.middleware.hc.cn", "redisclusters-r") ∷ [];
    labels = [];
    owner_references = [];
  };
  resource_version = "1";
  deletion_timestamp = none;
  spec = record {
    update_strategy = "";
    replicas = some current;
    revision_history_limit = 10;
    match_labels = [];
    service_name = "r";
    template_labels = [];
    template_annotations = [];
    pod = record {
      containers = [];
      dns_policy = "";
      init_containers = [];
      restart_policy = "";
      affinity = "";
      volumes = [];
    };
  };
  status_replicas = current;
}

-- Surroundings whose caches hold a custom resource without replicas, and its set.
abbrev pub without_replicas : Env
without_replicas = record (printing "") {
  cached_cluster = λ t namespace name. ok (cluster_of none);
  cached_stateful_sets = λ t namespace. ok (set_of 6 ∷ []);
}

abbrev pub put : String → ℕ → (String → ℕ) → String → ℕ
put key n q j = if str_eq key j then n else q j

pub put-same : (key : String) (n : ℕ) (q : String → ℕ) → put key n q key ≡ n
put-same key n q = rw ((eq_iff key key).1 refl) refl

-- A work queue that keeps nothing but how often each key was requeued.
abbrev pub counting : WorkQueue
counting = record {
  Queue = String → ℕ;
  add = λ key q. q;
  add_rate_limited = λ key q. put key (suc (q key)) q;
  add_after = λ key duration q. q;
  forget = λ key q. put key 0 q;
  finish = λ key q. q;
  num_requeues = λ q key. q key;
  num_requeues-add_rate_limited = λ key q. put-same key (suc (q key)) q;
  num_requeues-forget = λ key q. put-same key 0 q;
  num_requeues-finish = λ key q. refl;
}
