-- ===== src/Manager/Options.antt =====
-- cmd/operator-manager/app/options/options.go and config: the options of the manager and their defaults.
-- Durations are counted in seconds.
use middleware_operator_mana.Base.{ℕ, Bool, true, false, List, [], ◌∷◌, String}

pub record LeaderElectionConfiguration : Type 0 where
  pub leader_elect : Bool
  pub lease_duration : ℕ
  pub renew_deadline : ℕ
  pub retry_period : ℕ
  pub resource_lock : String

-- `DefaultLeaderElectionConfiguration`; `EndpointsResourceLock` is client-go's.
abbrev pub default_leader_election : LeaderElectionConfiguration
default_leader_election = record {
  leader_elect = false;
  lease_duration = 15;
  renew_deadline = 10;
  retry_period = 2;
  resource_lock = "endpoints";
}

-- `OperatorManagerServer`, with the embedded `OperatorManagerConfig`.
pub record OperatorManagerServer : Type 0 where
  pub operators : List String
  pub concurrent_redis_cluster_syncs : ℕ
  pub cluster_time_out : ℕ
  pub controller_start_interval : ℕ
  pub resync_period : ℕ
  pub leader_election : LeaderElectionConfiguration
  pub port : ℕ
  pub address : String
  pub enable_profiling : Bool
  pub content_type : String
  pub kube_api_qps : ℕ
  pub kube_api_burst : ℕ
  pub master : String
  pub kubeconfig : String

abbrev pub operator_manager_port : ℕ
operator_manager_port = 10880

-- `NewOMServer`
unfoldable pub new_om_server : OperatorManagerServer
new_om_server = record {
  operators = "*" ∷ [];
  concurrent_redis_cluster_syncs = 1;
  cluster_time_out = 20;
  controller_start_interval = 0;
  resync_period = 60;
  leader_election = default_leader_election;
  port = operator_manager_port;
  address = "0.0.0.0";
  enable_profiling = true;
  content_type = "";
  kube_api_qps = 20;
  kube_api_burst = 30;
  master = "";
  kubeconfig = "";
}

-- A flag of the command line, with its value.
pub data Flag : Type 0 where
  -- All occurrences of the flag taken together.
  set_operators : List String → Flag
  set_master set_kubeconfig : String → Flag
  set_resync_period set_cluster_time_out set_port set_start_interval : ℕ → Flag
  set_leader_elect : Bool → Flag
  set_lease_duration set_renew_deadline set_retry_period : ℕ → Flag
  set_resource_lock : String → Flag

-- `AddFlags`: three of the flags come with defaults of their own, which replace what the server held.
unfoldable pub add_flags : OperatorManagerServer → OperatorManagerServer
add_flags s = record s { resync_period = 60; cluster_time_out = 20; port = 10880 }

-- The variable that each flag of `AddFlags` and `BindFlags` is bound to.
unfoldable pub set_flag : Flag → OperatorManagerServer → OperatorManagerServer
set_flag (set_operators names) s = record s { operators = names }
set_flag (set_master url) s = record s { master = url }
set_flag (set_kubeconfig path) s = record s { kubeconfig = path }
set_flag (set_resync_period n) s = record s { resync_period = n }
set_flag (set_cluster_time_out n) s = record s { cluster_time_out = n }
set_flag (set_port n) s = record s { port = n }
set_flag (set_start_interval n) s = record s { controller_start_interval = n }
set_flag (set_leader_elect b) s = record s {
  leader_election = record s.leader_election { leader_elect = b };
}
set_flag (set_lease_duration n) s = record s {
  leader_election = record s.leader_election { lease_duration = n };
}
set_flag (set_renew_deadline n) s = record s {
  leader_election = record s.leader_election { renew_deadline = n };
}
set_flag (set_retry_period n) s = record s {
  leader_election = record s.leader_election { retry_period = n };
}
set_flag (set_resource_lock name) s = record s {
  leader_election = record s.leader_election { resource_lock = name };
}

-- `main`: the defaults, then the flags of the command line in order.
unfoldable pub parse_flags : List Flag → OperatorManagerServer → OperatorManagerServer
unfolding set_flag
parse_flags [] s = s
parse_flags (flag ∷ flags) s = parse_flags flags (set_flag flag s)

unfoldable pub server_of : List Flag → OperatorManagerServer
unfolding new_om_server add_flags parse_flags
server_of flags = parse_flags flags (add_flags new_om_server)
