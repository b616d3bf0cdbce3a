-- ===== src/Samples/Calling.antt =====
-- The calls of a check, of an upgrade and of a sync in the surroundings of `Samples`.
use middleware_operator_mana.Base.{◌≡◌, refl, [], ◌∷◌, some}
use middleware_operator_mana.Build.{build_stateful_set, stateful_set, pod_labels, set_key}
use middleware_operator_mana.Commands.Quiet.{Looks, Tends}
use middleware_operator_mana.Errors.{strategy_type_error}
use middleware_operator_mana.Repair.Check.{check_and_update}
use middleware_operator_mana.Repair.Parts.{is_settled, may_be_settled}
use middleware_operator_mana.Samples.{printing, cluster_of, set_of, without_replicas}
use middleware_operator_mana.Sync.Calls.{
  check_and_update-settled, do_upgrade-rejected, Scales, do_upgrade-Scales, NoNewSet,
  handle-NoNewSet,
}
use middleware_operator_mana.Sync.Core.{
  handle, upgrade_cluster, do_upgrade, handle_flag, strategy_error, sync, find_stateful_set,
  find_redis_cluster,
}
use middleware_operator_mana.Sync.Quiet.{WritesOurs, sync-WritesOurs}
use middleware_operator_mana.Sync.Written.{build_stateful_set-found}
use middleware_operator_mana.Types.{RedisCluster}
use middleware_operator_mana.Types.Phase
use middleware_operator_mana.Types.Template.{RedisClusterPodTemplateSpec}
use middleware_operator_mana.World.Emits.{Emits}

abbrev settled_cluster : RedisCluster
settled_cluster = record (cluster_of (some 0)) {
  status = record (cluster_of (some 0)).status { phase = Phase.running };
}

check_and_update-settled_example :
    Emits (Tends Looks) (check_and_update (printing "") settled_cluster)
unfolding is_settled may_be_settled
check_and_update-settled_example = check_and_update-settled (printing "") settled_cluster refl

do_upgrade-rejected_example :
    Emits (Tends Looks) (do_upgrade (printing "") "ns" "r" 6 (cluster_of (some 8)))
unfolding strategy_error
do_upgrade-rejected_example =
    do_upgrade-rejected (printing "") "ns" "r" 6 8 (cluster_of (some 8)) (strategy_type_error "")
      refl refl

do_upgrade-Scales_example : Emits Scales (do_upgrade (printing "") "ns" "r" 6 (cluster_of (some 8)))
do_upgrade-Scales_example = do_upgrade-Scales (printing "") "ns" "r" 6 (cluster_of (some 8))

handle-NoNewSet_example :
    Emits NoNewSet (handle (printing "") "ns" "r" (cluster_of (some 8)) (upgrade_cluster 6))
unfolding handle_flag
handle-NoNewSet_example =
    handle-NoNewSet (printing "") "ns" "r" (cluster_of (some 8)) (set_of 6) (upgrade_cluster 6) refl

sync-WritesOurs_example : Emits (WritesOurs "ns" "r") (sync without_replicas "ns" "r")
sync-WritesOurs_example = sync-WritesOurs without_replicas "ns" "r"

-- A template whose labels name another application.
abbrev pub template : RedisClusterPodTemplateSpec
template = record {
  configmap = "";
  monitor_image = "exporter";
  init_image = "init";
  middleware_image = "redis";
  volume_claim = "claim";
  env = [];
  annotations = [];
  labels = some (("app", "other") ∷ []);
  resources = "";
  affinity = "";
  update_strategy = "";
}

abbrev pub templated : RedisCluster
templated = record (cluster_of (some 6)) {
  spec = record (cluster_of (some 6)).spec { pod = template ∷ [] };
}

abbrev relabelled : RedisCluster
relabelled = record templated {
  spec = record templated.spec { pod = record template { labels = some (("app", "r") ∷ []) } ∷ [] };
}

build_stateful_set-found_example :
    (find_stateful_set templated (stateful_set templated "ns" "r" template ∷ set_of 6 ∷ [])
      ≡ some (stateful_set templated "ns" "r" template))
    × (find_redis_cluster (stateful_set templated "ns" "r" template) (templated ∷ [])
        ≡ some templated)
unfolding build_stateful_set pod_labels set_key
build_stateful_set-found_example =
    build_stateful_set-found templated (stateful_set templated "ns" "r" template, relabelled)
      (set_of 6 ∷ []) [] refl
