-- ===== src/Sync/Calls.antt =====
-- The calls of the single decisions of `sync`.
use middleware_operator_mana.Base.{ℕ, ◌-◌, ◌≡◌, true, false, Option, some, String, arith}
use middleware_operator_mana.Commands.Quiet.{Looks, Grows, Tends, Looks-Grows}
use middleware_operator_mana.Errors.{Error}
use middleware_operator_mana.Lifecycle.Create.{create_and_init}
use middleware_operator_mana.Lifecycle.Quiet.{create_and_init-Emits, upgrade_redis_cluster-Emits}
use middleware_operator_mana.Lifecycle.Upgrade.{upgrade_redis_cluster}
use middleware_operator_mana.Outcome.{done, deref}
use middleware_operator_mana.Repair.Check.{check_and_update}
use middleware_operator_mana.Repair.Parts.{is_settled}
use middleware_operator_mana.Repair.Quiet.{check_and_update-Emits, report_state-Emits}
use middleware_operator_mana.Status.{update_redis_cluster_status}
use middleware_operator_mana.Status.Quiet.{update_redis_cluster_status-Emits}
use middleware_operator_mana.Sync.Core.{
  Handle, create_cluster, upgrade_cluster, check_cluster, nothing, create_objects, do_create,
  do_scale, do_upgrade, handle, handle_flag, strategy_error,
}
use middleware_operator_mana.Types.{Endpoints, RedisCluster}
use middleware_operator_mana.Types.Objects.{StatefulSet}
use middleware_operator_mana.Types.Phase.{RedisClusterPhase}
use middleware_operator_mana.World.{Env, Event, executed, created_service, created_stateful_set}
use middleware_operator_mana.World.Emits.{
  Emits, Emits-mono, Emits-pure, Emits-lifted, Emits-on_some, emits_rules,
}

-- The check and the repair of a cluster, in every surroundings, neither create a service or a stateful
-- set nor update a stateful set.
pub check_and_update-Tends :
    (env : Env) (rc : RedisCluster) → Emits (Tends (λ _. Unit {0})) (check_and_update env rc)
check_and_update-Tends env rc = check_and_update-Emits env (λ _. tt) rc

-- The check of a settled cluster runs no command but `cluster info`, `cluster nodes`, `redis-trib.rb
-- info` and `redis-trib.rb check`, and creates and updates no service or stateful set.
pub check_and_update-settled :
    (env : Env) (rc : RedisCluster)
    → is_settled rc ≡ done true
    → Emits (Tends Looks) (check_and_update env rc)
unfolding check_and_update
check_and_update-settled env rc h = rw h (report_state-Emits env (λ c l. l) rc)

-- An upgrade whose strategy fails the checks only looks: it runs no command but those four, and creates
-- and updates no service or stateful set.
pub do_upgrade-rejected :
    (env : Env) (namespace name : String) (current wanted : ℕ) (rc : RedisCluster) (e : Error)
    → rc.spec.replicas ≡ some wanted
    → strategy_error rc (wanted - current) ≡ some e
    → Emits (Tends Looks) (do_upgrade env namespace name current rc)
unfolding do_upgrade
do_upgrade-rejected env namespace name current wanted rc e w h =
    Emits-lifted (deref rc.spec.replicas) _ (λ n q.
      let same : n ≡ wanted = ground (arith, w, q) in
      Emits-on_some (strategy_error rc (n - current)) _ _ {a = e} (rw same h)
        (search (emits_rules, update_redis_cluster_status-Emits env {Allowed = Looks} (λ c l. l))))

-- Neither `redis-trib.rb create` nor a new object.
abbrev pub Scales : Event → Type 0
Scales (executed pod command) = Grows command
Scales (created_service service) = ⊥
Scales (created_stateful_set sts) = ⊥
Scales _ = Unit

Tends-Scales : (e : Event) → Tends Grows e → Scales e
Tends-Scales (executed pod command) h = h
Tends-Scales (created_service service) h = h
Tends-Scales (created_stateful_set sts) h = h
Tends-Scales _ h = tt

status-Scales :
    (env : Env) (rc : RedisCluster) (given : Option Endpoints) (phase : RedisClusterPhase)
    (reason : String)
    → Emits Scales (update_redis_cluster_status env rc given phase reason)
status-Scales env rc given phase reason =
    Emits-mono Tends-Scales
      (update_redis_cluster_status-Emits env Looks-Grows rc given phase reason)

upgraded-Scales :
    (env : Env) (rc : RedisCluster) (old : Endpoints)
    → Emits Scales (upgrade_redis_cluster env rc old)
upgraded-Scales env rc old =
    Emits-mono Tends-Scales (upgrade_redis_cluster-Emits env (λ c g. g) rc old)

-- An upgrade never forms a cluster anew: it runs no `redis-trib.rb create`, and creates no service and no
-- stateful set.
pub do_upgrade-Scales :
    (env : Env) (namespace name : String) (current : ℕ) (rc : RedisCluster)
    → Emits Scales (do_upgrade env namespace name current rc)
unfolding do_upgrade do_scale
do_upgrade-Scales env namespace name current rc =
    search (emits_rules, status-Scales, upgraded-Scales) depth 20

abbrev pub NoNewSet : Event → Type 0
NoNewSet (created_stateful_set sts) = ⊥
NoNewSet _ = Unit

Tends-NoNewSet : (e : Event) → Tends (λ _. Unit {0}) e → NoNewSet e
Tends-NoNewSet (created_stateful_set sts) h = h
Tends-NoNewSet _ h = tt

Scales-NoNewSet : (e : Event) → Scales e → NoNewSet e
Scales-NoNewSet (created_stateful_set sts) h = h
Scales-NoNewSet _ h = tt

created-NoNewSet : (env : Env) (rc : RedisCluster) → Emits NoNewSet (create_and_init env rc)
created-NoNewSet env rc = Emits-mono Tends-NoNewSet (create_and_init-Emits env (λ _. tt) rc)

status-NoNewSet :
    (env : Env) (rc : RedisCluster) (given : Option Endpoints) (phase : RedisClusterPhase)
    (reason : String)
    → Emits NoNewSet (update_redis_cluster_status env rc given phase reason)
status-NoNewSet env rc given phase reason =
    Emits-mono Scales-NoNewSet (status-Scales env rc given phase reason)

do_create-NoNewSet :
    (env : Env) (namespace name : String) (rc : RedisCluster)
    → Emits NoNewSet (do_create env namespace name true rc)
unfolding do_create create_objects
do_create-NoNewSet env namespace name rc =
    search (emits_rules, status-NoNewSet, created-NoNewSet) depth 20

-- Whatever `sync` decides for a custom resource whose stateful set was found, it creates no stateful
-- set.
pub handle-NoNewSet :
    (env : Env) (namespace name : String) (rc : RedisCluster) (sts : StatefulSet) (h : Handle)
    → handle_flag rc (some sts) ≡ done h
    → Emits NoNewSet (handle env namespace name rc h)
unfolding handle handle_flag
handle-NoNewSet env namespace name rc sts (create_cluster true) d =
    do_create-NoNewSet env namespace name rc
handle-NoNewSet env namespace name rc sts (create_cluster false) d = ground (arith, d)
handle-NoNewSet env namespace name rc sts (upgrade_cluster current) d =
    Emits-mono Scales-NoNewSet (do_upgrade-Scales env namespace name current rc)
handle-NoNewSet env namespace name rc sts check_cluster d =
    Emits-mono Tends-NoNewSet (check_and_update-Tends env rc)
handle-NoNewSet env namespace name rc sts nothing d = Emits-pure _
