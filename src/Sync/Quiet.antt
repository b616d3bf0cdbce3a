-- ===== src/Sync/Quiet.antt =====
-- Which calls `sync` makes.
use middleware_operator_mana.Base.{ℕ, ◌≡◌, refl, Bool, [], ◌∷◌, String, Option}
use middleware_operator_mana.Commands.Quiet.{Tends}
use middleware_operator_mana.Build.{build_stateful_set, build_service}
use middleware_operator_mana.Lifecycle.Create.{create_and_init}
use middleware_operator_mana.Lifecycle.Upgrade.{upgrade_redis_cluster}
use middleware_operator_mana.Lifecycle.Quiet.{create_and_init-Emits, upgrade_redis_cluster-Emits}
use middleware_operator_mana.Repair.Quiet.{check_and_update-Emits}
use middleware_operator_mana.Status.{update_redis_cluster_status}
use middleware_operator_mana.Status.Quiet.{update_redis_cluster_status-Emits}
use middleware_operator_mana.Sync.Core.{
  Handle, create_cluster, upgrade_cluster, check_cluster, nothing, get_stateful_set_for,
  create_objects, do_create, do_scale, do_upgrade, handle, sync,
}
use middleware_operator_mana.Sync.Written.{Ours, build_stateful_set-Ours}
use middleware_operator_mana.Types.{Endpoints, RedisCluster}
use middleware_operator_mana.Types.Phase.{RedisClusterPhase}
use middleware_operator_mana.Types.Objects.{StatefulSet}
use middleware_operator_mana.World.{
  Env, Event, created_service, created_stateful_set, updated_stateful_set, dropped_cluster, M,
  ◌>>=◌, lift,
}
use middleware_operator_mana.World.Emits.{Emits, Emits-mono, Emits-pure, Emits-lifted, emits_rules}

-- A service or a set that is written is the one of this key.
abbrev pub WritesOurs : (namespace name : String) → Event → Type 0
WritesOurs namespace name (created_service service) =
    (service.meta.namespace ≡ namespace)
    × (service.meta.name ≡ name)
    × (service.selector ≡ ("app", name) ∷ [])
WritesOurs namespace name (created_stateful_set sts) = Ours namespace name sts
WritesOurs namespace name (updated_stateful_set sts) = Ours namespace name sts
WritesOurs namespace name (dropped_cluster namespace' name') = ⊥
WritesOurs namespace name _ = Unit

Tends-WritesOurs :
    (namespace name : String) (e : Event) → Tends (λ _. Unit {0}) e → WritesOurs namespace name e
Tends-WritesOurs namespace name (created_service service) h = absurd h
Tends-WritesOurs namespace name (created_stateful_set sts) h = absurd h
Tends-WritesOurs namespace name (updated_stateful_set sts) h = absurd h
Tends-WritesOurs namespace name (dropped_cluster namespace' name') h = h
Tends-WritesOurs namespace name _ h = tt

module _ (env : Env) (namespace name : String) where
  ours :
      {A : Type 0} {m : M A} → Emits (Tends (λ _. Unit {0})) m → Emits (WritesOurs namespace name) m
  ours k = Emits-mono (Tends-WritesOurs namespace name) k

  service-ours :
      (rc : RedisCluster)
      → WritesOurs namespace name (created_service (build_service rc namespace name))
  unfolding build_service
  service-ours rc = (refl, refl, refl)

  -- What comes after the set was built may rely on whose it is.
  built-Emits :
      {A : Type 0} (rc : RedisCluster) (f : StatefulSet × RedisCluster → M A)
      → ((built : StatefulSet × RedisCluster)
          → Ours namespace name built.0
          → Emits (WritesOurs namespace name) (f built))
      → Emits (WritesOurs namespace name) (lift (build_stateful_set namespace name rc) >>= f)
  built-Emits rc f k =
      Emits-lifted (build_stateful_set namespace name rc) f
        (λ built h. k built (build_stateful_set-Ours namespace name rc built h))

  status-ours :
      (rc : RedisCluster) (given : Option Endpoints) (phase : RedisClusterPhase) (reason : String)
      → Emits (WritesOurs namespace name) (update_redis_cluster_status env rc given phase reason)
  status-ours rc given phase reason =
      ours (update_redis_cluster_status-Emits env (λ _ _. tt) rc given phase reason)

  created-ours : (rc : RedisCluster) → Emits (WritesOurs namespace name) (create_and_init env rc)
  created-ours rc = ours (create_and_init-Emits env (λ _. tt) rc)

  upgraded-ours :
      (rc : RedisCluster) (old : Endpoints)
      → Emits (WritesOurs namespace name) (upgrade_redis_cluster env rc old)
  upgraded-ours rc old = ours (upgrade_redis_cluster-Emits env (λ _ _. tt) rc old)

  create_objects-Emits :
      (exists : Bool) (rc : RedisCluster)
      → Emits (WritesOurs namespace name) (create_objects env namespace name exists rc)
  unfolding create_objects
  create_objects-Emits exists rc =
      search (built-Emits, emits_rules, service-ours, created-ours) depth 16

  do_scale-Emits :
      (rc : RedisCluster) → Emits (WritesOurs namespace name) (do_scale env namespace name rc)
  unfolding do_scale
  do_scale-Emits rc = search (built-Emits, emits_rules, status-ours, upgraded-ours) depth 16

  do_create-Emits :
      (exists : Bool) (rc : RedisCluster)
      → Emits (WritesOurs namespace name) (do_create env namespace name exists rc)
  unfolding do_create
  do_create-Emits exists rc = search (emits_rules, status-ours, create_objects-Emits) depth 12

  do_upgrade-Emits :
      (current : ℕ) (rc : RedisCluster)
      → Emits (WritesOurs namespace name) (do_upgrade env namespace name current rc)
  unfolding do_upgrade
  do_upgrade-Emits current rc = search (emits_rules, status-ours, do_scale-Emits) depth 12

  handle-Emits :
      (rc : RedisCluster) (h : Handle)
      → Emits (WritesOurs namespace name) (handle env namespace name rc h)
  unfolding handle
  handle-Emits rc (create_cluster exists) = do_create-Emits exists rc
  handle-Emits rc (upgrade_cluster current) = do_upgrade-Emits current rc
  handle-Emits rc check_cluster = ours (check_and_update-Emits env (λ _. tt) rc)
  handle-Emits rc nothing = Emits-pure _

  found-Emits :
      (rc : RedisCluster) → Emits (WritesOurs namespace name) (get_stateful_set_for env rc)
  unfolding get_stateful_set_for
  found-Emits rc = search emits_rules

  -- In every surroundings, each service that `sync` creates carries the name and the namespace of the
  -- key, and selects the pods labelled with that name; each stateful set that it creates or updates
  -- carries them too, is annotated as the set of the custom resource of that name, and selects the pods
  -- that its own template makes, whatever labels the custom resource gives them. No custom resource is
  -- deleted.
  pub sync-WritesOurs : Emits (WritesOurs namespace name) (sync env namespace name)
  unfolding sync
  sync-WritesOurs = search (emits_rules, found-Emits, handle-Emits) depth 12
