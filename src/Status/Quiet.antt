-- ===== src/Status/Quiet.antt =====
-- Which calls the writes of the status make.
use middleware_operator_mana.Base.{ℕ, List, [], ◌∷◌, String, Option, none, some}
use middleware_operator_mana.Commands.Quiet.{
  Looks, Tends, Reads, Reads-Tends, exec_cluster_nodes-Emits,
}
use middleware_operator_mana.Errors.{ok, Command}
use middleware_operator_mana.Status.{
  with_replicas, running_status, temp_status, write_status, update_redis_cluster_status,
}
use middleware_operator_mana.Status.Conditions.{
  no_instance, instance_at, condition_of, conditions_from, build_conditions,
}
use middleware_operator_mana.Types.{
  EndpointAddress, Endpoints, Node, ObjectReference, RedisCluster, RedisClusterCondition,
  RedisClusterStatus, RedisNodeInfo,
}
use middleware_operator_mana.Types.Phase.{RedisClusterPhase}
use middleware_operator_mana.World.{Env, Event, executed, looked_at_clock, M, ◌>>=◌, pure, call}
use middleware_operator_mana.World.Emits.{
  Emits, Emits-pure, Emits-call, Emits-bind, Emits-on_error, emits_rules,
}

pub Emits-option :
    {P : Event → Type 0} {A B : Type 0} (o : Option A) (m : M B) (f : A → M B)
    → Emits P m
    → ((a : A) → Emits P (f a))
    → Emits P (elim o [ none ↦ m | some a ↦ f a ])
Emits-option none m f km kf = km
Emits-option (some a) m f km kf = kf a

module _ (env : Env) {P : Event → Type 0}
    (look : (pod : ObjectReference) (command : Command) → Looks command → P (executed pod command))
    (reads : (e : Event) → Reads e → P e) where
  conditions_from-Emits :
      (nodes : List Node) (endpoints : Endpoints) (addresses : List EndpointAddress)
      (infos : List RedisNodeInfo)
      → Emits P (conditions_from env nodes endpoints addresses infos)
  unfolding conditions_from
  conditions_from-Emits nodes endpoints addresses [] = search emits_rules
  conditions_from-Emits nodes endpoints addresses (info ∷ infos) =
      let rest = conditions_from-Emits nodes endpoints addresses infos in
      let line : ℕ → RedisClusterCondition = λ now.
        condition_of (instance_at no_instance nodes endpoints info.ip_port addresses) now info in
      Emits-bind (call looked_at_clock (λ t. env.clock t))
        (λ now.
          conditions_from env nodes endpoints addresses infos
          >>= (λ found. pure (line now ∷ found)))
        (Emits-call _ _ (reads _ tt))
        (λ now.
          Emits-bind (conditions_from env nodes endpoints addresses infos)
            (λ found. pure (line now ∷ found)) rest (λ found. Emits-pure (line now ∷ found)))

  build_conditions-Emits : (endpoints : Endpoints) → Emits P (build_conditions env endpoints)
  unfolding build_conditions
  build_conditions-Emits endpoints = Emits-option endpoints.subsets _ _ (Emits-pure _) (λ subsets.
      search (emits_rules, reads, exec_cluster_nodes-Emits env {P = P} look, conditions_from-Emits)
        depth 16)

  with_replicas-Emits :
      (rc : RedisCluster) (status : ℕ → RedisClusterStatus) → Emits P (with_replicas env rc status)
  unfolding with_replicas
  with_replicas-Emits rc status = search (emits_rules, reads) depth 12

  running_status-Emits :
      (rc : RedisCluster) (given : Option Endpoints) (reason : String)
      → Emits P (running_status env rc given reason)
  unfolding running_status
  running_status-Emits rc given reason =
      Emits-bind _ _
        (Emits-option given _ _ (Emits-call _ _ (reads _ tt))
          (λ endpoints. Emits-pure (ok endpoints)))
        (λ fetched.
          Emits-on_error fetched _ _ (λ e. Emits-pure _)
            (λ endpoints.
              Emits-option endpoints.subsets _ _ (Emits-pure _)
                (λ subsets. search (emits_rules, reads, build_conditions-Emits) depth 16)))

  pub temp_status-Emits :
      (rc : RedisCluster) (given : Option Endpoints) (phase : RedisClusterPhase) (reason : String)
      → Emits P (temp_status env rc given phase reason)
  unfolding temp_status
  temp_status-Emits rc given phase reason =
      search (emits_rules, with_replicas-Emits, running_status-Emits) depth 12

module _ (env : Env) {Allowed : Command → Type 0}
    (looks : (c : Command) → Looks c → Allowed c) where
  abbrev look : (pod : ObjectReference) (c : Command) → Looks c → Tends Allowed (executed pod c)
  look pod c h = looks c h

  write_status-Emits :
      (rc : RedisCluster) (phase : RedisClusterPhase) (temp : RedisClusterStatus)
      → Emits (Tends Allowed) (write_status env rc phase temp)
  unfolding write_status
  write_status-Emits rc phase temp = search emits_rules

  pub update_redis_cluster_status-Emits :
      (rc : RedisCluster) (given : Option Endpoints) (phase : RedisClusterPhase) (reason : String)
      → Emits (Tends Allowed) (update_redis_cluster_status env rc given phase reason)
  unfolding update_redis_cluster_status
  update_redis_cluster_status-Emits rc given phase reason = search (
    emits_rules,
    temp_status-Emits env {P = Tends Allowed} look (Reads-Tends Allowed),
    write_status-Emits,
  )
