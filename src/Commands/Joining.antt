-- ===== src/Commands/Joining.antt =====
-- `addMasterNodeToRedisCluster` and `addSlaveToClusterMaster` (sync_rediscluster.go): which commands
-- they run, and in which order, while all goes well.
use middleware_operator_mana.Base.{
  suc, ◌≡◌, ◌≢◌, refl, subst, ◌⊎◌, inl, inr, false, Bool-cases, List, [], ◌∷◌, String, some, length,
  ◌==◌, ==_iff, get_elem?, Nat-cases,
}
use middleware_operator_mana.Commands.{
  has_failed, run_command, do_command, wait_redis_status_ok, add_slaves,
  add_slave_to_cluster_master, add_master_node_to_redis_cluster,
}
use middleware_operator_mana.Commands.Waiting.{checked, wait-checks}
use middleware_operator_mana.Errors.{
  ok, err, Command, trib_check, add_slave, add_master, lengths_differ,
}
use middleware_operator_mana.Outcome.{done}
use middleware_operator_mana.Text.{contains}
use middleware_operator_mana.Types.{ObjectReference}
use middleware_operator_mana.World.{Env, executed, Trace}

-- No command fails in the pod, and no output has an error.
abbrev pub Calm : Env → ObjectReference → Type 0
Calm env pod =
    (t : Trace) (command : Command)
    → (has_failed (env.exec t pod command) ≡ false)
      × (contains (env.exec t pod command).stdout "[ERR]" ≡ false)

-- A check through `first`, then the slave joins, for each slave with its master and the master's id.
abbrev pub slave_calls :
    ObjectReference → String → List String → List String → List String → Trace → Trace
slave_calls pod first (slave ∷ slaves) (master ∷ masters) (node_id ∷ node_ids) t =
    slave_calls pod first slaves masters node_ids
      (executed pod (add_slave node_id slave master) ∷ executed pod (trib_check first) ∷ t)
slave_calls pod first _ _ _ t = t

-- A check through `exist_ip`, then the master joins, for each master.
abbrev pub master_calls : ObjectReference → String → List String → Trace → Trace
master_calls pod exist_ip [] t = t
master_calls pod exist_ip (ip ∷ ips) t =
    master_calls pod exist_ip ips
      (executed pod (add_master ip exist_ip) ∷ executed pod (trib_check exist_ip) ∷ t)

module _ (env : Env) (pod : ObjectReference) (calm : Calm env pod) where
  pub wait_calm :
      (ip : String) (t : Trace)
      → wait_redis_status_ok env ip pod t ≡ (done (ok tt), executed pod (trib_check ip) ∷ t)
  wait_calm ip t =
      let (k, bound, earlier, ending) = wait-checks env ip pod t in
      elim (Nat-cases k) [
        | inr p ↦
            let (_, found) = earlier 0 p in
            let (_, clean) = calm t (trib_check ip) in absurd (cc (found, clean))
        | inl z ↦ elim ending [
          | inl (r, _) ↦
              subst
                (λ n.
                  wait_redis_status_ok env ip pod t ≡ (done (ok tt), checked env ip pod (suc n) t))
                z r
          | inr (e, r, inl f) ↦
              let (sound, _) = calm (checked env ip pod k t) (trib_check ip) in
              absurd (cc (f, sound))
          | inr (e, r, inr (_, (_, found))) ↦
              let (_, clean) = calm (checked env ip pod k t) (trib_check ip) in
              absurd (cc (found, clean))
        ]
      ]

  pub do_calm :
      (command : Command) (t : Trace)
      → do_command env pod command t ≡ (done (ok tt), executed pod command ∷ t)
  unfolding do_command run_command
  do_calm command t = let (sound, _) = calm t command in rw sound refl

  add_slaves_calm :
      (first : String) (all slaves masters node_ids : List String) (t : Trace)
      → get_elem? all 0 ≡ some first
      → add_slaves env all slaves masters node_ids pod t
        ≡ (done (ok tt), slave_calls pod first slaves masters node_ids t)
  unfolding add_slaves
  add_slaves_calm first all [] masters node_ids t h = refl
  add_slaves_calm first all (s ∷ slaves) [] node_ids t h = refl
  add_slaves_calm first all (s ∷ slaves) (m ∷ masters) [] t h = refl
  add_slaves_calm first all (s ∷ slaves) (m ∷ masters) (n ∷ node_ids) t h =
      rw (h, wait_calm first t, do_calm (add_slave n s m) (executed pod (trib_check first) ∷ t))
        (add_slaves_calm first all slaves masters node_ids _ h)

  -- While no command fails and no check finds errors, all masters join in their order, each by one
  -- command behind one check, and nothing else is run.
  pub add_master-calls :
      (ips : List String) (exist_ip : String) (t : Trace)
      → add_master_node_to_redis_cluster env ips exist_ip pod t
        ≡ (done (ok tt), master_calls pod exist_ip ips t)
  unfolding add_master_node_to_redis_cluster
  add_master-calls [] exist_ip t = refl
  add_master-calls (ip ∷ ips) exist_ip t =
      rw
        (
          wait_calm exist_ip t,
          do_calm (add_master ip exist_ip) (executed pod (trib_check exist_ip) ∷ t),
        )
        (add_master-calls ips exist_ip _)

  -- While no command fails and no check finds errors: lists of one length make every slave join its
  -- master, in their order, each by one command behind one check through the first master; lists of
  -- different lengths are an error, and nothing is run.
  pub add_slave-calls :
      (first : String) (slaves rest node_ids : List String) (t : Trace)
      → ((length slaves ≡ length (first ∷ rest))
          × (length (first ∷ rest) ≡ length node_ids)
          × (add_slave_to_cluster_master env slaves (first ∷ rest) node_ids pod t
              ≡ (done (ok tt), slave_calls pod first slaves (first ∷ rest) node_ids t)))
        ⊎ (((length slaves ≢ length (first ∷ rest)) ⊎ (length (first ∷ rest) ≢ length node_ids))
            × (add_slave_to_cluster_master env slaves (first ∷ rest) node_ids pod t
                ≡ (done (err (lengths_differ slaves (first ∷ rest) node_ids)), t)))
  unfolding add_slave_to_cluster_master
  add_slave-calls first slaves rest node_ids t =
      let masters = first ∷ rest in
      let same = ==_iff (length slaves) (length masters) in
      let ids = ==_iff (length masters) (length node_ids) in
      elim (Bool-cases (length slaves == length masters)) [
        | inr e ↦ inr (inl (λ h. cc (e, same.1 h)), rw e refl)
        | inl e ↦ elim (Bool-cases (length masters == length node_ids)) [
          | inr f ↦ inr (inr (λ h. cc (f, ids.1 h)), rw (e, f) refl)
          | inl f ↦ inl (
            same.0 e,
            ids.0 f,
            rw (e, f) (add_slaves_calm first masters slaves masters node_ids t refl),
          )
        ]
      ]
