-- ===== src/Sync/Course.antt =====
-- The course of phases that one `sync` (redis_operator.go) takes a custom resource through.
use middleware_operator_mana.Base.{
  ℕ, ◌≤◌, ◌+◌, ◌≡◌, List, [], ◌∷◌, ◌++◌, String, str_eq, Bool, ◌||◌, if◌then◌else◌, length, arith,
}
use middleware_operator_mana.Errors.{ok, err, not_found, api}
use middleware_operator_mana.Repair.Course.{check_and_update-Climb}
use middleware_operator_mana.Sync.Core.{
  Handle, create_cluster, upgrade_cluster, check_cluster, nothing, handle, handle_flag, sync,
  get_stateful_set_for,
}
use middleware_operator_mana.Sync.Phases.{do_create-Climb, do_upgrade-Climb}
use middleware_operator_mana.Types.{RedisCluster}
use middleware_operator_mana.Types.Phase.{RedisClusterPhase}
use middleware_operator_mana.Types.Phase
use middleware_operator_mana.World.{Env, Event, Trace, cached_cluster}
use middleware_operator_mana.World.Ascends.{phases, Silent, peak, Ascends}
use middleware_operator_mana.World.Climbs.{Climb, Climb-pure, Climb-lifted, Climb-checked}
use middleware_operator_mana.World.Emits.{Emits, Emits-call, emits_rules}

abbrev ends : RedisClusterPhase → Bool
ends phase = str_eq phase Phase.running || str_eq phase Phase.failed

-- The place of a phase in the course of a decision of `sync`, and 0 where it has none.
abbrev pub place : Handle → RedisClusterPhase → ℕ
place (create_cluster exists) phase =
    if str_eq phase Phase.creating then 1 else if ends phase then 2 else 0
place (upgrade_cluster current) phase =
    if str_eq phase Phase.scaling
    then 1
    else if str_eq phase Phase.upgrading
    then 2
    else if ends phase
    then 3
    else 0
place check_cluster phase = if str_eq phase Phase.upgrading then 1 else if ends phase then 2 else 0
place nothing phase = 0

-- The same for all decisions together.
abbrev pub stage : RedisClusterPhase → ℕ
stage phase =
    if str_eq phase Phase.creating
    then 1
    else if str_eq phase Phase.scaling
    then 1
    else if str_eq phase Phase.upgrading
    then 2
    else if ends phase
    then 3
    else 0

stage-le : (phase : RedisClusterPhase) → stage phase ≤ 3
stage-le phase = ground arith

length-Ascends :
    (rank : RedisClusterPhase → ℕ) (lo : ℕ) (ps : List RedisClusterPhase)
    → Ascends rank lo ps
    → lo + length ps ≤ peak rank lo ps
length-Ascends rank lo [] h = omega arith
length-Ascends rank lo (p ∷ ps) h = omega (arith, length-Ascends rank lo ps h.1)

few : (ps : List RedisClusterPhase) → Ascends stage 0 ps → length ps ≤ 3
few [] h = omega arith
few (p ∷ ps) h =
    let most = length-Ascends stage 0 (p ∷ ps) h in let last = stage-le p in omega arith

module _ (env : Env) (namespace name : String) where
  handle-Climb :
      (rc : RedisCluster) (h : Handle) → Climb (place h) 0 (handle env namespace name rc h) (λ _. 3)
  unfolding handle
  handle-Climb rc (create_cluster exists) =
      do_create-Climb env (omega arith) (omega arith) namespace name exists rc (omega arith)
        (omega arith) (omega arith)
  handle-Climb rc (upgrade_cluster current) =
      do_upgrade-Climb env (omega arith) (omega arith) (omega arith) (omega arith) (omega arith)
        (omega arith) namespace name current rc
  handle-Climb rc check_cluster =
      check_and_update-Climb env (omega arith) (omega arith) (omega arith) (omega arith)
        (omega arith) rc
  handle-Climb rc nothing = Climb-pure _ _ (omega arith)

  -- In every surroundings the phases written while a decision is carried out follow its course, none
  -- twice and none out of order. To create: Creating, then Running or Failed. To upgrade: Scaling, then
  -- Upgrading, then Running or Failed. To check: Upgrading, then Running or Failed. Any may be left out,
  -- no other phase is written, and nothing is written behind Running or Failed.
  pub handle-Ascends :
      (rc : RedisCluster) (h : Handle) (t : Trace)
      → (calls : List Event) × ((handle env namespace name rc h t).1 ≡ calls ++ t)
        × Ascends (place h) 0 (phases calls)
  handle-Ascends rc h t = let run = (handle-Climb rc h).at t in (run.calls, run.added, run.ascends)

  staged-Climb :
      (rc : RedisCluster) (h : Handle) → Climb stage 0 (handle env namespace name rc h) (λ _. 3)
  unfolding handle
  staged-Climb rc (create_cluster exists) =
      do_create-Climb env (omega arith) (omega arith) namespace name exists rc (omega arith)
        (omega arith) (omega arith)
  staged-Climb rc (upgrade_cluster current) =
      do_upgrade-Climb env (omega arith) (omega arith) (omega arith) (omega arith) (omega arith)
        (omega arith) namespace name current rc
  staged-Climb rc check_cluster =
      check_and_update-Climb env (omega arith) (omega arith) (omega arith) (omega arith)
        (omega arith) rc
  staged-Climb rc nothing = Climb-pure _ _ (omega arith)

  found-Silent : (rc : RedisCluster) → Emits Silent (get_stateful_set_for env rc)
  unfolding get_stateful_set_for
  found-Silent rc = search emits_rules

  sync-Climb : Climb stage 0 (sync env namespace name) (λ _. 3)
  unfolding sync
  sync-Climb =
      Climb-checked _ _ _ _
        (Emits-call (cached_cluster namespace name) (λ t. env.cached_cluster t namespace name) tt)
        (λ e. Climb-pure (elim e [ not_found ↦ ok tt | other ↦ err (api other) ]) _ (omega arith))
        (λ rc.
          Climb-checked _ _ _ _ (found-Silent rc) (λ e. Climb-pure (err e) _ (omega arith))
            (λ sts. Climb-lifted (handle_flag rc sts) _ _ (λ h. staged-Climb rc h)))

  -- In every surroundings the phases that one `sync` writes are, in this order and none twice, Creating or
  -- Scaling, then Upgrading, then Running or Failed; any may be left out. So the status is written three
  -- times at most, and not again behind Running or Failed.
  pub sync-Ascends :
      (t : Trace)
      → (calls : List Event) × ((sync env namespace name t).1 ≡ calls ++ t)
        × Ascends stage 0 (phases calls)
        × (length (phases calls) ≤ 3)
  sync-Ascends t =
      let run = sync-Climb.at t in
      (run.calls, run.added, run.ascends, few (phases run.calls) run.ascends)
