-- ===== src/World.antt =====
-- The operator's surroundings: the API server, the listers' caches, the pods it runs commands in, the
-- timer of `wait.Poll`, the clock and `fmt`. Each is a function of the history of the calls made so
-- far, so any deterministic surroundings fit, and a theorem holds of all.
pub mod Emits
pub mod Gives
pub mod Ascends
pub mod Climbs
use middleware_operator_mana.Base.{ℕ, zero, suc, List, [], ◌∷◌, String, Option, none, some}
use middleware_operator_mana.Errors.{
  Result, ok, err, ApiError, Error, Command, ExecReply, wait_timeout,
}
use middleware_operator_mana.Outcome.{Outcome, done, panic, diverge}
use middleware_operator_mana.Types.{Endpoints, Node, ObjectReference, RedisCluster}
use middleware_operator_mana.Types.Objects.{Service, StatefulSet}

-- A call that leaves the operator.
pub data Event : Type 0 where
  executed : ObjectReference → Command → Event
  got_endpoints : (namespace name : String) → Event
  got_stateful_set : (namespace name : String) → Event
  listed_nodes : Event
  updated_cluster : RedisCluster → Event
  created_service : Service → Event
  created_stateful_set : StatefulSet → Event
  updated_stateful_set : StatefulSet → Event
  -- A custom resource is deleted, in the foreground.
  dropped_cluster : (namespace name : String) → Event
  -- Reads of the informers' caches.
  cached_cluster : (namespace name : String) → Event
  cached_stateful_set : (namespace name : String) → Event
  cached_stateful_sets : (namespace : String) → Event
  looked_at_clock : Event

-- The calls made so far, the latest first.
abbrev pub Trace : Type 0
Trace = List Event

pub record Env : Type 0 where
  pub exec : Trace → ObjectReference → Command → ExecReply
  pub get_endpoints : Trace → String → String → Result ApiError Endpoints
  pub get_stateful_set : Trace → String → String → Result ApiError StatefulSet
  pub list_nodes : Trace → Result ApiError (List Node)
  -- The object as the server stored it.
  pub update_cluster : Trace → RedisCluster → Result ApiError RedisCluster
  pub create_service : Trace → Service → Result ApiError Service
  pub create_stateful_set : Trace → StatefulSet → Result ApiError StatefulSet
  pub update_stateful_set : Trace → StatefulSet → Result ApiError StatefulSet
  pub delete_cluster : Trace → String → String → Result ApiError (Unit {0})
  pub cached_cluster : Trace → String → String → Result ApiError RedisCluster
  pub cached_stateful_set : Trace → String → String → Result ApiError StatefulSet
  pub cached_stateful_sets : Trace → String → Result ApiError (List StatefulSet)
  -- How often the timer of a `wait.Poll` ticks before its timeout.
  pub ticks : Trace → ℕ
  pub clock : Trace → ℕ
  -- `err.Error()`.
  pub message : Error → String

-- A computation that may call out, and panic.
abbrev pub M : Type 0 → Type 0
M A = Trace → Outcome A × Trace

module _ {A B : Type 0} where
  abbrev pub and_then : Outcome A × Trace → (A → M B) → Outcome B × Trace
  and_then (done a, t) f = f a t
  and_then (panic, t) f = (panic, t)
  and_then (diverge, t) f = (diverge, t)

  infixl 5 ◌>>=◌
  abbrev pub ◌>>=◌ : M A → (A → M B) → M B
  ◌>>=◌ m f t = and_then (m t) f

module _ {A : Type 0} where
  abbrev pub pure : A → M A
  pure a t = (done a, t)

  -- A part of the code that makes no calls.
  abbrev pub lift : Outcome A → M A
  lift o t = (o, t)

  -- A call, and the answer of the surroundings.
  abbrev pub call : Event → (Trace → A) → M A
  call e answer t = (done (answer t), e ∷ t)

-- `if err != nil { … }` behind a call.
abbrev pub on_error : {E A B : Type 0} → Result E A → (E → M B) → (A → M B) → M B
on_error (ok a) handler rest = rest a
on_error (err e) handler rest = handler e

-- A test whether a pointer or a slice is nil, or a slice empty.
abbrev pub on_option : {A B : Type 0} → Option A → M B → (A → M B) → M B
on_option none absent rest = absent
on_option (some a) absent rest = rest a

abbrev pub on_list : {A B : Type 0} → List A → M B → (A → List A → M B) → M B
on_list [] absent rest = absent
on_list (a ∷ others) absent rest = rest a others

-- `wait.Poll`: the condition is tried at each tick, and once more when the timer is closed; it stops
-- at its first success and its first error.
unfoldable pub poll_rounds : {A : Type 0} → ℕ → M (Result Error (Option A)) → M (Result Error A)
poll_rounds zero condition = do
  r ← condition
  pure
      (elim r [ err e ↦ err e | ok found ↦ elim found [ some a ↦ ok a | none ↦ err wait_timeout ] ])
poll_rounds (suc n) condition = do
  r ← condition
  elim r [
    | err e ↦ pure (err e)
    | ok found ↦ elim found [ some a ↦ pure (ok a) | none ↦ poll_rounds n condition ]
  ]

module _ (env : Env) where
  unfoldable pub poll : {A : Type 0} → M (Result Error (Option A)) → M (Result Error A)
  unfolding poll_rounds
  poll condition t = poll_rounds (env.ticks t) condition t
