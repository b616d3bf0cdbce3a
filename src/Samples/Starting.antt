-- ===== src/Samples/Starting.antt =====
-- Runs of the manager: the default options, and an election that is won.
use middleware_operator_mana.Base.{◌≡◌, ◌↔◌, ◌⊎◌, Mem, true, false, String, [], ◌∷◌, none, some}
use middleware_operator_mana.Errors.{err, already_exists}
use middleware_operator_mana.Manager.Enabled.{
  is_operator_enabled, NamedFirst, Unnamed, is_operator_enabled_iff,
}
use middleware_operator_mana.Manager.Options.{OperatorManagerServer, set_leader_elect, server_of}
use middleware_operator_mana.Manager.Start.{Machine, lead}

is_operator_enabled_iff_example :
    (is_operator_enabled "rediscluster" ("*" ∷ "-rediscluster" ∷ []) ≡ true) ↔ (
      NamedFirst "rediscluster" ("*" ∷ "-rediscluster" ∷ [])
      ⊎ (Unnamed "rediscluster" ("*" ∷ "-rediscluster" ∷ [])
          × Mem {A = String} "*" ("*" ∷ "-rediscluster" ∷ [])))
is_operator_enabled_iff_example =
    is_operator_enabled_iff "rediscluster" ("*" ∷ "-rediscluster" ∷ [])

abbrev electing : OperatorManagerServer
electing = server_of (set_leader_elect true ∷ [])

-- The definition is there, and the lease is won and kept.
abbrev leading : Machine
leading = record {
  client_config = none;
  clients = none;
  crd = λ crd. err already_exists;
  hostname = none;
  lock = none;
  lead = some false;
  message = λ e. "failed";
}
