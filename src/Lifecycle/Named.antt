-- ===== src/Lifecycle/Named.antt =====
-- The node ids that the loops of sync_rediscluster.go find for the IPs of instances.
use middleware_operator_mana.Base.{
  ◌≡◌, ◌≢◌, refl, sym, ap, ◌∙◌, ◌⊎◌, inl, inr, Bool-cases, true, false, List, [], ◌∷◌, String,
  str_eq, eq_iff, some, length, suc,
}
use middleware_operator_mana.Commands.{with_port}
use middleware_operator_mana.Commands.Matching.{strip_prefix-append}
use middleware_operator_mana.Lifecycle.Endpoints.{
  node_id_at, node_ids_of, node_id_containing, node_ids_containing,
}
use middleware_operator_mana.Text.{contains, strip_prefix}
use middleware_operator_mana.Types.{RedisNodeInfo}

-- The first line whose address is not passed over has the address of `ip` and the node id `id`.
abbrev pub Named : (String → Type 0) → String → String → List RedisNodeInfo → Type 0
Named passed ip id [] = ⊥
Named passed ip id (info ∷ infos) =
    ((info.ip_port ≡ with_port ip) × (info.node_id ≡ id))
    ⊎ (passed info.ip_port × Named passed ip id infos)

-- The same for each IP, with the ids in the order of the IPs.
abbrev pub AllNamed :
    (String → String → Type 0) → List String → List String → List RedisNodeInfo → Type 0
AllNamed passed [] [] infos = Unit
AllNamed passed (ip ∷ ips) (id ∷ ids) infos =
    Named (passed ip) ip id infos × AllNamed passed ips ids infos
AllNamed passed _ _ infos = ⊥

-- An address that is not that of `ip`.
abbrev pub Other : String → String → Type 0
Other ip address = address ≢ with_port ip

-- An address that does not contain `ip` anywhere, as that of `10.0.0.12` contains `10.0.0.1`.
abbrev pub Apart : String → String → Type 0
Apart ip address = contains address ip ≡ false

contains_prefix : (s p rest : String) → strip_prefix p s ≡ some rest → contains s p ≡ true
unfolding contains
contains_prefix String.[] p rest h = rw (h, contains) refl
contains_prefix (String.◌∷◌ c s) p rest h = rw (h, contains) refl

contains-with_port : (ip : String) → contains (with_port ip) ip ≡ true
contains-with_port ip = contains_prefix (with_port ip) ip ":6379" (strip_prefix-append ip ":6379")

node_id_at-Named :
    (ip id : String) (infos : List RedisNodeInfo)
    → Named (Other ip) ip id infos
    → node_id_at ip infos ≡ some id
unfolding node_id_at
node_id_at-Named ip id [] h = absurd h
node_id_at-Named ip id (info ∷ infos) (inl (at, named)) =
    rw ((eq_iff (with_port ip) info.ip_port).1 (sym at)) (ap some named)
node_id_at-Named ip id (info ∷ infos) (inr (other, h)) =
    elim (Bool-cases (str_eq (with_port ip) info.ip_port)) [
      | inl e ↦ absurd (other (sym ((eq_iff (with_port ip) info.ip_port).0 e)))
      | inr e ↦ rw e (node_id_at-Named ip id infos h)
    ]

pub node_ids_of-AllNamed :
    (ips ids : List String) (infos : List RedisNodeInfo)
    → AllNamed Other ips ids infos
    → node_ids_of ips infos ≡ ids
unfolding node_ids_of
node_ids_of-AllNamed [] [] infos h = refl
node_ids_of-AllNamed [] (_ ∷ _) infos h = absurd h
node_ids_of-AllNamed (_ ∷ _) [] infos h = absurd h
node_ids_of-AllNamed (ip ∷ ips) (id ∷ ids) infos h =
    rw (node_id_at-Named ip id infos h.0, node_ids_of)
      (ap (λ l. id ∷ l) (node_ids_of-AllNamed ips ids infos h.1))

node_id_containing-Named :
    (ip id : String) (infos : List RedisNodeInfo)
    → Named (Apart ip) ip id infos
    → node_id_containing ip infos ≡ some id
unfolding node_id_containing
node_id_containing-Named ip id [] h = absurd h
node_id_containing-Named ip id (info ∷ infos) (inl (at, named)) =
    rw (ap (λ a. contains a ip) at ∙ contains-with_port ip) (ap some named)
node_id_containing-Named ip id (info ∷ infos) (inr (apart, h)) =
    rw apart (node_id_containing-Named ip id infos h)

pub node_ids_containing-AllNamed :
    (ips ids : List String) (infos : List RedisNodeInfo)
    → AllNamed Apart ips ids infos
    → node_ids_containing ips infos ≡ ids
unfolding node_ids_containing
node_ids_containing-AllNamed [] [] infos h = refl
node_ids_containing-AllNamed [] (_ ∷ _) infos h = absurd h
node_ids_containing-AllNamed (_ ∷ _) [] infos h = absurd h
node_ids_containing-AllNamed (ip ∷ ips) (id ∷ ids) infos h =
    rw (node_id_containing-Named ip id infos h.0, node_ids_containing)
      (ap (λ l. id ∷ l) (node_ids_containing-AllNamed ips ids infos h.1))

pub AllNamed-length :
    (passed : String → String → Type 0) (ips ids : List String) (infos : List RedisNodeInfo)
    → AllNamed passed ips ids infos
    → length ids ≡ length ips
AllNamed-length passed [] [] infos h = refl
AllNamed-length passed [] (_ ∷ _) infos h = absurd h
AllNamed-length passed (_ ∷ _) [] infos h = absurd h
AllNamed-length passed (ip ∷ ips) (id ∷ ids) infos h =
    ap suc (AllNamed-length passed ips ids infos h.1)
