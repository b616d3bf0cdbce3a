-- ===== src/Status/Nodes.antt =====
-- What `buildRedisClusterStatusConditions` (sync_rediscluster.go) says of each node of the cluster.
use mathlib.Core.List.{mem-cons, mem-cons_self, mem-cons_of_mem, not-mem-nil}
use mathlib.Core.HLevel.{⊥_prop}
use mathlib.Core.Logic.Or
use middleware_operator_mana.Base.{
  ℕ, ◌≡◌, ◌≢◌, refl, sym, ap, ◌∙◌, ◌⊎◌, ◌↔◌, inl, inr, Bool-cases, ◌||◌, List, [], ◌∷◌, String,
  str_eq, eq_iff, Mem, if◌then◌else◌,
}
use middleware_operator_mana.Commands.{with_port}
use middleware_operator_mana.Outcome.{done}
use middleware_operator_mana.Status.Conditions.{
  instance_info, no_instance, instance_at, condition_of, conditions_from,
}
use middleware_operator_mana.Types.{
  EndpointAddress, Endpoints, InstanceInfo, Node, RedisClusterCondition, RedisNodeInfo,
}
use middleware_operator_mana.World.{Env, Trace, looked_at_clock}

-- The pod of `ip_port`: an address with that IP, or the default if none has it.
abbrev pub Found :
    InstanceInfo → List Node → Endpoints → String → List EndpointAddress → InstanceInfo → Type 0
Found default nodes endpoints ip_port addresses i =
    ((addr : EndpointAddress) × Mem addr addresses
      × (with_port addr.ip ≡ ip_port)
      × (i ≡ instance_info nodes endpoints addr))
    ⊎ (((addr : EndpointAddress) → Mem addr addresses → with_port addr.ip ≢ ip_port)
        × (i ≡ default))

instance_at-Found :
    (default : InstanceInfo) (nodes : List Node) (endpoints : Endpoints) (ip_port : String)
    (addresses : List EndpointAddress)
    → Found default nodes endpoints ip_port addresses
        (instance_at default nodes endpoints ip_port addresses)
unfolding instance_at
instance_at-Found default nodes endpoints ip_port [] =
    inr ((λ addr m. absurd (not-mem-nil m)), refl)
instance_at-Found default nodes endpoints ip_port (a ∷ addresses) =
    let named = eq_iff (with_port a.ip) ip_port in
    elim (Bool-cases (str_eq (with_port a.ip) ip_port)) [
      | inl e ↦
          rw e
            (elim (instance_at-Found (instance_info nodes endpoints a) nodes endpoints ip_port
              addresses) [
                | inl (addr, m, n, i) ↦ inl (addr, mem-cons_of_mem a m, n, i)
                | inr (_, i) ↦ inl (a, mem-cons_self, named.0 e, i)
              ])
      | inr e ↦ rw e (elim (instance_at-Found default nodes endpoints ip_port addresses) [
        | inl (addr, m, n, i) ↦ inl (addr, mem-cons_of_mem a m, n, i)
        | inr (none, i) ↦ inr (
          (λ addr m q.
              Or.elim ⊥_prop (mem-cons.0 m)
                (λ same. cc (e, named.1 (ap (λ x. with_port x.ip) (sym same) ∙ q)))
                (λ t. none addr t q)),
          i,
        )
      ])
    ]

true_iff :
    (flags : String)
    → (◌≡◌ {A = String}
        (if str_eq "master" flags || str_eq "slave" flags then "True" else "False")
        "True")
      ↔ ((flags ≡ "master") ⊎ (flags ≡ "slave"))
true_iff flags =
    let is_master = eq_iff "master" flags in
    let is_slave = eq_iff "slave" flags in
    elim (Bool-cases (str_eq "master" flags)) [
      | inl e ↦ rw e ((λ h. inl (sym (is_master.0 e))), (λ h. refl))
      | inr e ↦ elim (Bool-cases (str_eq "slave" flags)) [
        | inl f ↦ rw (e, f) ((λ h. inr (sym (is_slave.0 f))), (λ h. refl))
        | inr f ↦
            rw (e, f)
              (
                (λ h. absurd (cc ((eq_iff "False" "True").1 h))),
                (λ h. elim h [
                  | inl m ↦ absurd (cc (e, is_master.1 (sym m)))
                  | inr m ↦ absurd (cc (f, is_slave.1 (sym m)))
                ]),
              )
      ]
    ]

module _ (nodes : List Node) (endpoints : Endpoints) (addresses : List EndpointAddress) where
  -- The condition repeats the node's line, is true for a master or a slave only, and carries the names
  -- of the node's pod, or none.
  pub record Describes (info : RedisNodeInfo) (c : RedisClusterCondition) : Type 0 where
    pub id : c.node_id ≡ info.node_id
    pub address : c.instance_address ≡ info.ip_port
    pub slots : c.slots ≡ info.slot
    pub master : c.master_node_id ≡ info.master
    pub healthy : (c.status ≡ "True") ↔ ((info.flags ≡ "master") ⊎ (info.flags ≡ "slave"))
    pub instance_of : InstanceInfo
    pub found : Found no_instance nodes endpoints info.ip_port addresses instance_of
    pub named :
        (c.name ≡ instance_of.host_name)
        × (c.hostname ≡ instance_of.node_name)
        × (c.host_ip ≡ instance_of.host_ip)
        × (c.domain_name ≡ instance_of.domain_name)

  abbrev pub Described : List RedisNodeInfo → List RedisClusterCondition → Type 0
  Described [] [] = Unit
  Described [] (c ∷ cs) = ⊥
  Described (info ∷ infos) [] = ⊥
  Described (info ∷ infos) (c ∷ cs) = Describes info c × Described infos cs

  condition_of-Describes :
      (now : ℕ) (info : RedisNodeInfo)
      → Describes info
          (condition_of (instance_at no_instance nodes endpoints info.ip_port addresses) now info)
  unfolding condition_of
  condition_of-Describes now info = record {
    id = refl;
    address = refl;
    slots = refl;
    master = refl;
    healthy = true_iff info.flags;
    instance_of = instance_at no_instance nodes endpoints info.ip_port addresses;
    found = instance_at-Found no_instance nodes endpoints info.ip_port addresses;
    named = (refl, refl, refl, refl);
  }

module _ (env : Env) where
  -- The conditions are one for each line of `cluster nodes`, in the same order. Each repeats the id, the
  -- address, the slots and the master of its line, is "True" for a master or a slave only, and carries
  -- the names of a pod that has the IP of the line, or none where no pod has it.
  pub conditions_from-Described :
      (nodes : List Node) (endpoints : Endpoints) (addresses : List EndpointAddress)
      (infos : List RedisNodeInfo) (t : Trace)
      → (cs : List RedisClusterCondition) × (t' : Trace) × (conditions_from env nodes endpoints
            addresses infos t
          ≡ (done cs, t'))
        × Described nodes endpoints addresses infos cs
  unfolding conditions_from
  conditions_from-Described nodes endpoints addresses [] t = ([], t, refl, tt)
  conditions_from-Described nodes endpoints addresses (info ∷ infos) t =
      let (cs, t', e, d) =
        conditions_from-Described nodes endpoints addresses infos (looked_at_clock ∷ t) in
      (
        condition_of (instance_at no_instance nodes endpoints info.ip_port addresses) (env.clock t)
              info
            ∷ cs,
        t',
        rw e refl,
        (condition_of-Describes nodes endpoints addresses (env.clock t) info, d),
      )
