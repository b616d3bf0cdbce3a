-- ===== src/Util/Status.antt =====
-- util/rediscluster.go: `DeepEqualRedisClusterStatus`.
use middleware_operator_mana.Base.{
  ◌≡◌, refl, ◌↔◌, Bool, true, false, not, ◌||◌, List, [], ◌∷◌, String, str_eq, eq_iff, ◌==◌,
  if◌then◌else◌, length, arith, ==_iff, ap, map, Bool-cases, inl, inr, length-map, sym, ◌∙◌,
}
use middleware_operator_mana.Types.{RedisClusterCondition, RedisClusterStatus}

-- The comparison of two conditions leaves out the transition time.
unfoldable pub condition_equal : RedisClusterCondition → RedisClusterCondition → Bool
condition_equal v w = not (
    not (str_eq v.reason w.reason)
    || (not (str_eq v.domain_name w.domain_name)
        || (not (str_eq v.status w.status)
            || (not (str_eq v.name w.name)
                || (not (str_eq v.node_id w.node_id)
                    || (not (str_eq v.slots w.slots)
                        || (not (str_eq v.type w.type)
                            || (not (str_eq v.host_ip w.host_ip)
                                || (not (str_eq v.message w.message)
                                    || (not (str_eq v.master_node_id w.master_node_id)
                                        || (not (str_eq v.hostname w.hostname)
                                            || not (
                                                str_eq v.instance_address
                                                  w.instance_address))))))))))))

-- The loop over the conditions of `a`; the lists are of one length.
unfoldable pub conditions_equal : List RedisClusterCondition → List RedisClusterCondition → Bool
unfolding condition_equal
conditions_equal (v ∷ vs) (w ∷ ws) = if condition_equal v w then conditions_equal vs ws else false
conditions_equal _ _ = true

unfoldable pub deep_equal : RedisClusterStatus → RedisClusterStatus → Bool
unfolding conditions_equal
deep_equal a b =
    if not (a.replicas == b.replicas)
      || (not (str_eq a.reason b.reason) || not (str_eq a.phase b.phase))
    then false
    else if not (length a.conditions == length b.conditions)
    then false
    else if length a.conditions == 0
    then true
    else conditions_equal a.conditions b.conditions

-- The conditions but for their transition times.
abbrev pub timeless : RedisClusterCondition → RedisClusterCondition
timeless v = record v { last_transition_time = 0 }

-- One test of the chain.
differs_or :
    (x y : String) (r : Bool) → (not (not (str_eq x y) || r) ≡ true) ↔ ((x ≡ y) × (not r ≡ true))
differs_or x y r = elim (Bool-cases (str_eq x y)) [
  | inl e ↦ rw e ((λ h. ((eq_iff x y).0 e, h)), (λ h. h.1))
  | inr e ↦ rw e ((λ h. cc), (λ h. absurd (cc (e, (eq_iff x y).1 h.0))))
]

same_text : (x y : String) → (not (not (str_eq x y)) ≡ true) ↔ (x ≡ y)
same_text x y = elim (Bool-cases (str_eq x y)) [
  | inl e ↦ rw e ((λ h. (eq_iff x y).0 e), (λ h. refl))
  | inr e ↦ rw e ((λ h. cc), (λ h. absurd (cc (e, (eq_iff x y).1 h))))
]

condition_equal-timeless :
    (v w : RedisClusterCondition) → (condition_equal v w ≡ true) ↔ (timeless v ≡ timeless w)
unfolding condition_equal
condition_equal-timeless v w = (
  (λ h.
      let (reason, h) = (differs_or _ _ _).0 h in
      let (domain_name, h) = (differs_or _ _ _).0 h in
      let (status, h) = (differs_or _ _ _).0 h in
      let (name, h) = (differs_or _ _ _).0 h in
      let (node_id, h) = (differs_or _ _ _).0 h in
      let (slots, h) = (differs_or _ _ _).0 h in
      let (type, h) = (differs_or _ _ _).0 h in
      let (host_ip, h) = (differs_or _ _ _).0 h in
      let (message, h) = (differs_or _ _ _).0 h in
      let (master_node_id, h) = (differs_or _ _ _).0 h in
      let (hostname, h) = (differs_or _ _ _).0 h in
      let instance_address = (same_text _ _).0 h in
      λ i. record {
        name = name i;
        type = type i;
        instance_address = instance_address i;
        node_id = node_id i;
        master_node_id = master_node_id i;
        domain_name = domain_name i;
        slots = slots i;
        hostname = hostname i;
        host_ip = host_ip i;
        status = status i;
        last_transition_time = 0;
        reason = reason i;
        message = message i;
      }),
  (λ h. (differs_or _ _ _).1 (
    ap (λ c. c.reason) h,
    (differs_or _ _ _).1 (
      ap (λ c. c.domain_name) h,
      (differs_or _ _ _).1 (
        ap (λ c. c.status) h,
        (differs_or _ _ _).1 (
          ap (λ c. c.name) h,
          (differs_or _ _ _).1 (
            ap (λ c. c.node_id) h,
            (differs_or _ _ _).1 (
              ap (λ c. c.slots) h,
              (differs_or _ _ _).1 (
                ap (λ c. c.type) h,
                (differs_or _ _ _).1 (
                  ap (λ c. c.host_ip) h,
                  (differs_or _ _ _).1 (
                    ap (λ c. c.message) h,
                    (differs_or _ _ _).1 (
                      ap (λ c. c.master_node_id) h,
                      (differs_or _ _ _).1 (
                        ap (λ c. c.hostname) h,
                        (same_text _ _).1 (ap (λ c. c.instance_address) h),
                      ),
                    ),
                  ),
                ),
              ),
            ),
          ),
        ),
      ),
    ),
  )),
)

conditions_equal-timeless :
    (vs ws : List RedisClusterCondition)
    → length vs ≡ length ws
    → (conditions_equal vs ws ≡ true) ↔ (map timeless vs ≡ map timeless ws)
unfolding conditions_equal
conditions_equal-timeless [] [] h = ((λ e. refl), (λ e. refl))
conditions_equal-timeless [] (w ∷ ws) h = absurd (omega arith)
conditions_equal-timeless (v ∷ vs) [] h = absurd (omega arith)
conditions_equal-timeless (v ∷ vs) (w ∷ ws) h =
    let heads = condition_equal-timeless v w in
    let tails = conditions_equal-timeless vs ws (omega arith) in
    elim (Bool-cases (condition_equal v w)) [
      | inl e ↦ rw e ((λ q. cc (heads.0 e, tails.0 q)), (λ q. tails.1 (cc q)))
      | inr e ↦ rw e ((λ q. cc), (λ q. absurd (cc (e, heads.1 (cc q)))))
    ]

conditions_equal_empty :
    (vs ws : List RedisClusterCondition) → length vs ≡ 0 → conditions_equal vs ws ≡ true
unfolding conditions_equal
conditions_equal_empty [] ws h = refl
conditions_equal_empty (v ∷ vs) ws h = absurd (omega arith)

same_length :
    (vs ws : List RedisClusterCondition) → map timeless vs ≡ map timeless ws → length vs ≡ length ws
same_length vs ws h = sym (length-map timeless vs) ∙ ap length h ∙ length-map timeless ws

-- The comparison says yes exactly when the two statuses agree in the replicas, the reason, the phase
-- and, one by one and in their order, in the conditions but for their transition times.
pub deep_equal-timeless :
    (a b : RedisClusterStatus)
    → (deep_equal a b ≡ true) ↔ (
        (a.replicas ≡ b.replicas)
        × (a.reason ≡ b.reason)
        × (a.phase ≡ b.phase)
        × (map timeless a.conditions ≡ map timeless b.conditions))
unfolding deep_equal
deep_equal-timeless a b =
    let replicas = ==_iff a.replicas b.replicas in
    let reason = eq_iff a.reason b.reason in
    let phase = eq_iff a.phase b.phase in
    elim (Bool-cases (length a.conditions == length b.conditions)) [
      | inl e ↦
          let lengths = (==_iff (length a.conditions) (length b.conditions)).0 e in
          let each = conditions_equal-timeless a.conditions b.conditions lengths in
          let none = conditions_equal_empty a.conditions b.conditions in
          (
            (λ h. ground (arith, replicas, reason, phase, each, none)),
            (λ h. ground (arith, replicas, reason, phase, each, none)),
          )
      | inr e ↦ (
        (λ h. ground arith),
        (λ h.
            let (_, _, _, m) = h in
            absurd (cc (e, (==_iff _ _).1 (same_length a.conditions b.conditions m)))),
      )
    ]
