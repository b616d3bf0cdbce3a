-- ===== src/World/Ascends.antt =====
-- The phases that a list of calls writes to the status, and when they ascend by a rank.
use middleware_operator_mana.Base.{ℕ, ◌≤◌, ◌<◌, ◌≡◌, refl, ap, List, [], ◌∷◌, ◌++◌, All, arith}
use middleware_operator_mana.Types.Phase.{RedisClusterPhase}
use middleware_operator_mana.World.{Event, updated_cluster}

-- The phases that the calls write to the status, the latest first.
abbrev pub phases : List Event → List RedisClusterPhase
phases [] = []
phases (updated_cluster rc ∷ es) = rc.status.phase ∷ phases es
phases (_ ∷ es) = phases es

-- The status is not written.
abbrev pub Silent : Event → Type 0
Silent (updated_cluster rc) = ⊥
Silent _ = Unit

-- The rank of the latest phase, or `lo` where none was written.
abbrev pub peak : (RedisClusterPhase → ℕ) → ℕ → List RedisClusterPhase → ℕ
peak rank lo [] = lo
peak rank lo (p ∷ ps) = rank p

-- Every phase ranks above the one written before it, and the first above `lo`.
abbrev pub Ascends : (RedisClusterPhase → ℕ) → ℕ → List RedisClusterPhase → Type 0
Ascends rank lo [] = Unit
Ascends rank lo (p ∷ ps) = (peak rank lo ps < rank p) × Ascends rank lo ps

pub phases-append : (es fs : List Event) → phases (es ++ fs) ≡ phases es ++ phases fs
phases-append [] fs = refl
phases-append (updated_cluster rc ∷ es) fs = ap (λ ps. rc.status.phase ∷ ps) (phases-append es fs)
phases-append (_ ∷ es) fs = phases-append es fs

pub Silent-phases : (es : List Event) → All Silent es → phases es ≡ []
Silent-phases [] h = refl
Silent-phases (updated_cluster rc ∷ es) h = absurd h.0
Silent-phases (_ ∷ es) h = Silent-phases es h.1

-- What starts higher may be put behind what ends lower.
pub Ascends-append :
    (rank : RedisClusterPhase → ℕ) (lo mid : ℕ) (ps qs : List RedisClusterPhase)
    → peak rank lo qs ≤ mid
    → Ascends rank lo qs
    → Ascends rank mid ps
    → Ascends rank lo (ps ++ qs) × (peak rank lo (ps ++ qs) ≤ peak rank mid ps)
Ascends-append rank lo mid [] qs below hq hp = (hq, below)
Ascends-append rank lo mid (p ∷ ps) qs below hq hp =
    let (later, under) = Ascends-append rank lo mid ps qs below hq hp.1 in
    ((omega arith, later), omega arith)
