-- ===== src/Containers/MemPool/Indexes.antt =====
-- What a pool promises: it hands out indexes below `total`, first those that came back, the last
-- first, and then fresh ones in order.
use yengine.Base.{ℕ, ◌+◌, ◌<◌, ◌≢◌, List, [], ◌∷◌, Option, none, some, ltb, if◌then◌else◌}

pub record Indexes : Type 0 where
  pub free : List ℕ
  pub used : ℕ
  pub total : ℕ

abbrev pub NotIn : ℕ → List ℕ → Type 0
NotIn i [] = Unit {0}
NotIn i (j ∷ js) = (i ≢ j) × NotIn i js

abbrev pub Distinct : List ℕ → Type 0
Distinct [] = Unit {0}
Distinct (i ∷ is) = NotIn i is × Distinct is

abbrev pub AllBelow : ℕ → List ℕ → Type 0
AllBelow n [] = Unit {0}
AllBelow n (i ∷ is) = (i < n) × AllBelow n is

-- The index is handed out.
abbrev pub IsLive : Indexes → ℕ → Type 0
IsLive s i = (i < s.used) × NotIn i s.free

unfoldable pub take_from : List ℕ → Indexes → Option ℕ × Indexes
take_from (i ∷ is) s = (some i, record s { free = is })
take_from [] s =
    if ltb s.used s.total then (some s.used, record s { used = s.used + 1 }) else (none, s)

-- `none` is a full pool.
unfoldable pub take : Indexes → Option ℕ × Indexes
unfolding take_from
take s = take_from s.free s

unfoldable pub give : Indexes → ℕ → Indexes
give s i = record s { free = i ∷ s.free }
