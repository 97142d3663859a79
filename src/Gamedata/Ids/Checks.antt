-- ===== src/Gamedata/Ids/Checks.antt =====
-- The checks of the id scheme by what they are, and that no two of them share an id.
use tf2_archipelago.Prelude.{ℕ, ◌≤◌, ◌≡◌, Option, some, arith, ◌+◌, ◌*◌, ◌<◌, ◌≢◌, ◌⊎◌}
use tf2_archipelago.Gamedata.Kinds.{MilestoneKind}
use tf2_archipelago.Gamedata.Tables.{Mission}
use tf2_archipelago.Gamedata.Ids.{
  mission_id_max, waves_max, wave_location_id, tank_location_id, giant_location_id,
  clear_location_id, victory_cache_location_id, wave_giant_location_id, wave_tank_location_id,
  milestone_id, base_id, item_space_offset,
}

-- A check of one mission.
pub data Check : Type 0 where
  wave : ℕ → Check
  tank giant clear : Check
  cache : ℕ → Check
  wave_giant wave_tank : ℕ → ℕ → Check

-- The id that the scheme gives a check of a mission, `none` where it panics.
unfoldable pub check_id : Mission → Check → Option ℕ
check_id m (wave w) = wave_location_id m w
check_id m tank = some (tank_location_id m)
check_id m giant = some (giant_location_id m)
check_id m clear = some (clear_location_id m)
check_id m (cache n) = victory_cache_location_id m n
check_id m (wave_giant w n) = wave_giant_location_id m w n
check_id m (wave_tank w n) = wave_tank_location_id m w n

-- What `validateMissions` asks of a mission's numbers.
pub record InRange (m : Mission) : Type 0 where
  pub id_least : 1 ≤ m.id
  pub id_most : m.id ≤ mission_id_max
  pub waves_least : 1 ≤ m.waves
  pub waves_most : m.waves ≤ waves_max

-- An id is the mission's block and the slot of the check in it, and both can be read back.
abbrev IsSlot : Check → ℕ → ℕ → Type 0
IsSlot (wave w) m i = (1 ≤ w) × (w ≤ 89) × (i ≡ base_id + m * 100 + w)
IsSlot tank m i = i ≡ base_id + m * 100 + 90
IsSlot giant m i = i ≡ base_id + m * 100 + 91
IsSlot clear m i = i ≡ base_id + m * 100 + 99
IsSlot (cache n) m i = (1 ≤ n) × (n ≤ 4) × (i ≡ base_id + m * 100 + 91 + n)
IsSlot (wave_giant w n) m i =
    (1 ≤ w) × (w ≤ 99) × (1 ≤ n) × (n ≤ 90) × (i ≡ base_id + 2_000_000 + m * 10_000 + w * 100 + n)
IsSlot (wave_tank w n) m i =
    (1 ≤ w)
    × (w ≤ 99)
    × (1 ≤ n)
    × (n ≤ 9)
    × (i ≡ base_id + 2_000_000 + m * 10_000 + w * 100 + 90 + n)

check_id-IsSlot :
    (m : Mission) (c : Check) (i : ℕ) → InRange m → check_id m c ≡ some i → IsSlot c m.id i
unfolding check_id wave_location_id tank_location_id giant_location_id clear_location_id
    victory_cache_location_id wave_giant_location_id wave_tank_location_id
check_id-IsSlot m (wave w) i r h = ground arith
check_id-IsSlot m tank i r h = ground arith
check_id-IsSlot m giant i r h = ground arith
check_id-IsSlot m clear i r h = ground arith
check_id-IsSlot m (cache n) i r h = ground arith
check_id-IsSlot m (wave_giant w n) i r h = ground arith
check_id-IsSlot m (wave_tank w n) i r h = ground arith

IsSlot-injective :
    (c d : Check) (m n i : ℕ)
    → m ≤ mission_id_max
    → n ≤ mission_id_max
    → IsSlot c m i
    → IsSlot d n i
    → (m ≡ n) × (c ≡ d)
IsSlot-injective (wave w) d m n i hm hn p q = ground arith
IsSlot-injective _ d m n i hm hn p q = ground arith

-- No two checks share an id: of two missions in range, checks with one id are the same check of
-- missions with the same id.
pub check_id-injective :
    (m n : Mission) (c d : Check) (i : ℕ)
    → InRange m
    → InRange n
    → check_id m c ≡ some i
    → check_id n d ≡ some i
    → (m.id ≡ n.id) × (c ≡ d)
check_id-injective m n c d i rm rn p q =
    IsSlot-injective c d m.id n.id i rm.id_most rn.id_most (check_id-IsSlot m c i rm p)
      (check_id-IsSlot n d i rn q)

slot_clear_of_milestone :
    (c : Check) (k : MilestoneKind) (m x i : ℕ)
    → 1 ≤ m
    → m ≤ mission_id_max
    → IsSlot c m i
    → milestone_id k x ≡ some i
    → ⊥
unfolding milestone_id
slot_clear_of_milestone (wave w) k m x i lo hi p q = ground arith
slot_clear_of_milestone _ k m x i lo hi p q = ground arith

-- A check of a mission in range has neither a milestone's id nor one of the item space.
pub check_id_reserved :
    (m : Mission) (c : Check) (i : ℕ)
    → InRange m
    → check_id m c ≡ some i
    → ((k : MilestoneKind) (x : ℕ) → milestone_id k x ≢ some i)
      × ((i < base_id + item_space_offset) ⊎ (base_id + 2 * item_space_offset ≤ i))
check_id_reserved m c i r h = (
  λ k x e. slot_clear_of_milestone c k m.id x i r.id_least r.id_most (check_id-IsSlot m c i r h) e,
  space c (check_id-IsSlot m c i r h),
)
  where
    space :
        (c : Check)
        → IsSlot c m.id i
        → (i < base_id + item_space_offset) ⊎ (base_id + 2 * item_space_offset ≤ i)
    space (wave w) p = ground (arith, r.id_most)
    space _ p = ground (arith, r.id_most)
