-- ===== src/Gamedata/Ids.antt =====
-- The id scheme (gamedata/ids.go). An `int64` id is a number, since no id of the scheme is negative
-- or near the end of the range. `none` is the panic of an argument out of range.
pub mod Checks
use tf2_archipelago.Prelude.{ℕ, ◌+◌, ◌*◌, ◌-◌, ◌/◌, Option, none, some, ◌||◌, ltb, if◌then◌else◌}
use tf2_archipelago.Prelude.{String, ◌<>◌, itoa}
use tf2_archipelago.Gamedata.Kinds.{MilestoneKind, milestone_number}
use tf2_archipelago.Gamedata.Tables.{Mission, Class, Trap, ServerSetting, WeaponBuff}

abbrev pub base_id : ℕ
base_id = 7_442_000_000

abbrev pub waves_max : ℕ
waves_max = 89

abbrev pub item_space_offset : ℕ
item_space_offset = 1_000_000

abbrev pub locations_per_mission : ℕ
locations_per_mission = 100

abbrev pub milestone_mission_id : ℕ
milestone_mission_id = item_space_offset / locations_per_mission - 10

abbrev pub mission_id_max : ℕ
mission_id_max = milestone_mission_id - 1

abbrev pub victory_caches_max : ℕ
victory_caches_max = 4

abbrev pub wave_kill_space_offset : ℕ
wave_kill_space_offset = 2_000_000

abbrev pub wave_giants_max : ℕ
wave_giants_max = 90

abbrev pub wave_tanks_max : ℕ
wave_tanks_max = 9

abbrev pub wave_kill_waves_max : ℕ
wave_kill_waves_max = 99

-- Where a mission's block of locations starts.
abbrev mission_block : Mission → ℕ
mission_block m = base_id + m.id * locations_per_mission

unfoldable pub wave_location_id : Mission → ℕ → Option ℕ
wave_location_id m wave =
    if ltb wave 1 || ltb m.waves wave then none else some (mission_block m + wave)

unfoldable pub tank_location_id : Mission → ℕ
tank_location_id m = mission_block m + 90

unfoldable pub giant_location_id : Mission → ℕ
giant_location_id m = mission_block m + 91

unfoldable pub clear_location_id : Mission → ℕ
clear_location_id m = mission_block m + 99

unfoldable pub victory_cache_location_id : Mission → ℕ → Option ℕ
victory_cache_location_id m n =
    if ltb n 1 || ltb victory_caches_max n then none else some (mission_block m + 92 + (n - 1))

unfoldable pub milestone_id : MilestoneKind → ℕ → Option ℕ
milestone_id kind index =
    if ltb index 1 || ltb 9 index
    then none
    else some (
        base_id + milestone_mission_id * locations_per_mission + milestone_number kind * 10 + index)

-- Where the kills of one wave of a mission start.
abbrev kill_block : Mission → ℕ → ℕ
kill_block m wave = base_id + wave_kill_space_offset + m.id * 10_000 + wave * 100

unfoldable pub wave_giant_location_id : Mission → ℕ → ℕ → Option ℕ
wave_giant_location_id m wave n =
    if ltb wave 1 || ltb wave_kill_waves_max wave || ltb n 1 || ltb wave_giants_max n
    then none
    else some (kill_block m wave + n)

unfoldable pub wave_tank_location_id : Mission → ℕ → ℕ → Option ℕ
wave_tank_location_id m wave n =
    if ltb wave 1 || ltb wave_kill_waves_max wave || ltb n 1 || ltb wave_tanks_max n
    then none
    else some (kill_block m wave + 90 + n)

unfoldable pub wave_location_name : Mission → ℕ → String
wave_location_name m wave = m.name <> " Wave " <> itoa wave

unfoldable pub tank_location_name : Mission → String
tank_location_name m = m.name <> " Tank"

unfoldable pub giant_location_name : Mission → String
giant_location_name m = m.name <> " Giant"

unfoldable pub clear_location_name : Mission → String
clear_location_name m = m.name <> " Complete"

unfoldable pub victory_cache_location_name : Mission → ℕ → String
victory_cache_location_name m n = m.name <> " Victory Cache " <> itoa n

unfoldable pub wave_giant_location_name : Mission → ℕ → ℕ → String
wave_giant_location_name m wave n = m.name <> " Wave " <> itoa wave <> " Giant " <> itoa n

unfoldable pub wave_tank_location_name : Mission → ℕ → ℕ → String
wave_tank_location_name m wave n = m.name <> " Wave " <> itoa wave <> " Tank " <> itoa n

abbrev item_base : ℕ
item_base = base_id + item_space_offset

unfoldable pub ticket_item_id : Mission → ℕ
ticket_item_id m = item_base + 1_000 + m.id

unfoldable pub class_item_id : Class → ℕ
class_item_id c = item_base + 2_000 + c.id

unfoldable pub progressive_weapon_slot_id : ℕ
progressive_weapon_slot_id = item_base + 3_000

unfoldable pub cash_bundle_id : ℕ
cash_bundle_id = item_base + 4_000 + 1

unfoldable pub weapon_buff_item_id : WeaponBuff → ℕ
weapon_buff_item_id b = item_base + 5_000 + b.id

unfoldable pub trap_item_id : Trap → ℕ
trap_item_id t = item_base + 6_000 + t.id

unfoldable pub setting_item_id : ServerSetting → ℕ
setting_item_id s = item_base + 7_000 + s.id

unfoldable pub trophy_item_id : Mission → ℕ
trophy_item_id m = item_base + 8_000 + m.id

unfoldable pub slot_item_id : Class → ℕ
slot_item_id c = item_base + 9_000 + c.id

unfoldable pub named_slot_item_id : Class → ℕ → ℕ
named_slot_item_id c slot = item_base + 9_100 + c.id * 10 + slot

unfoldable pub bot_card_item_id : ℕ → ℕ → ℕ → ℕ
bot_card_item_id card tier form = item_base + 11_000 + (card * 9 + tier * 3 + form + 1)
