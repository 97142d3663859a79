-- ===== src/Gamedata/Tables.antt =====
-- The rows of the tables of gamedata/ (missions.go, classes.go, slots.go, traps.go,
-- server_settings.go, weapon_buffs.go, popcount.go) and the tables themselves. What an id type of
-- the source holds is a number. The community manifest and the generated tables are fields of
-- `Tables`, which every function that reads a table takes.
use Prim.Native.String.{String}
use tf2_archipelago.Prelude.{
  ℕ, suc, Option, none, some, Bool, ◌||◌, List, [], ◌∷◌, nat_eq, string_eq, ◌==◌, ltb,
  if◌then◌else◌, first, last_where, get_elem?,
}
use tf2_archipelago.Prelude.Dict.{Dict, lookup}
use tf2_archipelago.Gamedata.Kinds.{Difficulty}

pub record WeaponSlot : Type 0 where
  pub id : ℕ
  pub key : String
  pub name : String

pub record Class : Type 0 where
  pub id : ℕ
  pub key : String
  pub name : String
  pub slot_order : List ℕ

pub record Mission : Type 0 where
  pub id : ℕ
  pub pop_file : String
  pub name : String
  pub map_id : ℕ
  pub difficulty : Difficulty
  pub waves : ℕ
  pub has_tank : Bool
  pub has_giant : Bool

pub record Trap : Type 0 where
  pub id : ℕ
  pub key : String
  pub name : String

pub record ServerSetting : Type 0 where
  pub id : ℕ
  pub key : String
  pub name : String

pub record WeaponBuff : Type 0 where
  pub id : ℕ
  pub key : String
  pub weapon : String
  pub description : String
  pub eligible : Bool

pub record WaveKills : Type 0 where
  pub giants : ℕ
  pub tanks : ℕ

pub record GameMap : Type 0 where
  pub id : ℕ
  pub name : String

pub record Tables : Type 0 where
  pub missions : List Mission
  pub maps : List GameMap
  pub weapon_buffs : List WeaponBuff
  pub wave_kills : Dict String (List WaveKills)

abbrev pub primary_slot : WeaponSlot
primary_slot = record { id = 1; key = "primary"; name = "Primary" }

abbrev pub secondary_slot : WeaponSlot
secondary_slot = record { id = 2; key = "secondary"; name = "Secondary" }

abbrev pub melee_slot : WeaponSlot
melee_slot = record { id = 3; key = "melee"; name = "Melee" }

-- `WeaponSlots`.
abbrev pub weapon_slots : List WeaponSlot
weapon_slots = primary_slot ∷ secondary_slot ∷ melee_slot ∷ []

abbrev pub weapon_slot_by_id : ℕ → Option WeaponSlot
weapon_slot_by_id id = first (λ s. s.id == id) weapon_slots

abbrev slot_order_default : List ℕ
slot_order_default = 1 ∷ 2 ∷ 3 ∷ []

abbrev slot_order_medic : List ℕ
slot_order_medic = 2 ∷ 1 ∷ 3 ∷ []

abbrev slot_order_melee : List ℕ
slot_order_melee = 3 ∷ 2 ∷ 1 ∷ []

abbrev slot_order_engineer : List ℕ
slot_order_engineer = 3 ∷ 1 ∷ 2 ∷ []

class_row : ℕ → String → String → List ℕ → Class
class_row id key name order = record { id = id; key = key; name = name; slot_order = order }

-- `Classes`.
unfoldable pub classes : List Class
unfolding class_row
classes =
    class_row 1 "scout" "Scout" slot_order_default
    ∷ class_row 2 "soldier" "Soldier" slot_order_default
    ∷ class_row 3 "pyro" "Pyro" slot_order_default
    ∷ class_row 4 "demoman" "Demoman" slot_order_default
    ∷ class_row 5 "heavy" "Heavy" slot_order_default
    ∷ class_row 6 "engineer" "Engineer" slot_order_engineer
    ∷ class_row 7 "medic" "Medic" slot_order_medic
    ∷ class_row 8 "sniper" "Sniper" slot_order_default
    ∷ class_row 9 "spy" "Spy" slot_order_melee
    ∷ []

unfoldable pub class_by_id : ℕ → Option Class
class_by_id id = last_where (λ c. c.id == id) classes

abbrev pub class_slots_earned : ℕ
class_slots_earned = 2

-- `Class.SlotForCopy`: outside 1 to 2 there is no slot, and a read of the order past its end, which
-- the source answers with a panic, cannot happen for an order of three.
unfoldable pub slot_for_copy : Class → ℕ → Option WeaponSlot
slot_for_copy c n =
    if ltb n 1 || ltb class_slots_earned n
    then none
    else elim (get_elem? c.slot_order n) [ some id ↦ weapon_slot_by_id id | none ↦ none ]

trap_row : ℕ → String → String → Trap
trap_row id key name = record { id = id; key = key; name = name }

-- `Traps`.
unfoldable pub traps : List Trap
unfolding trap_row
traps =
    trap_row 1 "team_jarate" "Team Jarate"
    ∷ trap_row 2 "team_mad_milk" "Team Mad Milk"
    ∷ trap_row 3 "team_on_fire" "Team On Fire"
    ∷ trap_row 4 "team_slow_down" "Team Slow Down"
    ∷ trap_row 5 "team_bleed" "Team Bleed"
    ∷ trap_row 6 "team_marked_for_death" "Team Marked For Death"
    ∷ trap_row 7 "team_gas" "Team Gas"
    ∷ []

unfoldable pub trap_by_id : ℕ → Option Trap
trap_by_id id = first (λ t. t.id == id) traps

-- `ServerSettings`.
abbrev pub server_settings : List ServerSetting
server_settings = record { id = 1; key = "grappling_hook"; name = "Grappling Hook" } ∷ []

unfoldable pub server_setting_by_id : ℕ → Option ServerSetting
server_setting_by_id id = first (λ s. s.id == id) server_settings

unfoldable pub weapon_buff_by_id : Tables → ℕ → Option WeaponBuff
weapon_buff_by_id t id = last_where (λ b. b.id == id) t.weapon_buffs

unfoldable pub mission_by_id : Tables → ℕ → Option Mission
mission_by_id t id = last_where (λ m. m.id == id) t.missions

unfoldable pub mission_by_pop_file : Tables → String → Option Mission
mission_by_pop_file t pop = last_where (λ m. m.pop_file == pop) t.missions

unfoldable pub map_by_id : Tables → ℕ → Option GameMap
map_by_id t id = last_where (λ m. m.id == id) t.maps

unfoldable pub no_kills : WaveKills
no_kills = record { giants = 0; tanks = 0 }

unfoldable pub kills_row : List WaveKills → ℕ → WaveKills
unfolding no_kills
kills_row kills wave = elim (get_elem? kills wave) [ some k ↦ k | none ↦ no_kills ]

-- `Mission.WaveKillsAt`: nothing for a wave that the count does not cover.
wave_of : List WaveKills → ℕ → WaveKills
unfolding kills_row
wave_of kills ℕ.zero = no_kills
wave_of kills (suc wave) = kills_row kills wave

unfoldable pub wave_kills_at : Tables → Mission → ℕ → WaveKills
unfolding wave_of
wave_kills_at t m wave = elim (lookup m.pop_file t.wave_kills) [
  | some kills ↦ wave_of kills wave
  | none ↦ no_kills
]
