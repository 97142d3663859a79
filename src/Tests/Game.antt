-- ===== src/Tests/Game.antt =====
-- Doe's Drill on Decoy, built as the program builds its tables, and theorems of gamedata at it.
use tf2_archipelago.Prelude.{
  ℕ, ◌≡◌, refl, inr, Option, none, some, true, List, [], ◌∷◌, arith, ◌+◌, ◌*◌, ◌<◌, ◌≤◌, ◌⊎◌, ◌≢◌,
}
use tf2_archipelago.Gamedata.Kinds.{normal, wave_cleared, giant_killed, MilestoneKind}
use tf2_archipelago.Gamedata.Tables.{
  Tables, Mission, WaveKills, wave_kills_at, map_by_id, mission_by_pop_file,
}
use tf2_archipelago.Gamedata.Ids.{
  base_id, wave_location_id, clear_location_id, tank_location_id, wave_giant_location_id,
  milestone_id, item_space_offset, giant_location_id, wave_tank_location_id,
  victory_cache_location_id,
}
use tf2_archipelago.Gamedata.Ids.Checks.{
  Check, InRange, check_id, check_id-injective, check_id_reserved, clear,
}
use tf2_archipelago.Gamedata.Locations.{
  Location, build_locations, build_milestones, location_by_id, location_by_objective,
  location_by_wave_kill, wave_giant_location, wave_tank_location, wave_location, tank_location,
  giant_location, clear_location, cache_location, mission_locations, victory_cache_locations,
  wave_kill_locations,
}
use tf2_archipelago.Gamedata.Locations.Resolved.{location_by_id-resolved}
use tf2_archipelago.Gamedata.Items.{build_items}
use tf2_archipelago.Gamedata.Validate.{validate_missions, validate_mission, safe_console_name}
use tf2_archipelago.Gamedata.Game.{Game, IsBuilt}

abbrev pub doe : Mission
doe = record {
  id = 1;
  pop_file = "mvm_decoy";
  name = "Doe's Drill";
  map_id = 1;
  difficulty = normal;
  waves = 2;
  has_tank = true;
  has_giant = true;
}

abbrev one_each : WaveKills
one_each = record { giants = 1; tanks = 1 }

abbrev pub small_tables : Tables
small_tables = record {
  missions = doe ∷ [];
  maps = record { id = 1; name = "mvm_decoy" } ∷ [];
  weapon_buffs = [];
  wave_kills = ("mvm_decoy", one_each ∷ one_each ∷ []) ∷ [];
}

abbrev or_empty : {A : Type 0} → Option (List A) → List A
or_empty none = []
or_empty (some xs) = xs

abbrev pub small : Game
small = record {
  tables = small_tables;
  locations = or_empty (build_locations small_tables);
  milestones = or_empty build_milestones;
  items = build_items small_tables;
}

pub small_valid : validate_missions small_tables ≡ true
unfolding validate_missions validate_mission wave_kills_at safe_console_name map_by_id
small_valid = refl

small_locations : build_locations small_tables ≡ some small.locations
unfolding build_locations mission_locations wave_location tank_location giant_location
    clear_location wave_giant_location wave_tank_location wave_location_id tank_location_id
    giant_location_id clear_location_id wave_giant_location_id wave_tank_location_id wave_kills_at
    victory_cache_locations wave_kill_locations cache_location victory_cache_location_id
    milestone_id build_milestones
small_locations = refl

small_milestones : build_milestones ≡ some small.milestones
unfolding build_milestones milestone_id
small_milestones = refl

pub small-IsBuilt : IsBuilt small
small-IsBuilt = record {
  valid = small_valid;
  built_locations = small_locations;
  built_milestones = small_milestones;
  built_items = refl;
}

doe-InRange : InRange doe
doe-InRange = record {
  id_least = omega arith;
  id_most = omega arith;
  waves_least = omega arith;
  waves_most = omega arith;
}

giant_id : check_id doe (Check.wave_giant 2 1) ≡ some 7444010201
unfolding check_id wave_giant_location_id
giant_id = refl

clear_id : check_id doe clear ≡ some 7442000199
unfolding check_id clear_location_id
clear_id = refl

check_id-injective_example : (doe.id ≡ doe.id) × (Check.wave_giant 2 1 ≡ Check.wave_giant 2 1)
check_id-injective_example =
    check_id-injective doe doe (Check.wave_giant 2 1) (Check.wave_giant 2 1) 7444010201 doe-InRange
      doe-InRange giant_id giant_id

check_id_reserved_example :
    ((k : MilestoneKind) (x : ℕ) → milestone_id k x ≢ some 7442000199)
    × ((7442000199 < base_id + item_space_offset) ⊎ (base_id + 2 * item_space_offset ≤ 7442000199))
check_id_reserved_example = check_id_reserved doe clear 7442000199 doe-InRange clear_id

abbrev blank : Location
blank = record {
  id = 0;
  name = "";
  kind = giant_killed;
  mission = 0;
  wave = 0;
  cache = 0;
  index = 0;
  threshold = 0;
}

abbrev or_blank : Option (Option Location) → Location
or_blank none = blank
or_blank (some none) = blank
or_blank (some (some l)) = l

-- The first giant of the first wave, and its wave.
abbrev pub a_giant : Location
a_giant = or_blank (location_by_wave_kill small_tables giant_killed "mvm_decoy" 1 1)

abbrev pub a_wave : Location
a_wave = or_blank (location_by_objective small_tables wave_cleared "mvm_decoy" 1)

pub giant_found :
    location_by_wave_kill small_tables giant_killed "mvm_decoy" 1 1 ≡ some (some a_giant)
unfolding location_by_wave_kill mission_by_pop_file wave_kills_at wave_giant_location
    wave_giant_location_id
giant_found = refl

pub wave_found : location_by_objective small_tables wave_cleared "mvm_decoy" 1 ≡ some (some a_wave)
unfolding location_by_objective mission_by_pop_file wave_location wave_location_id
wave_found = refl

pub a_giant_known : location_by_id small.locations a_giant.id ≡ some a_giant
a_giant_known =
    location_by_id-resolved small_tables small.locations giant_killed "mvm_decoy" 1 1 a_giant
      small_valid small_locations (inr giant_found)

location_by_id-resolved_example : location_by_id small.locations a_giant.id ≡ some a_giant
location_by_id-resolved_example =
    location_by_id-resolved small_tables small.locations giant_killed "mvm_decoy" 1 1 a_giant
      small_valid small_locations (inr giant_found)
