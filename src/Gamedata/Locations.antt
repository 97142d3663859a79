-- ===== src/Gamedata/Locations.antt =====
-- Locations (gamedata/locations.go, gamedata/milestones.go): the table of checks, and how an
-- objective that the plugin reports is resolved to one. The outer `none` of a builder or a resolver
-- is the panic of an id out of range. A `uint8` loop to a mission's waves counts up to at most 254,
-- where it ends as the recursion here does; `validateMissions` asks for 89 at most.
pub mod Made
pub mod Inside
pub mod Resolved
use tf2_archipelago.Prelude.{
  ℕ, zero, suc, ◌+◌, Option, none, some, Bool, true, false, ◌&&◌, ◌||◌, List, [], ◌∷◌, ◌++◌, map,
  String, ◌<>◌, itoa, nat_eq, ◌==◌, leb, ltb, if◌then◌else◌, keep, last_where,
}
use tf2_archipelago.Gamedata.Kinds.{
  ObjectiveKind, MilestoneKind, wave_cleared, mission_cleared, tank_destroyed, giant_killed, robots,
  giants, tanks, tally_of, objective_eq, victory_caches,
}
use tf2_archipelago.Gamedata.Tables.{Mission, Tables, WaveKills, wave_kills_at, mission_by_pop_file}
use tf2_archipelago.Gamedata.Ids.{
  wave_location_id, tank_location_id, giant_location_id, clear_location_id,
  victory_cache_location_id, wave_giant_location_id, wave_tank_location_id, milestone_id,
  wave_location_name, tank_location_name, giant_location_name, clear_location_name,
  victory_cache_location_name, wave_giant_location_name, wave_tank_location_name,
}

pub record Location : Type 0 where
  pub id : ℕ
  pub name : String
  pub kind : ObjectiveKind
  pub mission : ℕ
  pub wave : ℕ
  pub cache : ℕ
  pub index : ℕ
  pub threshold : ℕ

infixl 5 ◌>>=◌
abbrev pub ◌>>=◌ : {A B : Type 0} → Option A → (A → Option B) → Option B
none >>= f = none
some a >>= f = f a

-- All the values, unless one of them was a panic.
abbrev pub collect : {A : Type 0} → List (Option A) → Option (List A)
collect [] = some []
collect (o ∷ os) = do a ← o; as' ← collect os; some (a ∷ as')

-- 1, …, n.
abbrev pub one_to : ℕ → List ℕ
one_to zero = []
one_to (suc n) = one_to n ++ (suc n ∷ [])

abbrev plain : ℕ → String → ObjectiveKind → Mission → Location
plain id name kind m = record {
  id = id;
  name = name;
  kind = kind;
  mission = m.id;
  wave = 0;
  cache = 0;
  index = 0;
  threshold = 0;
}

unfoldable pub wave_location : Mission → ℕ → Option Location
wave_location m wave = do
  id ← wave_location_id m wave
  some (record (plain id (wave_location_name m wave) wave_cleared m) { wave = wave })

unfoldable pub tank_location : Mission → Location
tank_location m = plain (tank_location_id m) (tank_location_name m) tank_destroyed m

unfoldable pub giant_location : Mission → Location
giant_location m = plain (giant_location_id m) (giant_location_name m) giant_killed m

unfoldable pub clear_location : Mission → Location
clear_location m = plain (clear_location_id m) (clear_location_name m) mission_cleared m

unfoldable pub cache_location : Mission → ℕ → Option Location
cache_location m n = do
  id ← victory_cache_location_id m n
  some (record (plain id (victory_cache_location_name m n) mission_cleared m) { cache = n })

unfoldable pub wave_giant_location : Mission → ℕ → ℕ → Option Location
wave_giant_location m w n = do
  id ← wave_giant_location_id m w n
  some (record (plain id (wave_giant_location_name m w n) giant_killed m) { wave = w; index = n })

unfoldable pub wave_tank_location : Mission → ℕ → ℕ → Option Location
wave_tank_location m w n = do
  id ← wave_tank_location_id m w n
  some (record (plain id (wave_tank_location_name m w n) tank_destroyed m) { wave = w; index = n })

-- `Mission.VictoryCacheLocations`.
unfoldable pub victory_cache_locations : Mission → Option (List Location)
unfolding cache_location
victory_cache_locations m = collect (map (cache_location m) (one_to (victory_caches m.difficulty)))

-- The kills of one wave: its giants, then its tanks.
unfoldable pub kills_of_wave : Mission → WaveKills → ℕ → List (Option Location)
kills_of_wave m counts w =
    map (wave_giant_location m w) (one_to counts.giants)
    ++ map (wave_tank_location m w) (one_to counts.tanks)

unfoldable pub kills_of_waves : Tables → Mission → List ℕ → List (Option Location)
kills_of_waves t m [] = []
kills_of_waves t m (w ∷ ws) = kills_of_wave m (wave_kills_at t m w) w ++ kills_of_waves t m ws

-- `Mission.WaveKillLocations`.
unfoldable pub wave_kill_locations : Tables → Mission → Option (List Location)
unfolding kills_of_waves kills_of_wave
wave_kill_locations t m = collect (kills_of_waves t m (one_to m.waves))

-- One round of the loop of `buildLocations`.
unfoldable pub mission_locations : Tables → Mission → Option (List Location)
mission_locations t m = do
  waves ← collect (map (wave_location m) (one_to m.waves))
  caches ← victory_cache_locations m
  kills ← wave_kill_locations t m
  some (
      waves
      ++ ((if m.has_tank then tank_location m ∷ [] else [])
          ++ ((if m.has_giant then giant_location m ∷ [] else [])
              ++ (clear_location m ∷ (caches ++ kills)))))

abbrev milestone_noun : MilestoneKind → String
milestone_noun robots = "Robots Destroyed"
milestone_noun giants = "Giants Killed"
milestone_noun tanks = "Tanks Destroyed"

-- `milestoneThresholds`.
abbrev pub milestone_thresholds : MilestoneKind → List ℕ
milestone_thresholds robots = 100 ∷ 250 ∷ 500 ∷ 1000 ∷ 2000 ∷ 4000 ∷ []
milestone_thresholds giants = 10 ∷ 25 ∷ 50 ∷ 100 ∷ 200 ∷ []
milestone_thresholds tanks = 5 ∷ 10 ∷ 20 ∷ 40 ∷ []

-- The ladder of one total, from rung `index + 1`.
pub ladder : MilestoneKind → ℕ → List ℕ → List (Option Location)
ladder kind index [] = []
ladder kind index (threshold ∷ rest) =
    (do
      id ← milestone_id kind (index + 1)
      some (record {
        id = id;
        name = itoa threshold <> " " <> milestone_noun kind;
        kind = tally_of kind;
        mission = 0;
        wave = 0;
        cache = 0;
        index = 0;
        threshold = threshold;
      }))
    ∷ ladder kind (index + 1) rest

pub rungs : MilestoneKind → List (Option Location)
rungs kind = ladder kind 0 (milestone_thresholds kind)

-- `buildMilestones`.
unfoldable pub build_milestones : Option (List Location)
unfolding rungs ladder
build_milestones = collect (rungs robots ++ (rungs giants ++ rungs tanks))

-- `MilestonesReached`, over the list that `buildMilestones` gave.
unfoldable pub milestones_reached : List Location → ObjectiveKind → ℕ → List Location
milestones_reached milestones kind total =
    keep (λ l. l.kind == kind && leb l.threshold total) milestones

unfoldable pub locations_of : Tables → List Mission → Option (List Location)
locations_of t [] = some []
locations_of t (m ∷ ms) = do
  here ← mission_locations t m
  rest ← locations_of t ms
  some (here ++ rest)

-- `buildLocations`.
unfoldable pub build_locations : Tables → Option (List Location)
unfolding locations_of
build_locations t = do
  missions ← locations_of t t.missions
  milestones ← build_milestones
  some (missions ++ milestones)

-- `LocationByID`, over the list that `buildLocations` gave.
unfoldable pub location_by_id : List Location → ℕ → Option Location
location_by_id locations id = last_where (λ l. l.id == id) locations

-- The answer of a resolver that did not panic and that found no check.
abbrev pub unresolved : Option (Option Location)
unresolved = some none

abbrev pub resolved : Option Location → Option (Option Location)
resolved o = do l ← o; some (some l)

pub objective_of : Mission → ObjectiveKind → ℕ → Option (Option Location)
objective_of m mission_cleared wave = some (some (clear_location m))
objective_of m tank_destroyed wave =
    if m.has_tank then some (some (tank_location m)) else unresolved
objective_of m giant_killed wave =
    if m.has_giant then some (some (giant_location m)) else unresolved
objective_of m wave_cleared wave =
    if ltb wave 1 || ltb m.waves wave then unresolved else resolved (wave_location m wave)
objective_of m _ wave = unresolved

-- `LocationByObjective`.
unfoldable pub location_by_objective :
    Tables → ObjectiveKind → String → ℕ → Option (Option Location)
unfolding objective_of
location_by_objective t kind pop wave = elim (mission_by_pop_file t pop) [
  | some m ↦ objective_of m kind wave
  | none ↦ unresolved
]

pub kill_of : Mission → WaveKills → ObjectiveKind → ℕ → ℕ → Option (Option Location)
kill_of m counts giant_killed wave index =
    if ltb counts.giants index then unresolved else resolved (wave_giant_location m wave index)
kill_of m counts tank_destroyed wave index =
    if ltb counts.tanks index then unresolved else resolved (wave_tank_location m wave index)
kill_of m counts _ wave index = unresolved

-- `LocationByWaveKill`.
unfoldable pub location_by_wave_kill :
    Tables → ObjectiveKind → String → ℕ → ℕ → Option (Option Location)
unfolding kill_of
location_by_wave_kill t kind pop wave index = elim (mission_by_pop_file t pop) [
  | some m ↦ if index == 0 then unresolved else kill_of m (wave_kills_at t m wave) kind wave index
  | none ↦ unresolved
]
