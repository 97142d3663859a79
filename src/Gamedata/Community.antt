-- ===== src/Gamedata/Community.antt =====
-- What the community manifest says of a mission, and the server mods (gamedata/community.go,
-- gamedata/server_mods.go, read by gamedata/availability). The manifest's rows are an argument.
use tf2_archipelago.Prelude.{
  ℕ, Option, none, some, Bool, true, false, List, [], ◌∷◌, String, ◌<>◌, nat_eq, string_eq, ◌==◌,
  ◌||◌, if◌then◌else◌, first, keep, map,
}
use tf2_archipelago.Prelude.Dict.{Dict, lookup}
use tf2_archipelago.Gamedata.Tables.{Tables, Mission, GameMap, mission_by_id, map_by_id}

-- `loadedCommunity`, the maps from a mission's id. Its missions stand in `Tables`.
pub record Community : Type 0 where
  pub requirements : Dict ℕ String
  pub packs : Dict ℕ String
  pub loadouts : Dict ℕ String

pub record ServerMod : Type 0 where
  pub key : String
  pub name : String
  pub linux : Bool
  pub windows : Bool

-- `ServerMods`.
abbrev pub server_mods : List ServerMod
server_mods = record { key = "sigsegv-mvm"; name = "SigMod"; linux = true; windows = true } ∷ []

-- `noNavRequirement`, which gamedata and gamedata/availability both declare.
abbrev pub no_nav_requirement : String
no_nav_requirement = "no_nav"

-- `ServerMod.BuildsOn`.
abbrev pub builds_on : ServerMod → String → Bool
builds_on m goos =
    if goos == "windows" then m.windows else if goos == "linux" then m.linux else false

-- `ServerModByKey`.
unfoldable pub server_mod_by_key : String → Option ServerMod
server_mod_by_key key = first (λ m. m.key == key) server_mods

-- `ServerModBuildsOn`.
unfoldable pub server_mod_builds_on : String → String → Bool
unfolding server_mod_by_key
server_mod_builds_on key goos = elim (server_mod_by_key key) [
  | none ↦ false
  | some m ↦ builds_on m goos
]

-- `ServerModKeys`.
abbrev pub server_mod_keys : List String
server_mod_keys = map (λ m. m.key) server_mods

-- A read of a map of texts at a missing key gives the blank text.
abbrev pub text_at : ℕ → Dict ℕ String → String
text_at id m = elim (lookup id m) [ some s ↦ s | none ↦ "" ]

-- `MissionPack`.
unfoldable pub mission_pack : Community → ℕ → String
mission_pack c id = text_at id c.packs

-- `MissionRequirement`.
unfoldable pub mission_requirement : Community → ℕ → String
mission_requirement c id = text_at id c.requirements

-- `MissionLoadout`.
unfoldable pub mission_loadout : Community → ℕ → String
mission_loadout c id = text_at id c.loadouts

-- `MissionServerMod`.
unfoldable pub mission_server_mod : Community → ℕ → String
unfolding server_mod_by_key mission_requirement
mission_server_mod c id =
    let requirement = mission_requirement c id in
    elim (server_mod_by_key requirement) [ some m ↦ requirement | none ↦ "" ]

-- `knownRequirement`.
unfoldable pub known_requirement : String → Bool
unfolding server_mod_by_key
known_requirement requirement =
    if requirement == "" || requirement == no_nav_requirement
    then true
    else elim (server_mod_by_key requirement) [ some m ↦ true | none ↦ false ]

-- `IsCommunityMission`.
unfoldable pub is_community_mission : Community → ℕ → Bool
is_community_mission c id = elim (lookup id c.packs) [ some p ↦ true | none ↦ false ]

-- `IsPlayableMission`.
unfoldable pub is_playable_mission : Community → ℕ → Bool
unfolding is_community_mission
is_playable_mission c id =
    if is_community_mission c id then text_at id c.requirements == "" else true

-- `PlayableMissions`.
unfoldable pub playable_missions : Community → Tables → List Mission
unfolding is_playable_mission
playable_missions c t = keep (λ m. is_playable_mission c m.id) t.missions

-- `PackLabel`.
unfoldable pub pack_label : String → String
pack_label pack =
    if pack == "archive-assets.zip"
    then "Potato Archive"
    else if pack == "mlarchive-assets.zip"
    then "Moonlight Archive"
    else ""

nav_file : Option GameMap → String
nav_file none = ""
nav_file (some played) = "maps/" <> played.name <> ".nav"

mesh_of : Tables → Option Mission → String
unfolding nav_file
mesh_of t none = ""
mesh_of t (some m) = nav_file (map_by_id t m.map_id)

-- `MissingNavigationMesh`.
unfoldable pub missing_navigation_mesh : Community → Tables → ℕ → String
unfolding mesh_of
missing_navigation_mesh c t id =
    if mission_requirement c id == no_nav_requirement then mesh_of t (mission_by_id t id) else ""

needs_label : String → Option ServerMod → String
needs_label requirement none = "Needs " <> requirement
needs_label requirement (some m) = "Needs " <> m.name

-- `RequirementLabel`.
unfoldable pub requirement_label : String → String
unfolding needs_label
requirement_label requirement =
    if requirement == ""
    then "Ready"
    else if requirement == no_nav_requirement
    then "Missing bot .nav"
    else needs_label requirement (server_mod_by_key requirement)
