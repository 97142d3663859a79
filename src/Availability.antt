-- ===== src/Availability.antt =====
-- Whether a game server can play a mission, and if not why not (gamedata/availability/availability.go
-- and gamedata/availability/verdict.go).
pub mod Ready
pub mod Words
use tf2_archipelago.Prelude.{
  ℕ, Option, none, some, Bool, true, false, not, ◌&&◌, ◌||◌, List, [], ◌∷◌, String, ◌<>◌, string_eq,
  ◌==◌, if◌then◌else◌, contains, keep, map, ◌≡◌, ◌↔◌, Eq, nat_eq, arith,
}
use tf2_archipelago.Gamedata.Tables.{Tables, Mission}
use tf2_archipelago.Gamedata.Community.{
  Community, ServerMod, builds_on, server_mod_by_key, mission_pack, mission_requirement,
  mission_server_mod, no_nav_requirement, pack_label, missing_navigation_mesh,
}

pub record GameServer : Type 0 where
  pub platform : String
  pub packs_selected : List String
  pub packs_present : List String
  pub mods_selected : List String
  pub mods_verified : List String
  pub mods_blocked : List String
  pub managed_externally : Bool

pub data Reason : Type 0 where
  playable no_nav_mesh pack_missing mod_no_build : Reason
  mod_off mod_unverified mod_blocked pack_off : Reason

pub record Verdict : Type 0 where
  pub mission : Mission
  pub reason : Reason
  pub managed : Bool
  pub platform : String

-- The number that Go's `iota` gives a reason.
abbrev reason_number : Reason → ℕ
reason_number playable = 0
reason_number no_nav_mesh = 1
reason_number pack_missing = 2
reason_number mod_no_build = 3
reason_number mod_off = 4
reason_number mod_unverified = 5
reason_number mod_blocked = 6
reason_number pack_off = 7

abbrev pub reason_beq : Reason → Reason → Bool
reason_beq a b = reason_number a == reason_number b

-- `Planned`.
abbrev pub planned : List String → List String → GameServer
planned packs mods = record {
  platform = "";
  packs_selected = packs;
  packs_present = packs;
  mods_selected = mods;
  mods_verified = mods;
  mods_blocked = [];
  managed_externally = false;
}

-- A mod that the catalog lacks is the zero value, which builds nowhere.
abbrev pub mod_builds : Option ServerMod → String → Bool
mod_builds none goos = false
mod_builds (some m) goos = builds_on m goos

-- The switch over the mod that a mission names; `none` falls through to the pack's tick.
unfoldable pub mod_reason : GameServer → String → Option Reason
unfolding server_mod_by_key
mod_reason s key =
    if key == ""
    then none
    else if not (s.platform == "") && not (mod_builds (server_mod_by_key key) s.platform)
    then some mod_no_build
    else if contains s.mods_blocked key
    then some mod_blocked
    else if not (contains s.mods_selected key)
    then some mod_off
    else if not (contains s.mods_verified key)
    then some mod_unverified
    else none

unfoldable pub tick_reason : GameServer → String → Option Reason → Reason
tick_reason s pack (some r) = r
tick_reason s pack none =
    if not (pack == "") && not (contains s.packs_selected pack) then pack_off else playable

-- `Server.reason`.
unfoldable pub reason_of : Community → GameServer → Mission → Reason
unfolding mod_reason tick_reason
reason_of c s m =
    let pack = mission_pack c m.id in
    if not (pack == "") && not (contains s.packs_present pack)
    then pack_missing
    else if mission_requirement c m.id == no_nav_requirement
    then no_nav_mesh
    else tick_reason s pack (mod_reason s (mission_server_mod c m.id))

-- `Server.Check`.
abbrev pub check : Community → GameServer → Mission → Verdict
check c s m = record {
  mission = m;
  reason = reason_of c s m;
  managed = s.managed_externally;
  platform = s.platform;
}

-- `Verdict.Playable`.
abbrev pub is_playable : Verdict → Bool
is_playable v = reason_beq v.reason playable

-- `Server.Playable`.
unfoldable pub playable_on : Community → Tables → GameServer → List Mission
playable_on c t s = keep (λ m. is_playable (check c s m)) t.missions

-- `Server.Shown`.
unfoldable pub shown_on : Community → Tables → GameServer → List Verdict
shown_on c t s = keep (λ v. not (reason_beq v.reason pack_missing)) (map (check c s) t.missions)

-- `Source`.
unfoldable pub source_of : Community → Mission → List String → String
source_of c m imported =
    let pack = mission_pack c m.id in
    if pack == ""
    then "Valve"
    else if contains imported pack
    then "Imported"
    else if pack_label pack == ""
    then pack
    else pack_label pack

-- `Reason.String`.
abbrev pub reason_text : Reason → String
reason_text playable = "playable"
reason_text no_nav_mesh = "no navigation mesh"
reason_text pack_missing = "pack missing"
reason_text mod_no_build = "mod has no build"
reason_text mod_off = "mod off"
reason_text mod_unverified = "mod unverified"
reason_text mod_blocked = "mod did not load"
reason_text pack_off = "pack off"

abbrev mod_name : Option ServerMod → String
mod_name none = ""
mod_name (some m) = m.name

-- The switch of `Verdict.Why`, over the reason, whether the server is managed, the platform, the
-- pack's and the mod's name, and the mesh that is missing.
unfoldable pub why_for : Reason → Bool → String → String → String → String → String
why_for playable managed platform pack name mesh = ""
why_for no_nav_mesh managed platform pack name mesh = "missing " <> mesh
why_for pack_missing managed platform pack name mesh =
    pack <> " is not on this server: download or import it on the Missions page"
why_for mod_no_build managed platform pack name mesh =
    name <> " has no " <> platform <> " server build, so this mission cannot run here"
why_for mod_off true platform pack name mesh =
    "turn on " <> name <> ", then save and recreate the containers"
why_for mod_off false platform pack name mesh =
    "turn on " <> name <> ", then press Download / set up selected server mods"
why_for mod_unverified true platform pack name mesh =
    name <> " files are missing or incomplete in the server volume; recreate the container"
why_for mod_unverified false platform pack name mesh =
    name
    <> " is selected but its installation is missing or incomplete; press Download / set up selected server mods"
why_for mod_blocked managed platform pack name mesh =
    name <> " did not load on this TF2 build; update the launcher"
why_for pack_off managed platform pack name mesh = "tick " <> pack

-- `Verdict.Why`.
unfoldable pub why : Community → Tables → Verdict → String
unfolding why_for
why c t v =
    why_for v.reason v.managed v.platform (pack_label (mission_pack c v.mission.id))
      (mod_name (server_mod_by_key (mission_server_mod c v.mission.id)))
      (missing_navigation_mesh c t v.mission.id)
