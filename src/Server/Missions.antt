-- ===== src/Server/Missions.antt =====
-- The missions of the run as a switcher is told them (`getUnlocks`,
-- `getMissions` and `missionsFor` of bridge/internal/httpapi/server.go). What a modifier says is not
-- looked into.
pub mod Told
use tf2_archipelago.Prelude.{
  ℕ, Option, none, some, Bool, ◌&&◌, ◌||◌, not, List, [], ◌∷◌, String, nat_eq, string_eq, ◌==◌, ltb,
  contains, if◌then◌else◌,
}
use tf2_archipelago.Prelude.Dict.{Dict, lookup, value}
use tf2_archipelago.Gamedata.Kinds.{ItemKind, mission_ticket, item_key}
use tf2_archipelago.Gamedata.Tables.{Mission, mission_by_pop_file, map_by_id}
use tf2_archipelago.Gamedata.Ids.{clear_location_id}
use tf2_archipelago.Gamedata.Community.{Community, mission_loadout}
use tf2_archipelago.Gamedata.Game.{Game}
use tf2_archipelago.State.Grants.{Unlocks}
use tf2_archipelago.State.Snapshot.{Resume, elems}
use tf2_archipelago.State.Store.{Store, unlocks}
use tf2_archipelago.Server.Request.{Health}

-- `mission`.
pub record RunMission (Modifier : Type 0) : Type 0 where
  pub pop_file : String
  pub name : String
  pub map_name : String
  pub waves : ℕ
  pub loadout : String
  pub unlocked : Bool
  pub modifiers : List Modifier
  pub cleared : Bool
  pub wave_reached : ℕ
  pub played : Bool

-- What `missionsFor` gives: the missions, and the popfiles that the tables do not know.
pub record Listed (Modifier : Type 0) : Type 0 where
  pub missions : List (RunMission Modifier)
  pub unknown : List String

-- `missionsResponse`.
pub record Missions (Modifier : Type 0) : Type 0 where
  pub missions : List (RunMission Modifier)
  pub resume : Option Resume

-- `Unlocks.Of`.
unfoldable pub unlocks_of : ItemKind → Unlocks → List String
unlocks_of kind u = elim (lookup (item_key kind) u.by_kind) [ some keys ↦ keys | none ↦ [] ]

-- `getUnlocks`.
unfoldable pub get_unlocks : Health → Store → Unlocks
get_unlocks h s = record (unlocks s) { class_weapon_slots = h.class_weapon_slots }

-- `MapByID` on a map that the tables do not have gives one without a name.
abbrev map_named : Game → ℕ → String
map_named g id = elim (map_by_id g.tables id) [ some m ↦ m.name | none ↦ "" ]

abbrev resume_at : Resume → Option Resume
resume_at held = if not (held.pop_file == "") && ltb 0 held.wave then some held else none

abbrev modifiers_at {ℓ} : {Modifier : Type ℓ} → String → Dict String (List Modifier) → List Modifier
modifiers_at pop modifiers = elim (lookup pop modifiers) [ some xs ↦ xs | none ↦ [] ]

module _ {Modifier : Type 0} (g : Game) (c : Community) (unlocked : List String)
    (checks own : List ℕ) (unlock_all : Bool) (reached : Dict String ℕ)
    (modifiers : Dict String (List Modifier)) where
  -- What is told of a mission of the tables.
  unfoldable pub told : Mission → RunMission Modifier
  told m = record {
    pop_file = m.pop_file;
    name = m.name;
    map_name = map_named g m.map_id;
    waves = m.waves;
    loadout = mission_loadout c m.id;
    unlocked = unlock_all || contains unlocked m.pop_file;
    modifiers = modifiers_at m.pop_file modifiers;
    cleared = contains checks (clear_location_id m);
    wave_reached = value m.pop_file reached;
    played = contains own (clear_location_id m);
  }

  abbrev pub list_one : Option Mission → String → Listed Modifier → Listed Modifier
  list_one none pop l = record l { unknown = pop ∷ l.unknown }
  list_one (some m) pop l = record l { missions = told m ∷ l.missions }

  -- `missionsFor`.
  unfoldable pub missions_for : List String → Listed Modifier
  missions_for [] = record { missions = []; unknown = [] }
  missions_for (pop ∷ pops) = list_one (mission_by_pop_file g.tables pop) pop (missions_for pops)

module _ {Modifier : Type 0} where
  -- The run that `getMissions` reads off the session and the store.
  unfoldable pub run_missions :
      Game → Community → Health → Dict String (List Modifier) → Store → Listed Modifier
  run_missions g c h modifiers s =
      missions_for g c (unlocks_of mission_ticket (unlocks s)) s.snap.checks (elems s.snap.played)
        (h.ticket_importance == "useful") s.snap.reached modifiers h.missions

  -- `getMissions`.
  unfoldable pub get_missions :
      Game → Community → Health → Dict String (List Modifier) → Store → Missions Modifier
  get_missions g c h modifiers s = record {
    missions = (run_missions g c h modifiers s).missions;
    resume = resume_at s.snap.resume;
  }
