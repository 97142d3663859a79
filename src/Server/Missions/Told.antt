-- ===== src/Server/Missions/Told.antt =====
-- What a switcher is told of a run.
use tf2_archipelago.Prelude.{ℕ, Option, none, some, Bool, true, false, List, String, nat_eq}
use tf2_archipelago.Prelude.Dict.{Dict}
use tf2_archipelago.Gamedata.Tables.{Mission, mission_by_pop_file}
use tf2_archipelago.Gamedata.Community.{Community}
use tf2_archipelago.Gamedata.Game.{Game}
use tf2_archipelago.State.Store.{Store}
use tf2_archipelago.Server.Missions.{Listed, list_one, missions_for}

abbrev is_known : Option Mission → Bool
is_known none = false
is_known (some m) = true

-- The tables have a mission of that popfile.
abbrev pub is_listed : Game → String → Bool
is_listed g pop = is_known (mission_by_pop_file g.tables pop)

module _ {Modifier : Type 0} (g : Game) (c : Community) (unlocked : List String)
    (checks own : List ℕ) (unlock_all : Bool) (reached : Dict String ℕ)
    (modifiers : Dict String (List Modifier)) where
  abbrev listing : List String → Listed Modifier
  listing = missions_for g c unlocked checks own unlock_all reached modifiers

  abbrev with_one : Option Mission → String → Listed Modifier → Listed Modifier
  with_one = list_one g c unlocked checks own unlock_all reached modifiers
