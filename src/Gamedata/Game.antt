-- ===== src/Gamedata/Game.antt =====
-- The package-level tables of gamedata/, built once when the program starts.
use tf2_archipelago.Prelude.{◌≡◌, some, true, List}
use tf2_archipelago.Gamedata.Tables.{Tables}
use tf2_archipelago.Gamedata.Locations.{Location, build_locations, build_milestones}
use tf2_archipelago.Gamedata.Items.{Item, build_items}
use tf2_archipelago.Gamedata.Validate.{validate_missions}

pub record Game : Type 0 where
  pub tables : Tables
  pub locations : List Location
  pub milestones : List Location
  pub items : List Item

-- The tables are valid and the lists are what the builders made of them.
pub record IsBuilt (g : Game) : Type 0 where
  pub valid : validate_missions g.tables ≡ true
  pub built_locations : build_locations g.tables ≡ some g.locations
  pub built_milestones : build_milestones ≡ some g.milestones
  pub built_items : build_items g.tables ≡ g.items
