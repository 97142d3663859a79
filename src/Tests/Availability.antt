-- ===== src/Tests/Availability.antt =====
-- A community mission that needs a pack and a mod, and theorems of the availability of missions at it.
use tf2_archipelago.Prelude.{◌≡◌, ◌↔◌, refl, true, [], ◌∷◌}
use tf2_archipelago.Gamedata.Kinds.{expert}
use tf2_archipelago.Gamedata.Tables.{Mission}
use tf2_archipelago.Gamedata.Community.{
  Community, mission_pack, mission_requirement, mission_server_mod,
}
use tf2_archipelago.Availability.{GameServer, planned, check, is_playable, reason_of}
use tf2_archipelago.Availability.Ready.{Ready, is_playable-Ready}

abbrev custom : Mission
custom = record {
  id = 1000;
  pop_file = "mvm_custom_rc1_expert";
  name = "Custom";
  map_id = 1000;
  difficulty = expert;
  waves = 7;
  has_tank = true;
  has_giant = true;
}

abbrev archive : Community
archive = record {
  requirements = (1000, "sigsegv-mvm") ∷ [];
  packs = (1000, "archive-assets.zip") ∷ [];
  loadouts = [];
}

abbrev set_up : GameServer
set_up = planned ("archive-assets.zip" ∷ []) ("sigsegv-mvm" ∷ [])

is_playable-Ready_example :
    (is_playable (check archive set_up custom) ≡ true) ↔ Ready archive set_up custom
is_playable-Ready_example = is_playable-Ready archive set_up custom

set_up_plays : is_playable (check archive set_up custom) ≡ true
unfolding reason_of mission_pack mission_requirement mission_server_mod
set_up_plays = refl
