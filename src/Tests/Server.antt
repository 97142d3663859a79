-- ===== src/Tests/Server.antt =====
-- Reports that the server answers, and the server's theorems at them.
use tf2_archipelago.Prelude.{String, string_eq, ℕ, ◌≡◌, refl, true, false, [], ◌∷◌, some}
use tf2_archipelago.Prelude.Int.{ℤ, pos}
use tf2_archipelago.Prelude.Dict.{value}
use tf2_archipelago.Gamedata.Kinds.{wave_cleared, giant_killed, tally_robots}
use tf2_archipelago.Gamedata.Locations.{location_by_objective}
use tf2_archipelago.State.Store.{Store, Env}
use tf2_archipelago.Server.Request.{
  Health, ObjectiveRequest, Server, Response, bad_request, no_content, server_error,
}
use tf2_archipelago.Server.Tally.{Envs, post_tally}
use tf2_archipelago.Server.Refused.{post_objective_refused}
use tf2_archipelago.Server.Objective.{post_objective, post_plain, post_wave_kill}
use tf2_archipelago.Server.Recorded.{post_plain_durable, Recorded, IsDurable}
use tf2_archipelago.Server.Answered.{post_wave_kill_recorded}
use tf2_archipelago.Server.Counted.{post_tally_once, post_tally_lost}
use tf2_archipelago.Tests.Game.{small, small_tables, small-IsBuilt, a_giant, giant_found}
use tf2_archipelago.Tests.Store.{works, fails, fresh, fresh-IsCovered}

abbrev session : Health
session = record {
  slot = "TF2";
  missions = "mvm_decoy" ∷ [];
  ticket_importance = "useful";
  victory_caches = false;
  milestone_checks = false;
  class_weapon_slots = false;
  giantsanity = true;
  tanksanity = false;
  death_link = false;
}

abbrev all_work : Envs
all_work = record { first = works; checks = λ n. works; last = fails }

abbrev none_work : Envs
none_work = record { first = fails; checks = λ n. fails; last = fails }

abbrev server : Server
server = record { store = fresh; drift = []; tally_seen = []; failures = [] }

abbrev report : String → ℕ → ℕ → ℤ → ObjectiveRequest
report kind wave index count = record {
  kind = kind;
  pop_file = "mvm_decoy";
  wave = wave;
  count = count;
  session = pos 5;
  id = pos 1;
  index = index;
  waves_total = pos 3;
}

answered :
    (post_plain small all_work session wave_cleared (report "wave_cleared" 1 0 (pos 0)) server).1
    ≡ no_content
unfolding post_plain location_by_objective tf2_archipelago.Gamedata.Tables.mission_by_pop_file
    tf2_archipelago.Gamedata.Locations.wave_location tf2_archipelago.Gamedata.Ids.wave_location_id
    tf2_archipelago.Gamedata.Locations.location_by_id
    tf2_archipelago.Gamedata.Locations.build_locations
    tf2_archipelago.Gamedata.Locations.mission_locations
    tf2_archipelago.Gamedata.Locations.victory_cache_locations
    tf2_archipelago.Gamedata.Locations.wave_kill_locations
    tf2_archipelago.Gamedata.Tables.wave_kills_at
    tf2_archipelago.Gamedata.Locations.wave_giant_location
    tf2_archipelago.Gamedata.Ids.wave_giant_location_id
    tf2_archipelago.Gamedata.Locations.wave_tank_location
    tf2_archipelago.Gamedata.Ids.wave_tank_location_id
    tf2_archipelago.Gamedata.Locations.build_milestones tf2_archipelago.Gamedata.Ids.milestone_id
    tf2_archipelago.Gamedata.Ids.clear_location_id tf2_archipelago.Gamedata.Ids.giant_location_id
    tf2_archipelago.Gamedata.Ids.tank_location_id
    tf2_archipelago.Gamedata.Ids.victory_cache_location_id
    tf2_archipelago.Gamedata.Locations.cache_location
    tf2_archipelago.Gamedata.Locations.clear_location
    tf2_archipelago.Gamedata.Locations.giant_location
    tf2_archipelago.Gamedata.Locations.tank_location tf2_archipelago.State.Store.add_check
    tf2_archipelago.State.Store.persist tf2_archipelago.State.Disk.write_snapshot
    tf2_archipelago.Server.Objective.victory_caches_paid_by
    tf2_archipelago.Server.Observe.note_wave_drift
answered = refl

post_plain_durable_example :
    Recorded
      (location_by_objective small_tables wave_cleared "mvm_decoy" 1)
      (post_plain small all_work session wave_cleared
        (report "wave_cleared" 1 0 (pos 0))
        server).0.store
post_plain_durable_example =
    post_plain_durable small all_work session wave_cleared (report "wave_cleared" 1 0 (pos 0))
      server fresh-IsCovered answered

post_wave_kill_recorded_example :
    let r =
      post_wave_kill small all_work session giant_killed
        (report "giant_killed" 1 1 (pos 0))
        server in
    (r.1 ≡ no_content) × IsDurable a_giant.id r.0.store
post_wave_kill_recorded_example =
    post_wave_kill_recorded small all_work session giant_killed (report "giant_killed" 1 1 (pos 0))
      a_giant server small-IsBuilt fresh-IsCovered refl giant_found refl

abbrev first_tally : Server × Response
first_tally =
    post_tally small none_work session tally_robots (report "tally_robots" 0 0 (pos 30)) server

post_tally_once_example :
    post_tally small all_work session tally_robots
      (report "tally_robots" 0 0 (pos 30))
      first_tally.0
    ≡ (first_tally.0, no_content)
post_tally_once_example =
    post_tally_once small none_work all_work session session tally_robots
      (report "tally_robots" 0 0 (pos 30)) server refl refl

post_tally_lost_example :
    let again =
      post_tally small all_work session tally_robots
        (report "tally_robots" 0 0 (pos 30))
        first_tally.0 in
    (first_tally.1 ≡ server_error)
    × (again.1 ≡ no_content)
    × (value "robots" again.0.store.snap.tallies ≡ value "robots" fresh.snap.tallies)
post_tally_lost_example =
    post_tally_lost small none_work all_work session tally_robots
      (report "tally_robots" 0 0 (pos 30)) 30 server refl refl refl refl refl refl

-- A wave that the mission does not have.
abbrev past_the_end : ObjectiveRequest
past_the_end = report "wave_cleared" 3 0 (pos 0)

refused : (post_objective small all_work session (some past_the_end) server).1 ≡ bad_request
unfolding post_objective tf2_archipelago.Server.Request.objective_kind post_plain
    location_by_objective tf2_archipelago.Gamedata.Tables.mission_by_pop_file
refused = refl

post_objective_refused_example :
    (post_objective small all_work session (some past_the_end) server).0 ≡ server
post_objective_refused_example =
    post_objective_refused small all_work session (some past_the_end) server refused
