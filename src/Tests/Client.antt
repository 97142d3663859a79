-- ===== src/Tests/Client.antt =====
-- A client of a small seed, and theorems of the session's handlers at it.
use mathlib.Core.List.{Memᴰ}
use tf2_archipelago.Prelude.{
  ℕ, ◌<◌, ◌≤◌, ◌≡◌, none, some, Bool, true, false, List, [], ◌∷◌, ◌++◌, String, length, take,
  contains, nat_eq, string_eq,
}
use tf2_archipelago.Prelude.Int.{pos}
use tf2_archipelago.Gamedata.Community.{Community}
use tf2_archipelago.Availability.{planned}
use tf2_archipelago.State.Snapshot.{elems}
use tf2_archipelago.State.Disk.{written, Move}
use tf2_archipelago.Feed.DeathLink as DeathLink
use tf2_archipelago.Feed.DeathLink.{appended}
use tf2_archipelago.Feed.Chat.Log as Log
use tf2_archipelago.Session.Goal.{goal_reached}
use tf2_archipelago.Session.Client.{
  Client, Seed, Connected, Turn, sync, location_checks, permanent, on_connected, on_received_items,
  report,
}
use tf2_archipelago.Session.Client.Bound.{IsPlayed, on_connected_bound}
use tf2_archipelago.Session.Client.Report.{is_told, report_once}
use tf2_archipelago.Session.Client.Received.{on_received_items_outcome}
use tf2_archipelago.State.Store.Invariant.{Reach}
use tf2_archipelago.State.Store.{Env}
use tf2_archipelago.Tests.Game.{small, small_tables}
use tf2_archipelago.Tests.Store.{works, one_check}

abbrev seed : Seed
seed = record {
  shape = record {
    format_version = pos 8;
    missions = "mvm_decoy" ∷ [];
    start_mission = "mvm_decoy";
    goal = "missionsanity";
    goal_mission = "mvm_decoy";
    missionsanity_target = pos 1;
    ticket_importance = "progression";
  };
  victory_caches = false;
  milestone_checks = false;
  class_weapon_slots = false;
  giantsanity = false;
  tanksanity = false;
  death_link = true;
}

abbrev client : Client
client = record {
  slot_name = "Ana";
  server = some (planned [] []);
  store = one_check;
  chat = Log.new (pos 10);
  deaths = DeathLink.new (pos 10);
  died = none;
  room_seed = "a seed";
  connected = false;
  seed = seed;
  names = none;
  fetched = [];
  last_error = false;
  ready = false;
}

abbrev stock_missions : Community
stock_missions = record { requirements = []; packs = []; loadouts = [] }

abbrev hello : Connected
hello = record { slot_seed = some seed; checked = 7442000101 ∷ []; players = []; slots = [] }

abbrev same_list : List String → List String
same_list xs = xs

abbrev sends_all : ℕ → Bool
sends_all k = true

abbrev turn : Turn
turn = record {
  binding = record { env = works; archive = Move.moved; back = true };
  adopting = works;
  sends = sends_all;
  sort = same_list;
}

on_connected_bound_example :
    ((on_connected stock_missions small turn hello client).2 ≡ some permanent
      → on_connected stock_missions small turn hello client ≡ (client, [], some permanent))
    × ((on_connected stock_missions small turn hello client).2 ≡ none
        → (s : Seed) × (hello.slot_seed ≡ some s)
          × IsPlayed stock_missions small client s
              (on_connected stock_missions small turn hello client).0)
on_connected_bound_example = on_connected_bound stock_missions small turn hello client

abbrev same_text : List ℕ → List ℕ
same_text bs = bs

report_once_example :
    let r = report same_text (87 ∷ []) small works true true client in
    (true ≡ true
      → (id : ℕ) → contains client.store.snap.checks id ≡ true
      → Memᴰ (location_checks client.store.snap.checks) r.1)
    × (is_told r.1 ≡ true
        → (goal_reached small_tables client.seed.shape (elems client.store.snap.played) ≡ true)
          × (client.store.snap.goal_sent ≡ false))
    × (is_told r.1 ≡ true
        → r.2 ≡ none
        → (later : Client) (again : Env) (again_first again_second : Bool)
        → Reach small r.0.store later.store
        → is_told (report same_text (87 ∷ []) small again again_first again_second later).1 ≡ false)
report_once_example = report_once same_text (87 ∷ []) small works true true client

on_received_items_outcome_example :
    let r = on_received_items small works true (pos 2) (7443000001 ∷ []) client in
    (length client.store.snap.items < 2 → true ≡ true → r ≡ (client, sync ∷ [], none))
    × (2 ≤ length client.store.snap.items
        → works.write ≡ written
        → (r.0.store.snap.items ≡ take 2 client.store.snap.items ++ (7443000001 ∷ []))
          × (r.1 ≡ [])
          × (r.2 ≡ none))
on_received_items_outcome_example =
    on_received_items_outcome small works true 2 (7443000001 ∷ []) client
