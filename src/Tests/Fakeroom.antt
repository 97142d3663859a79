-- ===== src/Tests/Fakeroom.antt =====
-- A short run of the test room, and its theorems at it.
use mathlib.Core.List.{Memᴰ}
use mathlib.Core.List.{Permᴰ}
use mathlib.Core.List.Permᴰ as Perm
use tf2_archipelago.Prelude.{
  ℕ, ◌-◌, ◌≡◌, ◌⊎◌, refl, inl, inr, none, some, true, false, List, [], ◌∷◌, String, length,
  contains, nat_eq,
}
use tf2_archipelago.Prelude.Int.{pos}
use tf2_archipelago.Gamedata.Community.{
  Community, mission_pack, mission_requirement, mission_server_mod, is_community_mission,
}
use tf2_archipelago.Availability.{planned, playable_on, reason_of}
use tf2_archipelago.State.Disk.{written}
use tf2_archipelago.State.Store.{Env}
use tf2_archipelago.Session.Goal.{SlotData, validate}
use tf2_archipelago.Fakeroom.Order.{unlock_order, trap_keys}
use tf2_archipelago.Fakeroom.Order.Pool.{copies, pooled, unlock_order-copies}
use tf2_archipelago.Fakeroom.Room.{Room, Sent, items_sent, connect, reward}
use tf2_archipelago.Fakeroom.Rewards.{reward_again}
use tf2_archipelago.Fakeroom.Reply.{Words}
use tf2_archipelago.Fakeroom.Step.{
  Arrival, location_checks, say_line, traffic, session, receive, deliver,
}
use tf2_archipelago.Fakeroom.Step.Held.{items_of, BeginsWith, session_held}
use tf2_archipelago.Fakeroom.Missions.{
  Wanted, default_missions, pool_of, admits, run_length, start_first,
}
use tf2_archipelago.Fakeroom.Accepted.{announced, announced_accepted}
use tf2_archipelago.Tests.Game.{small, small_tables, small-IsBuilt}
use tf2_archipelago.Tests.Store.{works, fresh}

-- A ticket, the first class and a weapon slot.
abbrev held : List ℕ
held = 7443000001 ∷ 7443000101 ∷ 7443000201 ∷ []

unlock_order-copies_example :
    (l : List ℕ) × (unlock_order small held [] ≡ some l)
    × ((id : ℕ) → copies id l ≡ pooled small_tables (trap_keys []) small.items id - copies id held)
unlock_order-copies_example = unlock_order-copies small held []

abbrev first_drawn : ℕ → List ℕ → ℕ
first_drawn k [] = 0
first_drawn k (x ∷ xs) = x

abbrev running : Room
running = record {
  start = held;
  items = 7443000102 ∷ 7443000103 ∷ [];
  next = 0;
  checked = [];
  given = 0;
  repeat_rewards = true;
}

abbrev plain : Words
plain = record { trim_space = λ s. s; to_lower = λ s. s; equal_fold = λ s t. false }

abbrev evening : List Arrival
evening =
    location_checks (7442000101 ∷ 7442000102 ∷ [])
    ∷ traffic 1 "Ana" "Factorio"
    ∷ say_line "!missing"
    ∷ location_checks (7442000101 ∷ 7442000199 ∷ [])
    ∷ []

abbrev always : ℕ → Env
always k = works

always_written : (k : ℕ) → (always k).write ≡ written
always_written k = refl

-- The starting inventory comes a second time.
abbrev got : List Sent
got = items_sent 0 running.start ∷ []

got-sent :
    (m : Sent)
    → Memᴰ m got
    → Memᴰ m (session first_drawn plain small ("mvm_decoy" ∷ []) evening running).1
unfolding session connect
got-sent m (Memᴰ.head e) = Memᴰ.head e
got-sent m (Memᴰ.tail i) = elim i [ ]

session_held_example :
    let room = session first_drawn plain small ("mvm_decoy" ∷ []) evening running in
    let bridge = receive small always 0 room.1 fresh in
    (bridge.1 ≡ none)
    × (bridge.0.snap.items ≡ items_of room.1)
    × (room.0.given ≡ length bridge.0.snap.items)
    × BeginsWith
        (items_of room.1)
        (deliver small always 0 (items_sent 0 running.start ∷ got) fresh).snap.items
session_held_example =
    session_held first_drawn plain small ("mvm_decoy" ∷ []) evening always running fresh got
      small-IsBuilt always_written got-sent

abbrev reports : List ℕ
reports = 7442000101 ∷ 7442000102 ∷ []

sent_before :
    (l : ℕ)
    → contains reports l ≡ true
    → (contains reports l ≡ true) ⊎ (contains running.checked l ≡ true)
sent_before l h = inl h

reward_again_example :
    reward first_drawn reports (reward first_drawn reports running).0
    ≡ ((reward first_drawn reports running).0, [])
reward_again_example = reward_again first_drawn reports reports running sent_before

abbrev stock : Community
stock = record { requirements = []; packs = []; loadouts = [] }

abbrev wanted : Wanted
wanted = record {
  count = pos 3;
  excluded = [];
  difficulty = "normal";
  start_mission = "mvm_decoy";
  server = planned [] [];
  exclude_community = true;
}

abbrev unshuffled : List String → List String
unshuffled ps = ps

unshuffled-Permᴰ : (ps : List String) → Permᴰ (unshuffled ps) ps
unshuffled-Permᴰ ps = Perm.refl ps

drawn : default_missions unshuffled stock small_tables wanted ≡ some ("mvm_decoy" ∷ [])
unfolding default_missions pool_of playable_on reason_of mission_pack mission_requirement
    mission_server_mod admits is_community_mission run_length start_first
drawn = refl

announced_accepted_example :
    (d : SlotData) × (announced false "missionsanity" ("mvm_decoy" ∷ []) ≡ some d)
    × (validate small_tables d ≡ true)
announced_accepted_example =
    announced_accepted stock small_tables wanted unshuffled false "missionsanity" ("mvm_decoy" ∷ [])
      unshuffled-Permᴰ drawn (inr (inr refl))
