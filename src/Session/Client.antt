-- ===== src/Session/Client.antt =====
-- The session's handlers (bridge/internal/apclient/client.go, deathlink.go and refusal.go). A handler
-- is a function from the client before to the client after, what it sent, and the error that ends
-- the session. Whether its writes to the websocket succeed is an argument, one answer for each.
pub mod Bound
pub mod Report
pub mod Received
use tf2_archipelago.Prelude.{
  ℕ, zero, suc, ◌+◌, Option, none, some, Bool, true, false, not, ◌&&◌, ◌||◌, List, [], ◌∷◌, ◌++◌,
  String, ◌<>◌, nat_eq, string_eq, ◌==◌, if◌then◌else◌, contains,
}
use tf2_archipelago.Prelude.Int.{ℤ}
use tf2_archipelago.Gamedata.Tables.{Mission, mission_by_pop_file}
use tf2_archipelago.Gamedata.Game.{Game}
use tf2_archipelago.Gamedata.Community.{Community}
use tf2_archipelago.Availability.{GameServer, check, is_playable, why}
use tf2_archipelago.State.Snapshot.{elems}
use tf2_archipelago.State.Store.{
  Store, Env, Error, desync, apply_items, adopt_checks, mark_goal_sent,
}
use tf2_archipelago.State.Bind.{BindEnv, Rebind, bind_seed}
use tf2_archipelago.Feed.DeathLink as DeathLink
use tf2_archipelago.Feed.DeathLink.{Feed}
use tf2_archipelago.Feed.Chat.Log as Log
use tf2_archipelago.Feed.Chat.Log.{Log}
use tf2_archipelago.Session.Goal.{SlotData, validate, goal_reached}
use tf2_archipelago.Session.Pace.{take_death}
use tf2_archipelago.Session.Names.{
  NameBook, Player, SlotInfo, GameNames, remember_names, names_missing, take_names, or_new_book,
}

-- The seed as `SlotData` has it whole: what `validate` and the goal read, and the switches.
pub record Seed : Type 0 where
  pub shape : SlotData
  pub victory_caches : Bool
  pub milestone_checks : Bool
  pub class_weapon_slots : Bool
  pub giantsanity : Bool
  pub tanksanity : Bool
  pub death_link : Bool

-- `Client`, with the store and the rings that its options hold; `ready` is the channel's being
-- closed.
pub record Client : Type 0 where
  pub slot_name : String
  pub server : Option GameServer
  pub store : Store
  pub chat : Log
  pub deaths : Feed
  pub died : Option ℕ
  pub room_seed : String
  pub connected : Bool
  pub seed : Seed
  pub names : Option NameBook
  pub fetched : List String
  pub last_error : Bool
  pub ready : Bool

-- What goes out on the websocket.
pub data Packet : Type 0 where
  connect sync status_goal connect_update : Packet
  get_data_package : String → Packet
  location_checks : List ℕ → Packet
  bounce : String → String → Packet

-- Why a handler ends the session: a permanent one is not retried.
pub data Failure : Type 0 where
  permanent send_failed no_seed_named : Failure
  store_failed : Error → Failure

abbrev pub Handled : Type 0
Handled = Client × List Packet × Option Failure

abbrev pub set_store : Client → Store → Client
set_store c s = record c { store = s }

-- `onRoomInfo`.
unfoldable pub on_room_info : Bool → String → Client → Handled
on_room_info true seed c = (record c { room_seed = seed }, connect ∷ [], none)
on_room_info false seed c = (record c { room_seed = seed }, [], some send_failed)

-- `onDataPackage`.
unfoldable pub on_data_package : List GameNames → Client → Handled
on_data_package games c =
    let (book, fetched) = take_names games (or_new_book c.names) c.fetched in
    (record c { names = some book; fetched = fetched }, [], none)

refused_mission : Community → GameServer → Option Mission → List Mission
refused_mission comm server none = []
refused_mission comm server (some m) = if is_playable (check comm server m) then [] else m ∷ []

refused : Community → Game → GameServer → List String → List Mission
unfolding refused_mission
refused comm g server [] = []
refused comm g server (p ∷ ps) =
    refused_mission comm server (mission_by_pop_file g.tables p) ++ refused comm g server ps

-- `unplayable`: the missions that the error names, of which there are none where it is nil.
unfoldable pub unplayable : Community → Game → Option GameServer → List String → List Mission
unfolding refused
unplayable comm g none ps = []
unplayable comm g (some server) ps = refused comm g server ps

abbrev pub no_mission : List Mission → Bool
no_mission [] = true
no_mission (m ∷ ms) = false

-- What `Connected` carries; slot data that does not parse is `none`.
pub record Connected : Type 0 where
  pub slot_seed : Option Seed
  pub checked : List ℕ
  pub players : List Player
  pub slots : List SlotInfo

-- What the surroundings do while `Connected` is handled.
pub record Turn : Type 0 where
  pub binding : BindEnv
  pub adopting : Env
  pub sends : ℕ → Bool
  pub sort : List String → List String

-- The requests for names, one game each; one that fails is let go.
unfoldable pub ask_names : (ℕ → Bool) → ℕ → List String → List Packet
ask_names sends k [] = []
ask_names sends k (game ∷ games) =
    let rest = ask_names sends (k + 1) games in
    if sends k then get_data_package game ∷ rest else rest

-- `claimDeathLink`, where the seed asks for it.
abbrev pub claim : Bool → Bool → Client → List Packet → Handled
claim false sends c asked = (c, asked, none)
claim true true c asked = (c, asked ++ (connect_update ∷ []), none)
claim true false c asked = (c, asked, some send_failed)

-- The end of `onConnected`: the session is announced, and the tag claimed.
abbrev pub announce : Bool → Seed → Client → List Packet → Handled
announce sends seed c asked =
    claim seed.death_link sends
      (record c { connected = true; seed = seed; last_error = false; ready = true }) asked

-- `onConnected` once the seed is bound: the names are asked for, and the server's checks adopted,
-- whose failure does not end the session.
unfoldable pub settle : Game → Turn → Connected → Seed → Client → Handled
settle g t p seed c =
    let (book, games) = remember_names t.sort p.players p.slots c.names in
    let missing = names_missing c.fetched games in
    let store = (adopt_checks g t.adopting p.checked c.store).0 in
    announce (t.sends 0) seed (record c { names = some book; store = store })
      (ask_names t.sends 1 missing)

after_bind : Game → Turn → Connected → Seed → Client → Store × Rebind × Option Error → Handled
after_bind g t p seed c (s, rebind, some e) = (set_store c s, [], some (store_failed e))
after_bind g t p seed c (s, rebind, none) = settle g t p seed (set_store c s)

-- `Client.bindSeed`, and what `onConnected` does after it.
unfoldable pub bind_room : Game → Turn → Connected → Seed → Client → Handled
unfolding after_bind
bind_room g t p seed c =
    if c.room_seed == ""
    then (c, [], some no_seed_named)
    else after_bind g t p seed c (bind_seed g t.binding c.room_seed c.store)

connected_seed : Community → Game → Turn → Connected → Client → Option Seed → Handled
connected_seed comm g t p c none = (c, [], some permanent)
connected_seed comm g t p c (some seed) =
    if validate g.tables seed.shape && no_mission (unplayable comm g c.server seed.shape.missions)
    then bind_room g t p seed c
    else (c, [], some permanent)

-- `onConnected`.
unfoldable pub on_connected : Community → Game → Turn → Connected → Client → Handled
unfolding connected_seed
on_connected comm g t p c = connected_seed comm g t p c p.slot_seed

-- `onConnectionRefused`.
abbrev pub on_connection_refused : Client → Handled
on_connection_refused c = (c, [], some permanent)

received : Bool → Client → Store × Option Error → Handled
received sends c (s, none) = (set_store c s, [], none)
received true c (s, some desync) = (set_store c s, sync ∷ [], none)
received false c (s, some desync) = (set_store c s, [], some send_failed)
received sends c (s, some e) = (set_store c s, [], some (store_failed e))

-- `onReceivedItems`.
unfoldable pub on_received_items : Game → Env → Bool → ℤ → List ℕ → Client → Handled
unfolding received
on_received_items g env sends index ids c = received sends c (apply_items g env index ids c.store)

-- What a bounce carries; data that does not parse is `none`.
pub record Bounced : Type 0 where
  pub tags : List String
  pub death : Option (String × String)

hear : Client → Option (String × String) → Client
hear c none = c
hear c (some (source, cause)) =
    if source == c.slot_name
    then c
    else record c { deaths = DeathLink.append c.deaths source cause }

-- `onBounced`.
unfoldable pub on_bounced : Bounced → Client → Handled
unfolding hear
on_bounced b c =
    if contains b.tags "DeathLink" && c.seed.death_link
    then (hear c b.death, [], none)
    else (c, [], none)

pub data DieError : Type 0 where
  not_connected death_link_off died_too_much write_failed : DieError

died_at : Bool → String → Client → Option ℕ × Bool → Client × List Packet × Option DieError
died_at sends cause c (last, false) = (record c { died = last }, [], some died_too_much)
died_at true cause c (last, true) = (record c { died = last }, bounce c.slot_name cause ∷ [], none)
died_at false cause c (last, true) = (record c { died = last }, [], some write_failed)

-- `Die`.
unfoldable pub die : ℕ → Bool → String → Client → Client × List Packet × Option DieError
unfolding died_at
die at sends cause c =
    if not c.connected
    then (c, [], some not_connected)
    else if not c.seed.death_link
    then (c, [], some death_link_off)
    else died_at sends cause c (take_death at c.died)

marked : Client → Store × Option Error → List Packet → Handled
marked c (s, none) sent = (set_store c s, sent, none)
marked c (s, some e) sent = (set_store c s, sent, some (store_failed e))

-- The win is told, in the chat too, and marked.
tell_goal : (List ℕ → List ℕ) → List ℕ → Env → Bool → List Packet → Client → Handled
unfolding marked
tell_goal trim line env false sent c = (c, sent, some send_failed)
tell_goal trim line env true sent c =
    marked (record c { chat = Log.append trim c.chat line }) (mark_goal_sent env c.store)
      (sent ++ (status_goal ∷ []))

-- Whether the win is to be told.
abbrev pub is_goal_due : Game → Client → Bool
is_goal_due g c =
    not c.store.snap.goal_sent && goal_reached g.tables c.seed.shape (elems c.store.snap.played)

report_goal : (List ℕ → List ℕ) → List ℕ → Game → Env → Bool → List Packet → Client → Handled
unfolding tell_goal
report_goal trim line g env sends sent c =
    if is_goal_due g c then tell_goal trim line env sends sent c else (c, sent, none)

report_checks : (List ℕ → List ℕ) → List ℕ → Game → Env → Bool → Bool → List ℕ → Client → Handled
unfolding report_goal
report_checks trim line g env first second [] c = report_goal trim line g env second [] c
report_checks trim line g env false second (x ∷ xs) c = (c, [], some send_failed)
report_checks trim line g env true second (x ∷ xs) c =
    report_goal trim line g env second (location_checks (x ∷ xs) ∷ []) c

-- `report`, where `line` is the chat's line on the win as bytes, and the two flags say whether the
-- writes of the checks and of the win succeed.
unfoldable pub report : (List ℕ → List ℕ) → List ℕ → Game → Env → Bool → Bool → Client → Handled
unfolding report_checks
report trim line g env first second c =
    report_checks trim line g env first second c.store.snap.checks c

-- `setDisconnected`, and what a new session starts with.
abbrev pub set_disconnected : Bool → Client → Client
set_disconnected failed c = record c {
  connected = false;
  last_error = if failed then true else c.last_error;
}

abbrev pub start_session : Client → Client
start_session c = record c { room_seed = ""; ready = false }
