-- ===== src/Fakeroom/Step.antt =====
-- A room and the bridge that plays in it: what the room sends after a message or a turn of its own,
-- and what the bridge's store makes of it (`handle` and `traffic` of fakeroom/fakeroom.go, with
-- `ApplyItems` of bridge/internal/state/state.go). Messages are read in the order in which the room
-- took their indices.
pub mod Held
use tf2_archipelago.Prelude.{
  ℕ, zero, suc, ◌+◌, ◌%◌, ◌≡◌, Option, none, some, Bool, true, false, List, [], ◌∷◌, ◌++◌, String,
  ◌<>◌, nat_eq, ◌==◌, if◌then◌else◌,
}
use tf2_archipelago.Prelude.Int.{pos}
use tf2_archipelago.Gamedata.Items.{Item}
use tf2_archipelago.Gamedata.Game.{Game}
use tf2_archipelago.State.Store.{Store, Env, Error, apply_items}
use tf2_archipelago.Fakeroom.Room.{
  Room, Sent, items_sent, said, reward, connect, gift, unlock_next_mission,
}
use tf2_archipelago.Fakeroom.Reply.{Words, answer}

-- What a running room answers: a report, a line of chat, any other message, and a turn of the
-- traffic with the player and the game that it draws.
pub data Arrival : Type 0 where
  location_checks : List ℕ → Arrival
  say_line : String → Arrival
  other : Arrival
  traffic : ℕ → String → String → Arrival

-- One turn of the loop of `traffic`, less the `Bounced` message of a death.
unfoldable pub traffic_turn : List Item → ℕ → String → String → Room → Room × List Sent
traffic_turn table turn who game r =
    if turn % 3 == 0
    then (r, said (who <> " found their Hookshot (" <> game <> ")") ∷ [])
    else if turn % 3 == 1
    then gift table r
    else (r, said (who <> " died in " <> game) ∷ [])

-- `handle`, less `Connect`, and the turns of `traffic`.
unfoldable pub answer_message :
    (ℕ → List ℕ → ℕ) → Words → Game → List String → Arrival → Room → Room × List Sent
answer_message draw w g missions (location_checks ls) r = reward draw ls r
answer_message draw w g missions (say_line text) r = answer w g missions text r
answer_message draw w g missions other r = (r, [])
answer_message draw w g missions (traffic turn who game) r = traffic_turn g.items turn who game r

apply_on : Game → (ℕ → Env) → ℕ → List Sent → Store × Option Error → Store × Option Error
apply_on g envs k [] p = p
apply_on g envs k (said text ∷ ms) p = apply_on g envs k ms p
apply_on g envs k (items_sent index ids ∷ ms) (s, some e) = (s, some e)
apply_on g envs k (items_sent index ids ∷ ms) (s, none) =
    apply_on g envs (k + 1) ms (apply_items g (envs k) (pos index) ids s)

-- What the store makes of the items that were sent, up to the first error.
unfoldable pub receive : Game → (ℕ → Env) → ℕ → List Sent → Store → Store × Option Error
unfolding apply_on
receive g envs k ms s = apply_on g envs k ms (s, none)

-- Everything sent on a connection: the starting inventory, then the answers.
unfoldable pub answer_all :
    (ℕ → List ℕ → ℕ) → Words → Game → List String → List Arrival → Room → Room × List Sent
answer_all draw w g missions [] r = (r, [])
answer_all draw w g missions (m ∷ ms) r =
    let (r', sent) = answer_message draw w g missions m r in
    let (r'', more) = answer_all draw w g missions ms r' in (r'', sent ++ more)

unfoldable pub session :
    (ℕ → List ℕ → ℕ) → Words → Game → List String → List Arrival → Room → Room × List Sent
session draw w g missions ms r =
    let (r', start) = connect r in
    let (r'', sent) = answer_all draw w g missions ms r' in (r'', start ++ sent)

-- What the store makes of messages in whatever order they come: one that would leave a gap is not
-- taken, a resend is asked for, which the room drops, and the session goes on.
unfoldable pub deliver : Game → (ℕ → Env) → ℕ → List Sent → Store → Store
deliver g envs k [] s = s
deliver g envs k (said text ∷ ms) s = deliver g envs k ms s
deliver g envs k (items_sent index ids ∷ ms) s =
    deliver g envs (k + 1) ms (apply_items g (envs k) (pos index) ids s).0
