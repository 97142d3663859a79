-- ===== src/Fakeroom/Room.antt =====
-- A running test room (`Room`, `reward`, `startItems`, `gift`, `unlockNextMission` and `handle` of
-- fakeroom/fakeroom.go). A method holds the lock while it changes the room, so it is a function from
-- the room before to the room after and what it sends. What `items[rand.IntN(len(items))]` picks when
-- `k` items were given is an argument, `draw k items`.
use tf2_archipelago.Prelude.{
  ℕ, zero, suc, ◌+◌, Option, none, some, Bool, true, false, not, ◌&&◌, List, [], ◌∷◌, String, ◌<>◌,
  nat_eq, if◌then◌else◌, length, contains, get_elem?,
}
use tf2_archipelago.Gamedata.Items.{Item, item_by_id}
use tf2_archipelago.Fakeroom.Tickets.{take_next_ticket}
use tf2_archipelago.Fakeroom.Start.{filler_item}

-- What the run holds and hands out. The switches that slot data announces are `Announced`.
pub record Room : Type 0 where
  pub start : List ℕ
  pub items : List ℕ
  pub next : ℕ
  pub checked : List ℕ
  pub given : ℕ
  pub repeat_rewards : Bool

-- What goes out on the websocket, less the messages that carry neither items nor chat.
pub data Sent : Type 0 where
  items_sent : ℕ → List ℕ → Sent
  said : String → Sent

abbrev Draw : Type 0
Draw = ℕ → List ℕ → ℕ

-- The locations of a report that were not checked before: the checked ones after it, and how many
-- were fresh.
unfoldable pub note_checked : List ℕ → List ℕ → List ℕ × ℕ
note_checked checked [] = (checked, 0)
note_checked checked (l ∷ ls) = elim (contains checked l) [
  | true ↦ note_checked checked ls
  | false ↦ ((note_checked (l ∷ checked) ls).0, (note_checked (l ∷ checked) ls).1 + 1)
]

abbrev pub is_empty : List ℕ → Bool
is_empty [] = true
is_empty (x ∷ xs) = false

-- The room after one more item of the order, or of a draw.
abbrev pub hand_next : Room → Room
hand_next r = record r { next = r.next + 1; given = r.given + 1 }

abbrev pub hand_drawn : Room → Room
hand_drawn r = record r { given = r.given + 1 }

-- The item that a round of the loop hands out, and the room after it; `none` ends the loop.
unfoldable pub pick : (ℕ → List ℕ → ℕ) → Room → Option (ℕ × Room)
pick draw r = elim (get_elem? r.items r.next) [
  | some item ↦ some (item, hand_next r)
  | none ↦
      if r.repeat_rewards && not (is_empty r.items)
      then some (draw r.given r.items, hand_drawn r)
      else none
]

-- The loop over the fresh locations: what is handed out, and the room after it.
unfoldable pub hand_out : (ℕ → List ℕ → ℕ) → ℕ → Room → List ℕ × Room
hand_out draw zero r = ([], r)
hand_out draw (suc n) r = elim (pick draw r) [
  | some p ↦ (p.0 ∷ (hand_out draw n p.1).0, (hand_out draw n p.1).1)
  | none ↦ ([], r)
]

abbrev pub send_items : ℕ → List ℕ → List Sent
send_items index [] = []
send_items index (x ∷ xs) = items_sent index (x ∷ xs) ∷ []

-- `reward`.
unfoldable pub reward : (ℕ → List ℕ → ℕ) → List ℕ → Room → Room × List Sent
reward draw locations r =
    let (checked, fresh) = note_checked r.checked locations in
    let (handed, r') = hand_out draw fresh (record r { checked = checked }) in
    (r', send_items r.given handed)

-- `startItems`, with the message that `handle` sends after `Connected`.
unfoldable pub connect : Room → Room × List Sent
connect r = (record r { given = length r.start }, items_sent 0 r.start ∷ [])

-- `gift`: a table with no item panics in `fillerItem`, which leaves nothing sent.
unfoldable pub gift : List Item → Room → Room × List Sent
gift table r = (
  record r { given = r.given + 1 },
  elim (filler_item table) [ some item ↦ items_sent r.given (item ∷ []) ∷ [] | none ↦ [] ],
)

abbrev pub name_of : Option Item → String
name_of none = "a mission"
name_of (some it) = it.name

unfoldable pub unlocked : List Item → Room → Option (List ℕ × ℕ) → Room × List Sent
unlocked table r none = (r, said "Every mission this run holds is already unlocked." ∷ [])
unlocked table r (some (items, ticket)) = (
  record r { items = items; next = r.next + 1; given = r.given + 1 },
  said ("Unlocking " <> name_of (item_by_id table ticket) <> ".")
      ∷ items_sent r.given (ticket ∷ [])
      ∷ [],
)

-- `unlockNextMission`.
unfoldable pub unlock_next_mission : List Item → Room → Room × List Sent
unfolding unlocked
unlock_next_mission table r = unlocked table r (take_next_ticket table r.items r.next)
