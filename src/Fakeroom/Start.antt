-- ===== src/Fakeroom/Start.antt =====
-- The inventory that a run of the test room starts with (`roomStartingInventory`,
-- `startingInventory`, `missionTickets`, `classItem`, `firstItemOfKind` and `fillerItem` of
-- fakeroom/fakeroom.go). `strings.EqualFold` is an argument, `equal_fold`.
use tf2_archipelago.Prelude.{
  ℕ, Option, none, some, Bool, true, false, ◌&&◌, List, [], ◌∷◌, ◌++◌, String, nat_eq, string_eq,
  ◌==◌, if◌then◌else◌, first,
}
use tf2_archipelago.Gamedata.Kinds.{ItemKind, class_item, weapon_slot}
use tf2_archipelago.Gamedata.Tables.{Mission, Class, classes, mission_by_pop_file}
use tf2_archipelago.Gamedata.Items.{Item, Classification, filler}
use tf2_archipelago.Gamedata.Game.{Game}
use tf2_archipelago.Fakeroom.Tickets.{is_mission_ticket}

abbrev is_class_item : ItemKind → Bool
is_class_item class_item = true
is_class_item _ = false

abbrev is_weapon_slot : ItemKind → Bool
is_weapon_slot weapon_slot = true
is_weapon_slot _ = false

abbrev pub is_filler : Classification → Bool
is_filler filler = true
is_filler _ = false

-- The id of an item that was found, as a list of one.
abbrev id_of : Option Item → List ℕ
id_of none = []
id_of (some it) = it.id ∷ []

-- `firstItemOfKind`, the kind as its test.
first_item : (ItemKind → Bool) → List Item → List ℕ
first_item is_kind items = id_of (first (λ it. is_kind it.kind) items)

ticket_of : List Item → Option Mission → List ℕ
ticket_of items none = []
ticket_of items (some m) =
    id_of (first (λ it. is_mission_ticket it.kind && it.mission == m.id) items)

-- `missionTickets`.
unfoldable pub mission_tickets : Game → List String → List ℕ
unfolding ticket_of
mission_tickets g [] = []
mission_tickets g (p ∷ ps) =
    ticket_of g.items (mission_by_pop_file g.tables p) ++ mission_tickets g ps

-- The loop of `classItem`: a class of the name that no item grants lets it go on.
class_item_from : (String → String → Bool) → List Item → String → List Class → Option ℕ
class_item_from equal_fold items name [] = none
class_item_from equal_fold items name (c ∷ cs) =
    let rest = class_item_from equal_fold items name cs in
    if equal_fold c.name name
    then elim (first (λ it. is_class_item it.kind && it.class_id == c.id) items) [
      | some it ↦ some it.id
      | none ↦ rest
    ]
    else rest

-- `classItem`.
unfoldable pub class_item_named : (String → String → Bool) → List Item → String → Option ℕ
unfolding class_item_from
class_item_named equal_fold items name =
    if name == "" then none else class_item_from equal_fold items name classes

start_class : List Item → Option ℕ → List ℕ
unfolding first_item
start_class items (some id) = id ∷ []
start_class items none = first_item is_class_item items

-- `startingInventory`.
unfoldable pub starting_inventory : (String → String → Bool) → Game → String → String → List ℕ
unfolding start_class first_item
starting_inventory equal_fold g pop class =
    mission_tickets g (pop ∷ [])
    ++ (start_class g.items (class_item_named equal_fold g.items class)
        ++ first_item is_weapon_slot g.items)

-- `roomStartingInventory`: the read of the first of no missions is a panic.
unfoldable pub room_starting_inventory :
    (String → String → Bool) → Game → List String → String → Bool → Option (List ℕ)
room_starting_inventory equal_fold g [] class unlock_missions = none
room_starting_inventory equal_fold g (p ∷ ps) class unlock_missions =
    let start = starting_inventory equal_fold g p class in
    some (if unlock_missions then start ++ mission_tickets g ps else start)

-- `fillerItem`: a read of the first of no items is a panic, which a table of items rules out.
unfoldable pub filler_item : List Item → Option ℕ
filler_item items = elim (first (λ it. is_filler it.classification) items) [
  | some it ↦ some it.id
  | none ↦ elim items [ [] ↦ none | it ∷ rest ↦ some it.id ]
]
