-- ===== src/State/Grants.antt =====
-- Grants and unlocks (bridge/internal/state/grants.go): what the received items mean to the plugin.
pub mod Stable
use tf2_archipelago.Prelude.{
  ℕ, ◌+◌, Option, none, some, Bool, false, not, ◌&&◌, List, [], ◌∷◌, ◌++◌, String, ◌<>◌, nat_eq,
  string_eq, ◌==◌, if◌then◌else◌, contains, get_elem?,
}
use tf2_archipelago.Prelude.Dict.{Dict, lookup, insert, value}
use tf2_archipelago.Gamedata.Kinds.{
  ItemKind, mission_ticket, class_item, weapon_slot, credits, weapon_buff, trap, server_setting,
  trophy, class_weapon_slot, bot_card, item_key, item_kinds, one_shot, granted,
}
use tf2_archipelago.Gamedata.Tables.{
  Class, WeaponSlot, weapon_slots, weapon_slot_by_id, class_by_id, slot_for_copy, trap_by_id,
  server_setting_by_id, weapon_buff_by_id, mission_by_id,
}
use tf2_archipelago.Gamedata.Items.{Item, item_by_id}
use tf2_archipelago.Gamedata.Game.{Game}

pub record Grant : Type 0 where
  pub seq : ℕ
  pub kind : String
  pub key : String
  pub name : String
  pub amount : ℕ
  pub is_one_shot : Bool

-- `Unlocks`; the flag `ClassWeaponSlots` is put in by the server.
pub record Unlocks : Type 0 where
  pub resume_from : ℕ
  pub snapshot_seq : ℕ
  pub by_kind : Dict String (List String)
  pub class_weapon_slots : Bool

-- A grant of a kind, with the number and the effect mark that `grantsFrom` fills in still zero.
abbrev keyed : ItemKind → String → String → Grant
keyed kind key name = record {
  seq = 0;
  kind = item_key kind;
  key = key;
  name = name;
  amount = 0;
  is_one_shot = false;
}

-- The slot that a class item opens: the one it names, or the next of the class.
opened_slot : Class → ℕ → ℕ → Option WeaponSlot
opened_slot c slot copies =
    if slot == 0 then slot_for_copy c (copies + 1) else weapon_slot_by_id slot

class_slot_grant : Class → Option WeaponSlot → Option Grant
class_slot_grant c none = none
class_slot_grant c (some s) =
    some (keyed class_weapon_slot (c.key <> "/" <> s.key) (c.name <> ": " <> s.name))

-- `grantFor`, by the item's kind.
grant_of : Game → ItemKind → Item → ℕ → ℕ → Option Grant
unfolding opened_slot class_slot_grant
grant_of g class_weapon_slot it slots copies = elim (class_by_id it.class_id) [
  | some c ↦ class_slot_grant c (opened_slot c it.slot copies)
  | none ↦ none
]
grant_of g mission_ticket it slots copies = elim (mission_by_id g.tables it.mission) [
  | some m ↦ some (keyed mission_ticket m.pop_file m.name)
  | none ↦ none
]
grant_of g class_item it slots copies = elim (class_by_id it.class_id) [
  | some c ↦ some (keyed class_item c.key c.name)
  | none ↦ none
]
grant_of g weapon_slot it slots copies = elim (get_elem? weapon_slots slots) [
  | some s ↦ some (keyed weapon_slot s.key s.name)
  | none ↦ none
]
grant_of g credits it slots copies = some (record (keyed credits "" it.name) { amount = it.credit })
grant_of g weapon_buff it slots copies = elim (weapon_buff_by_id g.tables it.buff) [
  | some b ↦ some (keyed weapon_buff b.key it.name)
  | none ↦ none
]
grant_of g trap it slots copies = elim (trap_by_id it.trap_id) [
  | some t ↦ some (keyed trap t.key it.name)
  | none ↦ none
]
grant_of g server_setting it slots copies = elim (server_setting_by_id it.setting) [
  | some s ↦ some (keyed server_setting s.key it.name)
  | none ↦ none
]
grant_of g bot_card it slots copies = some (keyed bot_card it.name it.name)
grant_of g trophy it slots copies = none

pub grant_for : Game → Item → ℕ → ℕ → Option Grant
unfolding grant_of
grant_for g it slots copies = grant_of g it.kind it slots copies

-- The variables of the loop of `grantsFrom`.
pub record Progress : Type 0 where
  pub index : ℕ
  pub slots : ℕ
  pub class_slots : Dict ℕ ℕ

abbrev pub start : Progress
start = record { index = 0; slots = 0; class_slots = [] }

-- What a grant counts towards: only the progressive items are counted.
counted : Item → ItemKind → Progress → Progress
counted it weapon_slot p = record p { slots = p.slots + 1 }
counted it class_weapon_slot p =
    if it.slot == 0
    then record p {
      class_slots = insert it.class_id (value it.class_id p.class_slots + 1) p.class_slots;
    }
    else p
counted it _ p = p

abbrev pub next_index : Progress → Progress
next_index p = record p { index = p.index + 1 }

-- A grant that was made for an item, with its number and its effect mark.
granted_at : Item → Progress → Option Grant → Progress × Option Grant
granted_at it p none = (next_index p, none)
granted_at it p (some grant) = (
  next_index (counted it it.kind p),
  some (record grant { seq = p.index + 1; is_one_shot = one_shot it.kind }),
)

known_item : Game → Progress → Option Item → Progress × Option Grant
known_item g p none = (next_index p, none)
known_item g p (some it) =
    granted_at it p (grant_for g it p.slots (value it.class_id p.class_slots))

-- One round of the loop.
pub take_item : Game → Progress → ℕ → Progress × Option Grant
unfolding known_item granted_at counted
take_item g p id = known_item g p (item_by_id g.items id)

abbrev pub push : Option Grant → List Grant → List Grant
push none gs = gs
push (some x) gs = x ∷ gs

pub grants_loop : Game → Progress → List ℕ → List Grant
grants_loop g p [] = []
grants_loop g p (id ∷ ids) = push (take_item g p id).1 (grants_loop g (take_item g p id).0 ids)

-- `grantsFrom`.
unfoldable pub grants_from : Game → List ℕ → List Grant
unfolding grants_loop
grants_from g ids = grants_loop g start ids

-- `appendOnce`.
unfoldable pub append_once : List String → String → List String
append_once keys key = if contains keys key then keys else keys ++ (key ∷ [])

-- The kinds that are state, each with no key yet.
state_kinds : List ItemKind → Dict String (List String)
state_kinds [] = []
state_kinds (k ∷ ks) =
    let rest = state_kinds ks in
    if granted k && not (one_shot k) then (item_key k, []) ∷ rest else rest

hold : Dict String (List String) → Grant → Dict String (List String)
unfolding append_once
hold held grant = elim (lookup grant.kind held) [
  | none ↦ held
  | some keys ↦
      if grant.kind == item_key weapon_buff
      then insert grant.kind (keys ++ (grant.key ∷ [])) held
      else insert grant.kind (append_once keys grant.key) held
]

hold_all : Dict String (List String) → List Grant → Dict String (List String)
hold_all held [] = held
hold_all held (grant ∷ grants) = hold_all (hold held grant) grants

-- `unlocksFrom`.
unfoldable pub unlocks_from : List Grant → ℕ → ℕ → Unlocks
unfolding state_kinds hold_all hold
unlocks_from grants resume_from snapshot_seq = record {
  resume_from = resume_from;
  snapshot_seq = snapshot_seq;
  by_kind = hold_all (state_kinds item_kinds) grants;
  class_weapon_slots = false;
}
