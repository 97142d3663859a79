-- ===== src/Fakeroom/Order.antt =====
-- The order in which a run of the test room hands its items out (`unlockOrder`, `promoteTraps` and
-- `promoteBuffs` of fakeroom/fakeroom.go).
pub mod Kept
pub mod Pool
use tf2_archipelago.Prelude.{
  ℕ, zero, suc, ◌+◌, ◌-◌, ◌*◌, ◌/◌, Option, none, some, Bool, true, false, not, List, [], ◌∷◌, ◌++◌,
  map, String, nat_eq, string_eq, ◌==◌, ltb, leb, if◌then◌else◌, length, contains, get_elem?, keep,
  any, ◌&&◌,
}
use tf2_archipelago.Prelude.Dict.{Dict, insert, value}
use tf2_archipelago.Gamedata.Kinds.{
  ItemKind, mission_ticket, class_item, weapon_slot, credits, weapon_buff, trap, server_setting,
  trophy, class_weapon_slot, bot_card,
}
use tf2_archipelago.Gamedata.Tables.{Tables, trap_by_id, weapon_buff_by_id}
use tf2_archipelago.Gamedata.Items.{Item, item_by_id}
use tf2_archipelago.Gamedata.Game.{Game}
use tf2_archipelago.Fakeroom.Start.{is_filler}

abbrev is_trap_kind : ItemKind → Bool
is_trap_kind trap = true
is_trap_kind _ = false

abbrev is_buff_kind : ItemKind → Bool
is_buff_kind weapon_buff = true
is_buff_kind _ = false

unfoldable pub is_trap : List Item → ℕ → Bool
is_trap table id = elim (item_by_id table id) [ none ↦ false | some it ↦ is_trap_kind it.kind ]

-- A loop that sends what passes a test to one list and the rest to another, in order.
unfoldable pub parted : (ℕ → Bool) → List ℕ → List ℕ × List ℕ
parted p [] = ([], [])
parted p (x ∷ xs) =
    let rest = parted p xs in if p x then (x ∷ rest.0, rest.1) else (rest.0, x ∷ rest.1)

-- `promoteTraps`.
unfoldable pub promote_traps : List Item → List ℕ → List ℕ
promote_traps table rest = (parted (is_trap table) rest).0 ++ (parted (is_trap table) rest).1

-- `buffsUpFront`.
abbrev pub buffs_up_front : ℕ
buffs_up_front = 8

-- The set of the buffs' ids.
unfoldable pub is_buff : List Item → ℕ → Bool
is_buff table id = any (λ it. is_buff_kind it.kind && it.id == id) table

-- The positions `i * stride`, from the i-th on.
unfoldable pub strides : ℕ → ℕ → ℕ → List ℕ
strides stride i zero = []
strides stride i (suc n) = i * stride ∷ strides stride (i + 1) n

abbrev pub chosen : Option ℕ → Option (List ℕ) → Option (List ℕ)
chosen none o = none
chosen (some x) none = none
chosen (some x) (some rest) = some (x ∷ rest)

-- What stands at the positions; a read past the end is a panic.
unfoldable pub at_all : List ℕ → List ℕ → Option (List ℕ)
at_all xs [] = some []
at_all xs (p ∷ ps) = chosen (get_elem? xs p) (at_all xs ps)

-- What stands at no position of a list, the first element being at `at`.
unfoldable pub left_out : List ℕ → ℕ → List ℕ → List ℕ
left_out taken at [] = []
left_out taken at (x ∷ xs) =
    let rest = left_out taken (at + 1) xs in if contains taken at then rest else x ∷ rest

spread : List ℕ → List ℕ → List ℕ → Option (List ℕ) → Option (List ℕ)
spread buffs others taken none = none
spread buffs others taken (some front) = some (front ++ (others ++ left_out taken 0 buffs))

-- `promoteBuffs` once the buffs stand apart.
unfoldable pub spread_buffs : List ℕ → List ℕ → Option (List ℕ)
unfolding spread
spread_buffs buffs others =
    if leb (length buffs) buffs_up_front
    then some (others ++ buffs)
    else let taken = strides (length buffs / buffs_up_front) 0 buffs_up_front in
      spread buffs others taken (at_all buffs taken)

-- `promoteBuffs`.
unfoldable pub promote_buffs : List Item → List ℕ → Option (List ℕ)
promote_buffs table rest = let p = parted (is_buff table) rest in spread_buffs p.0 p.1

-- `classes`, `slots` and `rest` of `unlockOrder`, and the copies that the start already holds.
pub record Piles : Type 0 where
  pub class_pile : List ℕ
  pub slot_pile : List ℕ
  pub rest : List ℕ
  pub taken : Dict ℕ ℕ

-- Whether an item is dealt out at all: the switch on its kind and the two tests after it.
dealt_kind : Tables → List String → ItemKind → Item → Bool
dealt_kind t keys mission_ticket it = true
dealt_kind t keys class_item it = true
dealt_kind t keys weapon_slot it = true
dealt_kind t keys weapon_buff it = elim (weapon_buff_by_id t it.buff) [
  | none ↦ false
  | some b ↦ b.eligible
]
dealt_kind t keys trap it = elim (trap_by_id it.trap_id) [
  | none ↦ false
  | some x ↦ contains keys x.key
]
dealt_kind t keys _ it = false

unfoldable pub is_dealt : Tables → List String → Item → Bool
unfolding dealt_kind
is_dealt t keys it = not (is_filler it.classification) && dealt_kind t keys it.kind it

-- The pile that an item's kind puts it on.
unfoldable pub pile : ItemKind → ℕ → Piles → Piles
pile class_item id p = record p { class_pile = p.class_pile ++ (id ∷ []) }
pile weapon_slot id p = record p { slot_pile = p.slot_pile ++ (id ∷ []) }
pile _ id p = record p { rest = p.rest ++ (id ∷ []) }

-- One copy: one that the start holds is crossed off, and any other is put on its pile.
unfoldable pub deal_one : Item → Piles → Piles
deal_one it p =
    if ltb 0 (value it.id p.taken)
    then record p { taken = insert it.id (value it.id p.taken - 1) p.taken }
    else pile it.kind it.id p

unfoldable pub deal_copies : Item → ℕ → Piles → Piles
deal_copies it zero p = p
deal_copies it (suc n) p = deal_copies it n (deal_one it p)

-- `max(int(item.Count), 1)`.
abbrev pub copies_of : Item → ℕ
copies_of it = if it.count == 0 then 1 else it.count

unfoldable pub deal_all : Tables → List String → List Item → Piles → Piles
deal_all t keys [] p = p
deal_all t keys (it ∷ its) p =
    deal_all t keys its (if is_dealt t keys it then deal_copies it (copies_of it) p else p)

-- What is held at the start, counted.
unfoldable pub count_held : List ℕ → Dict ℕ ℕ → Dict ℕ ℕ
count_held [] d = d
count_held (id ∷ ids) d = count_held ids (insert id (value id d + 1) d)

-- `TrapDefault`, `TrapTeamJarate`.
abbrev trap_default : ℕ
trap_default = 1

-- A seed that names no trap draws the default one.
abbrev pub trap_keys : List String → List String
trap_keys [] = elim (trap_by_id trap_default) [ none ↦ "" ∷ [] | some x ↦ x.key ∷ [] ]
trap_keys (k ∷ ks) = k ∷ ks

unfoldable pub in_order : List Item → Piles → Option (List ℕ) → Option (List ℕ)
in_order table p none = none
in_order table p (some rest) = some ((p.class_pile ++ p.slot_pile) ++ promote_traps table rest)

-- The loops of `unlockOrder`.
unfoldable pub piles : Game → List ℕ → List String → Piles
piles g held keys =
    deal_all g.tables (trap_keys keys) g.items
      (record { class_pile = []; slot_pile = []; rest = []; taken = count_held held [] })

-- `unlockOrder`.
unfoldable pub unlock_order : Game → List ℕ → List String → Option (List ℕ)
unfolding in_order
unlock_order g held keys =
    let p = piles g held keys in in_order g.items p (promote_buffs g.items p.rest)
