-- ===== src/Gamedata/Items.antt =====
-- The item pool template (gamedata/items.go).
use tf2_archipelago.Prelude.{
  ℕ, ◌+◌, Option, none, some, Bool, true, false, List, [], ◌∷◌, ◌++◌, map, String, ◌<>◌, nat_eq,
  ◌==◌, last_where, length,
}
use tf2_archipelago.Gamedata.Kinds.{
  ItemKind, mission_ticket, class_item, weapon_slot, credits, weapon_buff, trap, server_setting,
  trophy, class_weapon_slot, bot_card,
}
use tf2_archipelago.Gamedata.Tables.{
  Mission, Class, WeaponSlot, Trap, ServerSetting, WeaponBuff, Tables, classes, slot_for_copy,
  weapon_slots, traps, server_settings, class_slots_earned,
}
use tf2_archipelago.Gamedata.Ids.{
  ticket_item_id, class_item_id, progressive_weapon_slot_id, cash_bundle_id, weapon_buff_item_id,
  trap_item_id, setting_item_id, trophy_item_id, slot_item_id, named_slot_item_id, bot_card_item_id,
}

pub data Classification : Type 0 where
  progression useful filler trap_class : Classification

-- The payload fields are zero, or empty, on the items of every other kind. An unlimited `count` is
-- 0.
pub record Item : Type 0 where
  pub id : ℕ
  pub name : String
  pub kind : ItemKind
  pub classification : Classification
  pub count : ℕ
  pub mission : ℕ
  pub class_id : ℕ
  pub credit : ℕ
  pub buff : ℕ
  pub trap_id : ℕ
  pub setting : ℕ
  pub bot_name : String
  pub bot_tier : String
  pub bot_form : String
  pub bot_stock : Bool
  pub slot : ℕ

-- An item with no payload.
abbrev bare : ℕ → String → ItemKind → Classification → ℕ → Item
bare id name kind class count = record {
  id = id;
  name = name;
  kind = kind;
  classification = class;
  count = count;
  mission = 0;
  class_id = 0;
  credit = 0;
  buff = 0;
  trap_id = 0;
  setting = 0;
  bot_name = "";
  bot_tier = "";
  bot_form = "";
  bot_stock = false;
  slot = 0;
}

unfoldable pub ticket_item : Mission → Item
ticket_item m =
    record (bare (ticket_item_id m) ("Mission Ticket: " <> m.name) mission_ticket progression 1) {
      mission = m.id;
    }

trophy_item : Mission → Item
trophy_item m =
    record (bare (trophy_item_id m) ("Australium Medal: " <> m.name) trophy progression 1) {
      mission = m.id;
    }

unfoldable pub item_of_class : Class → Item
item_of_class c = record (bare (class_item_id c) ("Class: " <> c.name) class_item progression 1) {
  class_id = c.id;
}

earned_slot : Class → ℕ → List WeaponSlot
earned_slot c n = elim (slot_for_copy c n) [ some s ↦ s ∷ [] | none ↦ [] ]

-- `Class.EarnedSlots`: the slots of the copies 1 and 2.
earned_slots : Class → List WeaponSlot
unfolding earned_slot
earned_slots c = earned_slot c 1 ++ earned_slot c 2

named_slot_item : Class → WeaponSlot → Item
named_slot_item c s =
    record (bare (named_slot_item_id c s.id) (c.name <> " " <> s.name <> " Slot") class_weapon_slot
      progression 1) { class_id = c.id; slot = s.id }

progressive_slot_item : Class → Item
progressive_slot_item c =
    record (bare (slot_item_id c) ("Progressive Weapon Slot: " <> c.name) class_weapon_slot
      progression class_slots_earned) { class_id = c.id }

class_slot_items : List Class → List Item
class_slot_items [] = []
class_slot_items (c ∷ cs) =
    progressive_slot_item c ∷ (map (named_slot_item c) (earned_slots c) ++ class_slot_items cs)

-- `slotItems`.
unfoldable pub slot_items : List Item
unfolding class_slot_items progressive_slot_item named_slot_item earned_slots
slot_items =
    bare progressive_weapon_slot_id "Progressive Weapon Slot" weapon_slot progression
      (length weapon_slots)
    ∷ class_slot_items classes

unfoldable pub cash_bundle : Item
cash_bundle = record (bare cash_bundle_id "Cash Bundle" credits filler 0) { credit = 200 }

buff_item : WeaponBuff → Item
buff_item b =
    record (bare (weapon_buff_item_id b) ("Weapon Buff: " <> b.weapon <> " — " <> b.description)
      weapon_buff useful 0) { buff = b.id }

trap_item : Trap → Item
trap_item t = record (bare (trap_item_id t) ("Trap: " <> t.name) trap trap_class 0) {
  trap_id = t.id;
}

setting_item : ServerSetting → Item
setting_item s = record (bare (setting_item_id s) s.name server_setting useful 1) { setting = s.id }

pub record BotCardTemplate : Type 0 where
  pub name : String
  pub class_key : String
  pub stock : Bool

card : String → String → Bool → BotCardTemplate
card name class stock = record { name = name; class_key = class; stock = stock }

-- `BotCardTemplates`.
bot_card_templates : List BotCardTemplate
unfolding card
bot_card_templates =
    card "Chucklenuts" "scout" true
    ∷ card "Maggot" "soldier" true
    ∷ card "BeepBeepBoop" "pyro" true
    ∷ card "Kaboom!" "demoman" true
    ∷ card "Nom Nom Nom" "heavyweapons" true
    ∷ card "MoreGun" "engineer" true
    ∷ card "Archimedes!" "medic" true
    ∷ card "A Professional With Standards" "sniper" true
    ∷ card "Gentlemanne of Leisure" "spy" true
    ∷ card "CreditToTeam" "scout" false
    ∷ card "Screamin' Eagles" "soldier" false
    ∷ card "IvanTheSpaceBiker" "heavyweapons" false
    ∷ card "Herr Doktor" "medic" false
    ∷ card "Chell" "engineer" false
    ∷ card "Mentlegen" "spy" false
    ∷ []

card_item : ℕ → BotCardTemplate → ℕ → String → ℕ → String → Item
card_item index c tier_index tier form_index form =
    record (bare (bot_card_item_id index tier_index form_index)
      ("Bot: " <> c.name <> " | " <> tier <> " | " <> form) bot_card useful 1) {
        bot_name = c.name;
        bot_tier = tier;
        bot_form = form;
        bot_stock = c.stock;
      }

-- The innermost loop, over the forms.
card_forms : ℕ → BotCardTemplate → ℕ → String → List Item
card_forms index c tier_index tier =
    card_item index c tier_index tier 0 "Human"
    ∷ card_item index c tier_index tier 1 "Robot"
    ∷ card_item index c tier_index tier 2 "Giant"
    ∷ []

cards_from : ℕ → List BotCardTemplate → List Item
cards_from index [] = []
cards_from index (c ∷ cs) =
    card_forms index c 0 "Common"
    ++ (card_forms index c 1 "Elite"
        ++ (card_forms index c 2 "Legendary" ++ cards_from (index + 1) cs))

-- `botCardItems`.
unfoldable pub bot_card_items : List Item
unfolding cards_from card_forms card_item bot_card_templates
bot_card_items = cards_from 0 bot_card_templates

-- `trophyItems`.
unfoldable pub trophy_items : Tables → List Item
unfolding trophy_item
trophy_items t = map trophy_item t.missions

-- `buildItems`.
unfoldable pub build_items : Tables → List Item
unfolding ticket_item item_of_class cash_bundle buff_item trap_item setting_item
build_items t =
    map ticket_item t.missions
    ++ (map item_of_class classes
        ++ (slot_items
            ++ (cash_bundle
                ∷ (map buff_item t.weapon_buffs
                    ++ (map trap_item traps
                        ++ (map setting_item server_settings
                            ++ (bot_card_items ++ trophy_items t)))))))

-- `ItemByID`, over the list that `buildItems` gave.
unfoldable pub item_by_id : List Item → ℕ → Option Item
item_by_id items id = last_where (λ it. it.id == id) items
