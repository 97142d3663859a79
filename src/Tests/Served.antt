-- ===== src/Tests/Served.antt =====
-- The switcher's missions and a poll for grants, at a small run.
use tf2_archipelago.Prelude.{◌≡◌, ◌⊎◌, refl, true, false, List, [], ◌∷◌, ◌++◌, string_eq}
use tf2_archipelago.Prelude.Int.{pos}
use tf2_archipelago.Gamedata.Community.{Community}
use tf2_archipelago.State.Grants.{Grant, grants_from}
use tf2_archipelago.State.Grants.Stable.{seq_between}
use tf2_archipelago.State.Store.{apply_items}
use tf2_archipelago.Server.Request.{Health}
use tf2_archipelago.Server.Poll.{changed, served, poll_grants}
use tf2_archipelago.Server.Poll.Woken.{HoldsItems, poll_grants_sent}
use tf2_archipelago.Tests.Game.{small}
use tf2_archipelago.Tests.Store.{works, fresh, fresh-IsSound}

abbrev no_extras : Community
no_extras = record { requirements = []; packs = []; loadouts = [] }

abbrev drawn : Health
drawn = record {
  slot = "TF2";
  missions = "mvm_decoy" ∷ "mvm_newer" ∷ [];
  ticket_importance = "useful";
  victory_caches = false;
  milestone_checks = false;
  class_weapon_slots = false;
  giantsanity = true;
  tanksanity = false;
  death_link = false;
}

fresh-HoldsItems : HoldsItems small 0 fresh
fresh-HoldsItems = record { sound = fresh-IsSound; count = refl }

poll_grants_sent_example :
    let s' = (apply_items small works (pos 0) (7443000001 ∷ []) fresh).0 in
    (more : List Grant) × (grants_from small (7443000001 ∷ []) ≡ grants_from small [] ++ more)
    × (seq_between 0 1 more ≡ true)
    × ((more ≡ [])
        ⊎ (poll_grants 0 fresh (changed fresh ∷ changed s' ∷ [])
            ≡ served (record { seq = 1; grants = more })))
poll_grants_sent_example =
    poll_grants_sent small works (7443000001 ∷ []) fresh fresh (fresh ∷ []) [] fresh-IsSound refl
      (fresh-HoldsItems, (fresh-HoldsItems, tt))
