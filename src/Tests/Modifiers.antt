-- ===== src/Tests/Modifiers.antt =====
-- A draw of modifiers for two missions.
use mathlib.Core.List.{Memᴰ}
use tf2_archipelago.Prelude.{ℕ, ◌≡◌, refl, some, List, [], ◌∷◌, String, string_eq, arith}
use tf2_archipelago.Prelude.Int.{pos}
use tf2_archipelago.Prelude.Dict.{lookup}
use tf2_archipelago.Fakeroom.Modifiers.{
  MissionModifier, Dice, pick_modifiers, wanted_of, assigned, draw_all, draw_mission_modifiers,
}
use tf2_archipelago.Fakeroom.Modifiers.Apart.{IsFair, IsDrawn, draw_mission_modifiers-IsDrawn}

abbrev modifier : String → String → MissionModifier
modifier key group = record { key = key; exclusive_group = group }

abbrev a_table : List MissionModifier
a_table =
    modifier "low_gravity" "gravity" ∷ modifier "high_gravity" "gravity" ∷ modifier "mental" "" ∷ []

-- Nothing is shuffled, and the lowest number is thrown.
abbrev plain_dice : ℕ → Dice
plain_dice n = record { int_n = λ k. 0; shuffle = λ ms. ms }

plain_dice-IsFair : (n : ℕ) → IsFair (plain_dice n)
plain_dice-IsFair n k h = h

abbrev two_missions : List String
two_missions = "mvm_decoy" ∷ "mvm_coaltown" ∷ []

not_again : Memᴰ {A = String} "mvm_decoy" ("mvm_coaltown" ∷ []) → ⊥
not_again (Memᴰ.head e) = ground (arith, (string_eq.beq_iff "mvm_decoy" "mvm_coaltown").1 e)
not_again (Memᴰ.tail i) = elim i [ ]

draw_two_missions :
    lookup "mvm_decoy" (draw_mission_modifiers plain_dice a_table two_missions (pos 2) (pos 5))
    ≡ some (modifier "low_gravity" "gravity" ∷ modifier "mental" "" ∷ [])
unfolding draw_mission_modifiers draw_all assigned wanted_of pick_modifiers
draw_two_missions = refl

draw_mission_modifiers-IsDrawn_example :
    (v : List MissionModifier) × (lookup "mvm_coaltown"
        (draw_mission_modifiers plain_dice a_table two_missions (pos 2) (pos 5))
      ≡ some v)
    × IsDrawn 3 v
draw_mission_modifiers-IsDrawn_example =
    draw_mission_modifiers-IsDrawn plain_dice a_table two_missions (pos 2) (pos 5) plain_dice-IsFair
      (not_again, ((λ i. elim i [ ]), tt)) "mvm_coaltown" (Memᴰ.tail (Memᴰ.head refl))
