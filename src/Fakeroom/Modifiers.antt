-- ===== src/Fakeroom/Modifiers.antt =====
-- The test room's draw of mission modifiers (`DrawMissionModifiers` of fakeroom/modifiers.go). The
-- table of modifiers is an argument, and so is what `math/rand` does for each mission. The source's
-- table has rows; from one without any, the Go map would have no entry where this one has a blank list.
pub mod Apart
use tf2_archipelago.Prelude.{
  ℕ, suc, ◌+◌, ◌-◌, Option, none, some, Bool, true, false, not, ◌&&◌, List, [], ◌∷◌, ◌++◌, String,
  nat_eq, string_eq, ◌==◌, ltb, if◌then◌else◌, contains, length,
}
use tf2_archipelago.Prelude.Int.{ℤ, pos, negsuc}
use tf2_archipelago.Prelude.Dict.{Dict, insert, lookup}

-- `MissionModifier`, in the fields that a draw reads.
pub record MissionModifier : Type 0 where
  pub key : String
  pub exclusive_group : String

-- `rand.IntN` and `rand.Shuffle`.
pub record Dice : Type 0 where
  pub int_n : ℕ → ℕ
  pub shuffle : List MissionModifier → List MissionModifier

-- Between none and three.
abbrev pub clamp : ℤ → ℕ
clamp (negsuc n) = 0
clamp (pos n) = if ltb 3 n then 3 else n

-- The upper bound: three at most, and the lower one at least.
abbrev pub most_of : ℤ → ℤ → ℕ
most_of minimum maximum =
    if ltb (clamp maximum) (clamp minimum) then clamp minimum else clamp maximum

abbrev pub clashes : List String → MissionModifier → Bool
clashes groups m = not (m.exclusive_group == "") && contains groups m.exclusive_group

abbrev pub note_group : List String → MissionModifier → List String
note_group groups m = if m.exclusive_group == "" then groups else m.exclusive_group ∷ groups

-- The loop over the shuffled candidates, where `held` is what the mission has by then.
unfoldable pub pick_modifiers :
    ℕ → List String → List MissionModifier → List MissionModifier → List MissionModifier
pick_modifiers wanted groups [] held = held
pick_modifiers wanted groups (m ∷ ms) held =
    let past = pick_modifiers wanted groups ms held in
    let taken = held ++ (m ∷ []) in
    let on = pick_modifiers wanted (note_group groups m) ms taken in
    if clashes groups m then past else if length taken == wanted then taken else on

abbrev pub held_at : String → Dict String (List MissionModifier) → List MissionModifier
held_at mission assignments = elim (lookup mission assignments) [ some xs ↦ xs | none ↦ [] ]

-- How many a mission is to have.
unfoldable pub wanted_of : Dice → ℤ → ℤ → ℕ
wanted_of d minimum maximum =
    let least = clamp minimum in
    let most = most_of minimum maximum in
    if ltb least most then least + d.int_n (most - least + 1) else least

-- What a mission is assigned.
unfoldable pub assigned :
    Dice → ℕ → List MissionModifier → List MissionModifier → List MissionModifier
assigned d wanted table held =
    if wanted == 0 then [] else pick_modifiers wanted [] (d.shuffle table) held

-- The loop over the missions, each with dice of its own.
unfoldable pub draw_all :
    (ℕ → Dice)
    → ℕ
    → List MissionModifier
    → ℤ
    → ℤ
    → List String
    → Dict String (List MissionModifier)
    → Dict String (List MissionModifier)
draw_all dice turn table minimum maximum [] assignments = assignments
draw_all dice turn table minimum maximum (mission ∷ missions) assignments =
    draw_all dice (turn + 1) table minimum maximum missions (
      insert mission
        (assigned (dice turn) (wanted_of (dice turn) minimum maximum) table
          (held_at mission assignments))
        assignments)

-- `DrawMissionModifiers`.
unfoldable pub draw_mission_modifiers :
    (ℕ → Dice) → List MissionModifier → List String → ℤ → ℤ → Dict String (List MissionModifier)
draw_mission_modifiers dice table missions minimum maximum =
    draw_all dice 0 table minimum maximum missions []
