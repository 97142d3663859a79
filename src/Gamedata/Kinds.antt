-- ===== src/Gamedata/Kinds.antt =====
-- The enumerations of gamedata/gamedata.go, gamedata/locations.go, gamedata/milestones.go and
-- gamedata/items.go, with the words they have on the wire.
use Prim.Native.String.{String}
use tf2_archipelago.Prelude.{
  ℕ, ◌≡◌, ◌↔◌, Bool, true, false, List, [], ◌∷◌, arith, Eq, nat_eq, string_eq, ◌==◌, first, Option,
}

pub data Difficulty : Type 0 where
  normal intermediate advanced expert haunted : Difficulty

pub data ObjectiveKind : Type 0 where
  wave_cleared mission_cleared tank_destroyed giant_killed : ObjectiveKind
  tally_robots tally_giants tally_tanks : ObjectiveKind

pub data MilestoneKind : Type 0 where
  robots giants tanks : MilestoneKind

pub data ItemKind : Type 0 where
  mission_ticket class_item weapon_slot credits weapon_buff : ItemKind
  trap server_setting trophy class_weapon_slot bot_card : ItemKind

-- The number that Go's `iota + 1` gives a kind.
abbrev pub objective_number : ObjectiveKind → ℕ
objective_number wave_cleared = 1
objective_number mission_cleared = 2
objective_number tank_destroyed = 3
objective_number giant_killed = 4
objective_number tally_robots = 5
objective_number tally_giants = 6
objective_number tally_tanks = 7

abbrev pub objective_beq : ObjectiveKind → ObjectiveKind → Bool
objective_beq a b = objective_number a == objective_number b

pub objective_beq_iff : (a b : ObjectiveKind) → (objective_beq a b ≡ true) ↔ (a ≡ b)
objective_beq_iff a b = ground arith

instance abbrev pub objective_eq : Eq ObjectiveKind
objective_eq = record { beq = objective_beq; beq_iff = objective_beq_iff }

-- `MilestoneKind`'s own number, the row that its milestones take in the id space.
abbrev pub milestone_number : MilestoneKind → ℕ
milestone_number robots = 1
milestone_number giants = 2
milestone_number tanks = 3

abbrev pub objective_key : ObjectiveKind → String
objective_key wave_cleared = "wave_cleared"
objective_key mission_cleared = "mission_cleared"
objective_key tank_destroyed = "tank_destroyed"
objective_key giant_killed = "giant_killed"
objective_key tally_robots = "tally_robots"
objective_key tally_giants = "tally_giants"
objective_key tally_tanks = "tally_tanks"

abbrev pub objective_kinds : List ObjectiveKind
objective_kinds =
    wave_cleared ∷ mission_cleared ∷ tank_destroyed ∷ giant_killed ∷ tally_robots ∷ tally_giants
    ∷ tally_tanks ∷ []

-- `ObjectiveKind.IsTally`.
abbrev pub is_tally : ObjectiveKind → Bool
is_tally tally_robots = true
is_tally tally_giants = true
is_tally tally_tanks = true
is_tally _ = false

-- `MilestoneKind.Key`.
abbrev pub milestone_key : MilestoneKind → String
milestone_key robots = "robots"
milestone_key giants = "giants"
milestone_key tanks = "tanks"

-- `MilestoneKind.Tally`.
abbrev pub tally_of : MilestoneKind → ObjectiveKind
tally_of robots = tally_robots
tally_of giants = tally_giants
tally_of tanks = tally_tanks

-- `ObjectiveKind.Counter`.
abbrev pub counter : ObjectiveKind → MilestoneKind
counter tally_robots = robots
counter tally_giants = giants
counter _ = tanks

abbrev pub item_key : ItemKind → String
item_key mission_ticket = "mission_ticket"
item_key class_item = "class"
item_key weapon_slot = "weapon_slot"
item_key credits = "credits"
item_key weapon_buff = "weapon_buff"
item_key trap = "trap"
item_key server_setting = "server_setting"
item_key trophy = "trophy"
item_key class_weapon_slot = "class_weapon_slot"
item_key bot_card = "bot_card"

abbrev pub item_kinds : List ItemKind
item_kinds =
    mission_ticket ∷ class_item ∷ weapon_slot ∷ credits ∷ weapon_buff ∷ trap ∷ server_setting
    ∷ trophy ∷ class_weapon_slot ∷ bot_card ∷ []

-- `ItemKind.OneShot`.
abbrev pub one_shot : ItemKind → Bool
one_shot credits = true
one_shot trap = true
one_shot _ = false

-- `ItemKind.Granted`.
abbrev pub granted : ItemKind → Bool
granted trophy = false
granted _ = true

-- `Difficulty.VictoryCaches`.
abbrev pub victory_caches : Difficulty → ℕ
victory_caches intermediate = 1
victory_caches advanced = 2
victory_caches expert = 4
victory_caches haunted = 4
victory_caches _ = 0

-- The number that Go's `iota + 1` gives a difficulty.
abbrev pub difficulty_number : Difficulty → ℕ
difficulty_number normal = 1
difficulty_number intermediate = 2
difficulty_number advanced = 3
difficulty_number expert = 4
difficulty_number haunted = 5

-- `Difficulty.Key`.
abbrev pub difficulty_key : Difficulty → String
difficulty_key normal = "normal"
difficulty_key intermediate = "intermediate"
difficulty_key advanced = "advanced"
difficulty_key expert = "expert"
difficulty_key haunted = "haunted"

-- `Difficulties`.
abbrev pub difficulties : List Difficulty
difficulties = normal ∷ intermediate ∷ advanced ∷ expert ∷ haunted ∷ []

-- `DifficultyByKey`.
abbrev pub difficulty_by_key : String → Option Difficulty
difficulty_by_key key = first (λ d. difficulty_key d == key) difficulties
