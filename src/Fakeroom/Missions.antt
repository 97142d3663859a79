-- ===== src/Fakeroom/Missions.antt =====
-- The missions that a run of the test room draws (`defaultMissions` of fakeroom/fakeroom.go).
-- `rand.Shuffle` is an argument, `shuffle`.
pub mod Drawn
use tf2_archipelago.Prelude.{
  ℕ, zero, suc, Option, none, some, Bool, true, false, not, ◌&&◌, List, [], ◌∷◌, ◌++◌, map, String,
  nat_eq, string_eq, ◌==◌, ltb, if◌then◌else◌, first, contains, keep, take, drop, length, min,
}
use tf2_archipelago.Prelude.Int.{ℤ, pos, negsuc}
use tf2_archipelago.Gamedata.Kinds.{Difficulty, difficulty_number, difficulty_by_key}
use tf2_archipelago.Gamedata.Tables.{Tables, Mission, mission_by_pop_file}
use tf2_archipelago.Gamedata.Community.{Community, is_community_mission}
use tf2_archipelago.Availability.{GameServer, check, is_playable, playable_on}

abbrev below_floor : Option Difficulty → Mission → Bool
below_floor none m = false
below_floor (some floor) m = ltb (difficulty_number m.difficulty) (difficulty_number floor)

-- What the options of a test run ask of its missions.
pub record Wanted : Type 0 where
  pub count : ℤ
  pub excluded : List String
  pub difficulty : String
  pub start_mission : String
  pub server : GameServer
  pub exclude_community : Bool

-- The tests of the loop over the playable missions.
unfoldable pub admits : Community → Wanted → Mission → Bool
admits c w m =
    not (w.exclude_community && is_community_mission c m.id)
    && (not (below_floor (difficulty_by_key w.difficulty) m)
        && not (contains w.excluded m.pop_file))

abbrev pub pop_files : List Mission → List String
pop_files ms = map (λ m. m.pop_file) ms

-- A pool that the options leave empty holds the first playable mission.
or_first : List Mission → List String → Option (List String)
or_first playable (p ∷ ps) = some (p ∷ ps)
or_first [] [] = none
or_first (m ∷ ms) [] = some (m.pop_file ∷ [])

-- The pool before it is shuffled; the read of the first of no playable missions is a panic.
unfoldable pub pool_of : Community → Tables → Wanted → Option (List String)
unfolding or_first
pool_of c t w =
    let playable = playable_on c t w.server in
    or_first playable (pop_files (keep (admits c w) playable))

-- `slices.Index`.
abbrev pub index_of : List String → String → Option ℕ
index_of [] a = none
index_of (x ∷ xs) a =
    let rest = index_of xs a in
    if x == a then some 0 else elim rest [ none ↦ none | some i ↦ some (suc i) ]

-- Whether a mission from outside the pool may be put into it.
start_admitted : Community → Wanted → Option Mission → Bool
start_admitted c w none = false
start_admitted c w (some m) =
    is_playable (check c w.server m) && not (w.exclude_community && is_community_mission c m.id)

start_at : Community → Tables → Wanted → List String → Option ℕ → List String
unfolding start_admitted
start_at c t w pool (some zero) = pool
start_at c t w pool (some (suc i)) =
    w.start_mission ∷ (take (suc i) pool ++ drop (suc (suc i)) pool)
start_at c t w pool none =
    if start_admitted c w (mission_by_pop_file t w.start_mission)
    then w.start_mission ∷ pool
    else pool

-- The start mission goes to the front.
unfoldable pub start_first : Community → Tables → Wanted → List String → List String
unfolding start_at
start_first c t w pool =
    if w.start_mission == "" then pool else start_at c t w pool (index_of pool w.start_mission)

-- How many missions the run takes.
unfoldable pub run_length : ℤ → ℕ → ℕ
run_length (negsuc n) most = min 8 most
run_length (pos zero) most = min 8 most
run_length (pos (suc n)) most = min (suc n) most

cut_to : Wanted → List String → List String
cut_to w pool = take (run_length w.count (length pool)) pool

-- `defaultMissions`.
unfoldable pub default_missions :
    (List String → List String) → Community → Tables → Wanted → Option (List String)
unfolding cut_to
default_missions shuffle c t w = elim (pool_of c t w) [
  | none ↦ none
  | some pool ↦ some (cut_to w (start_first c t w (shuffle pool)))
]
