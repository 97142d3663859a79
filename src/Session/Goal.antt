-- ===== src/Session/Goal.antt =====
-- What a seed asks of a run, and when the run is won (`SlotData.validate` and `SlotData.goalReached` of
-- bridge/internal/apclient/goal.go).
use tf2_archipelago.Prelude.{
  ℕ, ◌+◌, ◌≤◌, ◌≡◌, refl, sym, subst, inl, inr, Option, none, some, Bool, true, false, ◌&&◌, ◌||◌,
  List, [], ◌∷◌, String, arith, nat_eq, string_eq, ◌==◌, leb, contains, length, Bool-cases,
  if◌then◌else◌,
}
use tf2_archipelago.Prelude.Int.{ℤ, pos, negsuc}
use tf2_archipelago.Gamedata.Tables.{Tables, Mission, mission_by_pop_file}
use tf2_archipelago.Gamedata.Ids.{clear_location_id}

-- `SlotData`, less the switches that `Health` passes on.
pub record SlotData : Type 0 where
  pub format_version : ℤ
  pub missions : List String
  pub start_mission : String
  pub goal : String
  pub goal_mission : String
  pub missionsanity_target : ℤ
  pub ticket_importance : String

abbrev pub is_known : Tables → String → Bool
is_known t pop = elim (mission_by_pop_file t pop) [ none ↦ false | some m ↦ true ]

-- The loop over the seed's missions.
abbrev pub all_known : Tables → List String → Bool
all_known t [] = true
all_known t (p ∷ ps) = is_known t p && all_known t ps

abbrev version_read : ℤ → Bool
version_read (negsuc n) = false
version_read (pos n) = leb 4 n && leb n 8

abbrev is_nonempty : List String → Bool
is_nonempty [] = false
is_nonempty (p ∷ ps) = true

abbrev importance_known : String → Bool
importance_known s = s == "" || s == "useful" || s == "progression"

abbrev start_valid : Tables → SlotData → Bool
start_valid t s =
    s.start_mission == "" || is_known t s.start_mission && contains s.missions s.start_mission

abbrev pub target_valid : ℤ → ℕ → Bool
target_valid (negsuc n) most = false
target_valid (pos n) most = leb 1 n && leb n most

abbrev pub goal_valid : Tables → SlotData → Bool
goal_valid t s =
    if s.goal == "final_boss"
    then is_known t s.goal_mission
    else if s.goal == "missionsanity"
    then target_valid s.missionsanity_target (length s.missions)
    else false

-- `SlotData.validate`: whether it returns no error.
unfoldable pub validate : Tables → SlotData → Bool
validate t s =
    version_read s.format_version
    && (is_nonempty s.missions
        && (importance_known s.ticket_importance
            && (all_known t s.missions && (start_valid t s && goal_valid t s))))

-- Whether a mission's clear is among the checks.
abbrev pub is_cleared : Tables → List ℕ → String → Bool
is_cleared t checks pop = elim (mission_by_pop_file t pop) [
  | none ↦ false
  | some m ↦ contains checks (clear_location_id m)
]

-- The loop that counts them.
abbrev pub cleared : Tables → List ℕ → List String → ℕ
cleared t checks [] = 0
cleared t checks (p ∷ ps) = (if is_cleared t checks p then 1 else 0) + cleared t checks ps

abbrev pub reaches : ℕ → ℤ → Bool
reaches n (negsuc m) = true
reaches n (pos m) = leb m n

-- `SlotData.goalReached`.
unfoldable pub goal_reached : Tables → SlotData → List ℕ → Bool
goal_reached t s checks =
    if s.goal == "final_boss"
    then is_cleared t checks s.goal_mission
    else if s.goal == "missionsanity"
    then reaches (cleared t checks s.missions) s.missionsanity_target
    else false

cleared_all :
    (t : Tables) (checks : List ℕ) (ps : List String)
    → all_known t ps ≡ true
    → ((p : String) → is_known t p ≡ true → is_cleared t checks p ≡ true)
    → cleared t checks ps ≡ length ps
cleared_all t checks [] k h = refl
cleared_all t checks (p ∷ ps) k h =
    let here : is_known t p ≡ true = ground arith in
    let on : all_known t ps ≡ true = ground arith in
    let c = h p here in rw c (omega (arith, cleared_all t checks ps on h))

target_reached : (target : ℤ) (n : ℕ) → target_valid target n ≡ true → reaches n target ≡ true
target_reached (negsuc m) n h = refl
target_reached (pos m) n h = ground arith

and_first : (a b : Bool) → (a && b) ≡ true → a ≡ true
and_first true b h = refl
and_first false b h = h

and_second : (a b : Bool) → (a && b) ≡ true → b ≡ true
and_second true b h = h
and_second false b h = ground arith

-- What holds of each goal a seed may have holds of the seed's.
by_goal :
    (boss sanity a b a' b' : Bool)
    → (a ≡ true → a' ≡ true)
    → (b ≡ true → b' ≡ true)
    → (if boss then a else (if sanity then b else false)) ≡ true
    → (if boss then a' else (if sanity then b' else false)) ≡ true
by_goal true sanity a b a' b' f g h = f h
by_goal false true a b a' b' f g h = g h
by_goal false false a b a' b' f g h = h

valid_parts :
    (t : Tables) (s : SlotData)
    → validate t s ≡ true
    → (all_known t s.missions ≡ true) × (goal_valid t s ≡ true)
unfolding validate
valid_parts t s v =
    let start = start_valid t s in
    let last = start && goal_valid t s in
    let missions = all_known t s.missions && last in
    let words = importance_known s.ticket_importance && missions in
    let some_missions = is_nonempty s.missions && words in
    let a = and_second (version_read s.format_version) some_missions v in
    let b = and_second (is_nonempty s.missions) words a in
    let c = and_second (importance_known s.ticket_importance) missions b in
    let d = and_second (all_known t s.missions) last c in
    (and_first (all_known t s.missions) last c, and_second start (goal_valid t s) d)

-- The goal of a seed that was accepted can be reached: it is once every mission of the tables is
-- cleared.
pub goal_reachable :
    (t : Tables) (s : SlotData) (checks : List ℕ)
    → validate t s ≡ true
    → ((p : String) → is_known t p ≡ true → is_cleared t checks p ≡ true)
    → goal_reached t s checks ≡ true
unfolding goal_reached
goal_reachable t s checks v h =
    let (known, goal) = valid_parts t s v in
    let n = cleared t checks s.missions in
    let all : n ≡ length s.missions = cleared_all t checks s.missions known h in
    by_goal (s.goal == "final_boss") (s.goal == "missionsanity") (is_known t s.goal_mission)
      (target_valid s.missionsanity_target (length s.missions)) (is_cleared t checks s.goal_mission)
      (reaches n s.missionsanity_target) (h s.goal_mission)
      (λ e.
        target_reached s.missionsanity_target n
          (subst (λ k. target_valid s.missionsanity_target k ≡ true) (sym all) e))
      goal

abbrev AllIn : List ℕ → List ℕ → Type 0
AllIn checks more = (id : ℕ) → contains checks id ≡ true → contains more id ≡ true

is_cleared_more :
    (t : Tables) (checks more : List ℕ) (p : String)
    → AllIn checks more
    → is_cleared t checks p ≡ true
    → is_cleared t more p ≡ true
is_cleared_more t checks more p h c = of_mission (mission_by_pop_file t p) c
  where
    of_mission :
        (o : Option Mission)
        → (elim o as (λ _. Bool) [ none ↦ false | some m ↦ contains checks (clear_location_id m) ])
          ≡ true
        → (elim o as (λ _. Bool) [ none ↦ false | some m ↦ contains more (clear_location_id m) ])
          ≡ true
    of_mission none c = c
    of_mission (some m) c = h (clear_location_id m) c

cleared_more :
    (t : Tables) (checks more : List ℕ) (ps : List String)
    → AllIn checks more
    → cleared t checks ps ≤ cleared t more ps
cleared_more t checks more [] h = omega arith
cleared_more t checks more (p ∷ ps) h =
    let rest = cleared_more t checks more ps h in
    elim (Bool-cases (is_cleared t checks p)) [
      | inl e ↦ let e' = is_cleared_more t checks more p h e in rw (e, e') (omega (arith, rest))
      | inr e ↦ rw e (omega (arith, rest))
    ]

reaches_more : (m n : ℕ) (target : ℤ) → m ≤ n → reaches m target ≡ true → reaches n target ≡ true
reaches_more m n (negsuc k) h r = refl
reaches_more m n (pos k) h r = ground arith

-- A run that is won stays won, whatever checks are played after that.
pub goal_reached_more :
    (t : Tables) (s : SlotData) (checks more : List ℕ)
    → ((id : ℕ) → contains checks id ≡ true → contains more id ≡ true)
    → goal_reached t s checks ≡ true
    → goal_reached t s more ≡ true
unfolding goal_reached
goal_reached_more t s checks more h r =
    let m = cleared t checks s.missions in
    let n = cleared t more s.missions in
    by_goal (s.goal == "final_boss") (s.goal == "missionsanity")
      (is_cleared t checks s.goal_mission) (reaches m s.missionsanity_target)
      (is_cleared t more s.goal_mission) (reaches n s.missionsanity_target)
      (is_cleared_more t checks more s.goal_mission h)
      (reaches_more m n s.missionsanity_target (cleared_more t checks more s.missions h)) r
