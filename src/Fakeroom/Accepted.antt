-- ===== src/Fakeroom/Accepted.antt =====
-- The seed that a test room announces (the `Connected` message of `handle`, and `Start`, in
-- fakeroom/fakeroom.go), and that the bridge takes it.
use mathlib.Core.List.{Memᴰ, Permᴰ}
use tf2_archipelago.Prelude.{
  ℕ, ◌≤◌, ◌≡◌, refl, ◌⊎◌, inl, inr, Option, none, some, Bool, true, false, List, [], ◌∷◌, String,
  string_eq, nat_eq, ◌==◌, if◌then◌else◌, length, arith,
}
use tf2_archipelago.Prelude.Int.{pos}
use tf2_archipelago.Prelude.Member.{last_where_found}
use tf2_archipelago.Gamedata.Tables.{Tables, mission_by_pop_file}
use tf2_archipelago.Gamedata.Community.{Community}
use tf2_archipelago.Session.Goal.{SlotData, validate, is_known, all_known, goal_valid}
use tf2_archipelago.Fakeroom.Missions.{Wanted, default_missions}
use tf2_archipelago.Fakeroom.Missions.Drawn.{Playable, AllPlayable, default_missions-AllPlayable}

-- `gamedata.FormatVersion`.
abbrev pub seed_format_version : ℕ
seed_format_version = 8

-- `missionTicketImportance`.
abbrev pub mission_ticket_importance : Bool → String
mission_ticket_importance unlock_missions = if unlock_missions then "useful" else "progression"

-- The goal of a run whose options name none.
abbrev pub goal_or_default : String → String
goal_or_default goal = if goal == "" then "final_boss" else goal

abbrev pub last_of : String → List String → String
last_of p [] = p
last_of p (q ∷ qs) = last_of q qs

-- The slot data of `Connected`, of a run whose first mission is `p`.
unfoldable pub slot_data : Bool → String → String → List String → SlotData
slot_data unlock_missions goal p ps = record {
  format_version = pos seed_format_version;
  missions = p ∷ ps;
  start_mission = "";
  goal = goal_or_default goal;
  goal_mission = last_of p ps;
  missionsanity_target = pos (length (p ∷ ps));
  ticket_importance = mission_ticket_importance unlock_missions;
}

-- What a room of these missions announces; a run of none has no last one, and panics.
unfoldable pub announced : Bool → String → List String → Option SlotData
announced unlock_missions goal [] = none
announced unlock_missions goal (p ∷ ps) = some (slot_data unlock_missions goal p ps)

-- A goal that the options may name.
abbrev pub IsGoal : String → Type 0
IsGoal goal = (goal ≡ "") ⊎ ((goal ≡ "final_boss") ⊎ (goal ≡ "missionsanity"))

module _ (c : Community) (t : Tables) (w : Wanted) where
  Playable-known : (p : String) → Playable c t w.server p → is_known t p ≡ true
  unfolding mission_by_pop_file
  Playable-known p (m, i, e, h) =
      let (n, f) =
        last_where_found (λ x. x.pop_file == p) m t.missions i
          ((string_eq.beq_iff m.pop_file p).1 e) in
      rw (is_known, f) refl

  all_known_drawn : (ps : List String) → AllPlayable c t w.server ps → all_known t ps ≡ true
  all_known_drawn [] h = refl
  all_known_drawn (p ∷ ps) h =
      rw (Playable-known p (h p (Memᴰ.head refl)), all_known_drawn ps (λ q i. h q (Memᴰ.tail i)))
        refl

  last_of-Memᴰ : (p : String) (ps : List String) → Memᴰ (last_of p ps) (p ∷ ps)
  last_of-Memᴰ p [] = Memᴰ.head refl
  last_of-Memᴰ p (q ∷ qs) = Memᴰ.tail (last_of-Memᴰ q qs)

  parts_valid :
      (unlock : Bool) (goal p : String) (ps : List String)
      → is_known t p ≡ true
      → all_known t ps ≡ true
      → goal_valid t (slot_data unlock goal p ps) ≡ true
      → validate t (slot_data unlock goal p ps) ≡ true
  unfolding slot_data validate
  parts_valid true goal p ps k ks v = ground (arith, k, ks, v)
  parts_valid false goal p ps k ks v = ground (arith, k, ks, v)

  goal_fine :
      (unlock : Bool) (goal p : String) (ps : List String)
      → is_known t (last_of p ps) ≡ true
      → IsGoal goal
      → goal_valid t (slot_data unlock goal p ps) ≡ true
  unfolding slot_data
  goal_fine unlock goal p ps last (inl e) = rw e last
  goal_fine unlock goal p ps last (inr (inl e)) = rw e last
  goal_fine unlock goal p ps last (inr (inr e)) = rw e (ground arith)

  announced_valid :
      (unlock : Bool) (goal : String) (ps : List String)
      → AllPlayable c t w.server ps
      → 1 ≤ length ps
      → IsGoal goal
      → (d : SlotData) × (announced unlock goal ps ≡ some d) × (validate t d ≡ true)
  unfolding announced
  announced_valid unlock goal [] h l g = ground arith
  announced_valid unlock goal (p ∷ ps) h l g = (
    slot_data unlock goal p ps,
    refl,
    parts_valid unlock goal p ps (Playable-known p (h p (Memᴰ.head refl)))
        (all_known_drawn ps (λ q i. h q (Memᴰ.tail i)))
        (goal_fine unlock goal p ps
          (Playable-known (last_of p ps) (h (last_of p ps) (last_of-Memᴰ p ps))) g),
  )

  -- However the draw is shuffled, a run of drawn missions with a goal that the options may name is
  -- announced by slot data that the bridge accepts.
  pub announced_accepted :
      (shuffle : List String → List String) (unlock : Bool) (goal : String) (ps : List String)
      → ((xs : List String) → Permᴰ (shuffle xs) xs)
      → default_missions shuffle c t w ≡ some ps
      → IsGoal goal
      → (d : SlotData) × (announced unlock goal ps ≡ some d) × (validate t d ≡ true)
  announced_accepted shuffle unlock goal ps perm e g =
      let (h, l) = default_missions-AllPlayable c t w shuffle ps perm e in
      announced_valid unlock goal ps h l g
