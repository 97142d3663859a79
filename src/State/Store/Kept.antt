-- ===== src/State/Store/Kept.antt =====
-- What the calls leave alone: the seed, and the mark of a win.
use tf2_archipelago.State.Disk.{write_snapshot}
use tf2_archipelago.Prelude.{
  ℕ, ◌-◌, ◌≡◌, none, String, contains, Option-cases, string_eq, arith, refl, ap, ◌∙◌, Bool, true,
  false, List, nat_eq, ◌==◌, length, inl, inr, Bool-cases,
}
use tf2_archipelago.Gamedata.Game.{Game}
use tf2_archipelago.Prelude.Int.{ℤ, pos, negsuc}
use tf2_archipelago.Gamedata.Locations.{location_by_id}
use tf2_archipelago.State.Snapshot.{elems}
use tf2_archipelago.State.Store.{
  add_check, add_known, add_check_end, apply_items, apply_end, ack, note_progress, clear_progress,
  add_tally, Store, Env, mark_goal_sent, persist, adopt_checks, adopt_loop, adopt_end,
  set_only_checks,
}
use tf2_archipelago.State.Store.Invariant.{
  persist_keeps, Step, check, adopt, items, acks, goal, progress, clear, tally, Reach, here, next,
}

adopt_end_seed :
    (done : Bool) (held adopted : ℕ) (s : Store)
    → (adopt_end done held adopted s).0.snap.seed ≡ s.snap.seed
unfolding adopt_end
adopt_end_seed true held adopted s = refl
adopt_end_seed false held adopted s = refl

-- The seed is the same after the checks were adopted, or could not be.
pub adopt_checks_seed :
    (g : Game) (env : Env) (ids : List ℕ) (s : Store)
    → (adopt_checks g env ids s).0.snap.seed ≡ s.snap.seed
unfolding adopt_checks
adopt_checks_seed g env ids s =
    let checks = adopt_loop g s.snap.checks ids in
    let held = length s.snap.checks in
    elim (Bool-cases (length checks - held == 0)) [
      | inl e ↦ rw (adopt_checks, e) refl
      | inr e ↦
          let q = persist env (set_only_checks s checks) in
          let kept = (persist_keeps env (set_only_checks s checks)).0 in
          rw (adopt_checks, e)
            (adopt_end_seed q.1 held (length checks - held) q.0 ∙ ap (λ d. d.seed) kept)
    ]

-- A win that is marked without an error is marked.
pub mark_goal_sent_marked :
    (env : Env) (s : Store)
    → (mark_goal_sent env s).1 ≡ none
    → (mark_goal_sent env s).0.snap.goal_sent ≡ true
unfolding mark_goal_sent persist write_snapshot
mark_goal_sent_marked env s h = ground arith

-- A call that marks the win, or leaves the mark.
abbrev KeepsGoal : Store → Store → Type 0
KeepsGoal s s' = s.snap.goal_sent ≡ true → s'.snap.goal_sent ≡ true

add_known_goal :
    (env : Env) (id : ℕ) (name : String) (a b : Bool) (s : Store)
    → KeepsGoal s (add_known env id name a b s).0
unfolding add_known add_check_end persist write_snapshot
add_known_goal env id name a b s h = ground arith

add_check_goal : (g : Game) (env : Env) (id : ℕ) (s : Store) → KeepsGoal s (add_check g env id s).0
unfolding add_check
add_check_goal g env id s h = elim (Option-cases (location_by_id g.locations id)) [
  | inl n ↦ ground arith
  | inr (l, e) ↦ ground (
    arith,
    add_known_goal env id l.name (contains s.snap.checks id) (contains (elems s.snap.played) id) s
        h,
  )
]

adopt_end_goal :
    (done : Bool) (held adopted : ℕ) (s : Store) → KeepsGoal s (adopt_end done held adopted s).0
unfolding adopt_end
adopt_end_goal true held adopted s h = h
adopt_end_goal false held adopted s h = h

adopt_checks_goal :
    (g : Game) (env : Env) (ids : List ℕ) (s : Store) → KeepsGoal s (adopt_checks g env ids s).0
unfolding adopt_checks
adopt_checks_goal g env ids s h =
    let checks = adopt_loop g s.snap.checks ids in
    let held = length s.snap.checks in
    elim (Bool-cases (length checks - held == 0)) [
      | inl e ↦ rw (adopt_checks, e) h
      | inr e ↦
          let q = persist env (set_only_checks s checks) in
          let kept = (persist_keeps env (set_only_checks s checks)).0 in
          rw (adopt_checks, e)
            (adopt_end_goal q.1 held (length checks - held) q.0 (ap (λ d. d.goal_sent) kept ∙ h))
    ]

apply_items_goal :
    (g : Game) (env : Env) (i : ℤ) (ids : List ℕ) (s : Store)
    → KeepsGoal s (apply_items g env i ids s).0
unfolding apply_items apply_end persist write_snapshot
apply_items_goal g env (pos i) ids s h = ground arith
apply_items_goal g env (negsuc i) ids s h = h

add_tally_goal :
    (env : Env) (kind : String) (delta : ℤ) (s : Store) → KeepsGoal s (add_tally env kind delta s).0
unfolding add_tally persist write_snapshot
add_tally_goal env kind (pos n) s h = ground arith
add_tally_goal env kind (negsuc n) s h = h

other_goal :
    (env : Env) (seq wave : ℕ) (pop : String) (s : Store)
    → KeepsGoal s (ack env seq s).0
      × KeepsGoal s (mark_goal_sent env s).0
      × KeepsGoal s (note_progress env pop wave s).0
      × KeepsGoal s (clear_progress env pop s).0
unfolding ack mark_goal_sent note_progress clear_progress persist write_snapshot
other_goal env seq wave pop s =
    ((λ h. ground arith), (λ h. ground arith), (λ h. ground arith), (λ h. ground arith))

Step-KeepsGoal : {g : Game} {s t : Store} → Step g s t → KeepsGoal s t
Step-KeepsGoal {g} {s} (check env id) = add_check_goal g env id s
Step-KeepsGoal {g} {s} (adopt env ids) = adopt_checks_goal g env ids s
Step-KeepsGoal {g} {s} (items env i ids) = apply_items_goal g env i ids s
Step-KeepsGoal {g} {s} (acks env seq) = (other_goal env seq 0 "" s).0
Step-KeepsGoal {g} {s} (goal env) = (other_goal env 0 0 "" s).1
Step-KeepsGoal {g} {s} (progress env pop wave) = (other_goal env 0 wave pop s).2
Step-KeepsGoal {g} {s} (clear env pop) = (other_goal env 0 0 pop s).3
Step-KeepsGoal {g} {s} (tally env kind delta) = add_tally_goal env kind delta s

-- A win that is marked stays marked, whatever calls are made of the store while it holds one run.
pub Reach-KeepsGoal : {g : Game} {s t : Store} → Reach g s t → KeepsGoal s t
Reach-KeepsGoal here h = h
Reach-KeepsGoal (next r st) h = Step-KeepsGoal st (Reach-KeepsGoal r h)
