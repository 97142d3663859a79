-- ===== src/Session/Client/Report.antt =====
-- What goes up: the checks every time, the win once.
use mathlib.Core.List.{Memᴰ}
use tf2_archipelago.Prelude.{
  ◌≡◌, refl, sym, subst, Option, none, some, Bool, true, false, List, [], ◌∷◌, ◌++◌, ℕ, arith, inl,
  inr, Bool-cases, if◌then◌else◌, contains, nat_eq,
}
use tf2_archipelago.Prelude.Member.{Memᴰ-append_left}
use tf2_archipelago.Gamedata.Game.{Game}
use tf2_archipelago.State.Snapshot.{elems}
use tf2_archipelago.State.Store.{Store, Env, Error, mark_goal_sent}
use tf2_archipelago.State.Store.Kept.{mark_goal_sent_marked, Reach-KeepsGoal}
use tf2_archipelago.State.Store.Invariant.{Reach}
use tf2_archipelago.Feed.Chat.Log as Log
use tf2_archipelago.Session.Goal.{goal_reached}
use tf2_archipelago.Session.Client.{
  Client, Packet, status_goal, location_checks, Failure, send_failed, Handled, marked, tell_goal,
  is_goal_due, report_goal, report_checks, report,
}

-- Whether the win is among what was sent.
abbrev pub is_told : List Packet → Bool
is_told [] = false
is_told (status_goal ∷ ps) = true
is_told (_ ∷ ps) = is_told ps

-- The win is told only when it is due, and is marked once it is told and no error comes back.
Reports : Game → Client → List Packet → Handled → Type 0
Reports g c sent r =
    (is_told r.1 ≡ true → is_goal_due g c ≡ true)
    × (is_told r.1 ≡ true → r.2 ≡ none → r.0.store.snap.goal_sent ≡ true)
    × ((m : Packet) → Memᴰ m sent → Memᴰ m r.1)

marked-Reports :
    (g : Game) (env : Env) (c d : Client) (sent : List Packet)
    → is_goal_due g c ≡ true
    → Reports g c sent (marked d (mark_goal_sent env c.store) (sent ++ (status_goal ∷ [])))
unfolding Reports marked
marked-Reports g env c d sent due =
    ends (mark_goal_sent env c.store) (mark_goal_sent_marked env c.store)
  where
    ends :
        (q : Store × Option Error)
        → (q.1 ≡ none → q.0.snap.goal_sent ≡ true)
        → Reports g c sent (marked d q (sent ++ (status_goal ∷ [])))
    ends (s, none) h =
        ((λ _. due), (λ _ _. h refl), (λ m i. Memᴰ-append_left m sent (status_goal ∷ []) i))
    ends (s, some e) h =
        ((λ _. due), (λ _ x. ground arith), (λ m i. Memᴰ-append_left m sent (status_goal ∷ []) i))

due_reached :
    (g : Game) (c : Client)
    → is_goal_due g c ≡ true
    → goal_reached g.tables c.seed.shape (elems c.store.snap.played) ≡ true
due_reached g c h = ground arith

due_unsent : (g : Game) (c : Client) → c.store.snap.goal_sent ≡ true → is_goal_due g c ≡ false
due_unsent g c h = ground arith

module _ (trim : List ℕ → List ℕ) (line : List ℕ) (g : Game) (env : Env) where
  tell-Reports :
      (sends : Bool) (sent : List Packet) (c : Client)
      → is_told sent ≡ false
      → is_goal_due g c ≡ true
      → Reports g c sent (tell_goal trim line env sends sent c)
  unfolding Reports tell_goal
  tell-Reports false sent c h due = ((λ _. due), (λ _ x. ground arith), (λ m i. i))
  tell-Reports true sent c h due =
      marked-Reports g env c (record c { chat = Log.append trim c.chat line }) sent due

  silent-Reports :
      (sent : List Packet) (c : Client) (why : Option Failure)
      → is_told sent ≡ false
      → Reports g c sent (c, sent, why)
  unfolding Reports
  silent-Reports sent c why h = ((λ t. ground arith), (λ t x. ground arith), (λ m i. i))

  goal-Reports :
      (sends : Bool) (sent : List Packet) (c : Client)
      → is_told sent ≡ false
      → Reports g c sent (report_goal trim line g env sends sent c)
  unfolding report_goal
  goal-Reports sends sent c h =
      let family : Bool → Type 0 = λ b.
        Reports g c sent (if b then tell_goal trim line env sends sent c else (c, sent, none)) in
      elim (Bool-cases (is_goal_due g c)) [
        | inr e ↦ subst family (sym e) (silent-Reports sent c none h)
        | inl e ↦ subst family (sym e) (tell-Reports sends sent c h e)
      ]

  report-Reports :
      (first second : Bool) (checks : List ℕ) (c : Client)
      → Reports g c [] (report_checks trim line g env first second checks c)
        × (first ≡ true
            → (id : ℕ) → contains checks id ≡ true
            → Memᴰ (location_checks checks) (report_checks trim line g env first second checks c).1)
  unfolding report_checks Reports
  report-Reports first second [] c = (goal-Reports second [] c refl, λ f id h. ground arith)
  report-Reports false second (x ∷ xs) c =
      (silent-Reports [] c (some send_failed) refl, λ f id h. ground arith)
  report-Reports true second (x ∷ xs) c =
      let (a, b, d) = goal-Reports second (location_checks (x ∷ xs) ∷ []) c refl in
      ((a, b, λ m i. elim i [ ]), λ f id h. d (location_checks (x ∷ xs)) (Memᴰ.head refl))

  not_told :
      (first second : Bool) (c : Client)
      → c.store.snap.goal_sent ≡ true
      → is_told (report trim line g env first second c).1 ≡ false
  unfolding report Reports
  not_told first second c h =
      let told = (report-Reports first second c.store.snap.checks c).0.0 in
      elim (Bool-cases (is_told (report trim line g env first second c).1)) [
        | inr e ↦ e
        | inl e ↦ ground (arith, told e, due_unsent g c h)
      ]

due_first : (g : Game) (c : Client) → is_goal_due g c ≡ true → c.store.snap.goal_sent ≡ false
due_first g c h = ground arith

-- A report whose write goes through carries the whole list of checks, when there is one. It tells
-- the multiworld of the win only when the goal is reached by what was played here and the store has
-- no mark that it was told. Once it has been told and marked without an error, no later report tells
-- it again, whatever calls were made of the store since, as long as it was not tied to another seed.
pub report_once :
    (trim : List ℕ → List ℕ) (line : List ℕ) (g : Game) (env : Env) (first second : Bool)
    (c : Client)
    → let r = report trim line g env first second c in
      (first ≡ true
        → (id : ℕ) → contains c.store.snap.checks id ≡ true
        → Memᴰ (location_checks c.store.snap.checks) r.1)
      × (is_told r.1 ≡ true
          → (goal_reached g.tables c.seed.shape (elems c.store.snap.played) ≡ true)
            × (c.store.snap.goal_sent ≡ false))
      × (is_told r.1 ≡ true
          → r.2 ≡ none
          → (later : Client) (again : Env) (again_first again_second : Bool)
          → Reach g r.0.store later.store
          → is_told (report trim line g again again_first again_second later).1 ≡ false)
unfolding report Reports
report_once trim line g env first second c =
    let r = report trim line g env first second c in
    let ((a, b, _), d) = report-Reports trim line g env first second c.store.snap.checks c in
    (
      d,
      λ t. (due_reached g c (a t), due_first g c (a t)),
      λ t e later again again_first again_second reach.
          not_told trim line g again again_first again_second later (Reach-KeepsGoal reach (b t e)),
    )
