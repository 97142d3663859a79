-- ===== src/State/Store/Invariant.antt =====
-- What holds of the store between two calls, whatever the writes of the file do.
use tf2_archipelago.Prelude.{
  ℕ, ◌≤◌, ◌≡◌, sym, ap, ◌∙◌, ◌⊎◌, inl, inr, not, ◌&&◌, List, [], ◌∷◌, String, arith, nat_eq,
  contains, length, Bool-cases,
}
use tf2_archipelago.Prelude.Int.{ℤ, pos, negsuc}
use tf2_archipelago.Prelude.Laws.{contains_grow}
use tf2_archipelago.Gamedata.Game.{Game}
use tf2_archipelago.State.Grants.{grants_from}
use tf2_archipelago.State.Snapshot.{elems}
use tf2_archipelago.State.Disk.{write_snapshot}
use tf2_archipelago.State.Store.{
  Store, Env, persist, add_check, adopt_checks, adopt_loop, adopt_one, apply_items, ack,
  mark_goal_sent, note_progress, add_tally, clear_progress, known,
}
use tf2_archipelago.State.Store.Effects.{
  Kept, Grown, SameRest, add_check_fields, adopt_checks_fields, Applied, apply_items_fields,
  ack_fields,
}
use tf2_archipelago.State.Store.Lists.{AreLists, AreLists-grow, is_once-append}

pub record IsSound (g : Game) (s : Store) : Type 0 where
  pub lists : AreLists s.snap.checks (elems s.snap.played)
  pub grants_made : s.grants ≡ grants_from g s.snap.items
  pub acked_within : s.snap.acked_seq ≤ length s.snap.items

pub persist_keeps :
    (env : Env) (s : Store)
    → ((persist env s).0.snap ≡ s.snap)
      × ((persist env s).0.grants ≡ s.grants)
      × ((persist env s).0.path ≡ s.path)
      × ((persist env s).0.generation ≡ s.generation)
      × ((persist env s).0.last_check ≡ s.last_check)
unfolding persist write_snapshot
persist_keeps env s = ground arith

IsSound-again :
    (g : Game) (s s' : Store)
    → AreLists s'.snap.checks (elems s'.snap.played)
    → SameRest s s'
    → IsSound g s
    → IsSound g s'
IsSound-again g s s' l r h = record {
  lists = l;
  grants_made = r.0 ∙ h.grants_made ∙ ap (grants_from g) (sym r.1);
  acked_within = omega (arith, ap length r.1, r.2, h.acked_within);
}

AreLists-of :
    (s s' : Store) (id : ℕ)
    → AreLists s.snap.checks (elems s.snap.played)
    → Grown id s s' ⊎ Kept s s'
    → AreLists s'.snap.checks (elems s'.snap.played)
AreLists-of s s' id h (inl (p, q)) =
    rw (p, q) (AreLists-grow s.snap.checks (elems s.snap.played) id h)
AreLists-of s s' id h (inr (p, q)) = rw (p, q) h

add_check-IsSound :
    (g : Game) (env : Env) (id : ℕ) (s : Store) → IsSound g s → IsSound g (add_check g env id s).0
add_check-IsSound g env id s h =
    let (rest, lists) = add_check_fields g env id s in
    IsSound-again g s (add_check g env id s).0
      (AreLists-of s (add_check g env id s).0 id h.lists lists) rest h

adopt_one-AreLists :
    (g : Game) (checks played : List ℕ) (id : ℕ)
    → AreLists checks played
    → AreLists (adopt_one g checks id) played
unfolding adopt_one
adopt_one-AreLists g checks played id h =
    elim (Bool-cases (known g id && not (contains checks id))) [
      | inl e ↦ rw e (record {
        checks_once = is_once-append checks id h.checks_once (ground arith);
        played_once = h.played_once;
        played_checked = λ j i. contains_grow checks (id ∷ []) j (h.played_checked j i);
      })
      | inr e ↦ rw e h
    ]

-- The loop of `adopt_checks` keeps the list free of repeats, and only appends.
pub adopt_loop-AreLists :
    (g : Game) (played ids checks : List ℕ)
    → AreLists checks played
    → AreLists (adopt_loop g checks ids) played
unfolding adopt_loop
adopt_loop-AreLists g played [] checks h = h
adopt_loop-AreLists g played (id ∷ ids) checks h =
    adopt_loop-AreLists g played ids (adopt_one g checks id)
      (adopt_one-AreLists g checks played id h)

adopt_checks-IsSound :
    (g : Game) (env : Env) (ids : List ℕ) (s : Store)
    → IsSound g s
    → IsSound g (adopt_checks g env ids s).0
adopt_checks-IsSound g env ids s h =
    let (rest, own, lists) = adopt_checks_fields g env ids s in
    IsSound-again g s (adopt_checks g env ids s).0
      (rw own (elim lists [
        | inl e ↦ rw e (adopt_loop-AreLists g (elems s.snap.played) ids s.snap.checks h.lists)
        | inr e ↦ rw e h.lists
      ]))
      rest h

Applied-IsSound :
    (g : Game) (i : ℕ) (ids : List ℕ) (s s' : Store)
    → IsSound g s
    → Kept s s'
    → Applied g i ids s s'
    → IsSound g s'
Applied-IsSound g i ids s s' h k a = record {
  lists = rw (k.0, k.1) h.lists;
  grants_made = a.1 ∙ ap (grants_from g) (sym a.0);
  acked_within = omega (arith, a.2, ap length a.0);
}

apply_items-IsSound :
    (g : Game) (env : Env) (i : ℤ) (ids : List ℕ) (s : Store)
    → IsSound g s
    → IsSound g (apply_items g env i ids s).0
apply_items-IsSound g env (negsuc n) ids s h = unfold apply_items in h
apply_items-IsSound g env (pos i) ids s h =
    let s' = (apply_items g env (pos i) ids s).0 in
    let (k, cases) = apply_items_fields g env i ids s in
    elim cases [
      | inl a ↦ Applied-IsSound g i ids s s' h k a
      | inr r ↦ IsSound-again g s s' (rw (k.0, k.1) h.lists) r h
    ]

-- The methods that leave the items and the lists of checks alone.
still : (g : Game) (s s' : Store) → IsSound g s → Kept s s' → SameRest s s' → IsSound g s'
still g s s' h k r = IsSound-again g s s' (rw (k.0, k.1) h.lists) r h

ack-IsSound :
    (g : Game) (env : Env) (seq : ℕ) (s : Store) → IsSound g s → IsSound g (ack env seq s).0
ack-IsSound g env seq s h =
    let (k, grants, items, within) = ack_fields env seq s h.acked_within in
    record {
      lists = rw (k.0, k.1) h.lists;
      grants_made = grants ∙ h.grants_made ∙ ap (grants_from g) (sym items);
      acked_within = omega (arith, within, ap length items);
    }

mark_goal_sent-IsSound :
    (g : Game) (env : Env) (s : Store) → IsSound g s → IsSound g (mark_goal_sent env s).0
unfolding mark_goal_sent persist write_snapshot
mark_goal_sent-IsSound g env s h =
    still g s (mark_goal_sent env s).0 h (ground arith) (ground arith)

note_progress-IsSound :
    (g : Game) (env : Env) (pop : String) (wave : ℕ) (s : Store)
    → IsSound g s
    → IsSound g (note_progress env pop wave s).0
unfolding note_progress persist write_snapshot
note_progress-IsSound g env pop wave s h =
    still g s (note_progress env pop wave s).0 h (ground arith) (ground arith)

clear_progress-IsSound :
    (g : Game) (env : Env) (pop : String) (s : Store)
    → IsSound g s
    → IsSound g (clear_progress env pop s).0
unfolding clear_progress persist write_snapshot
clear_progress-IsSound g env pop s h =
    still g s (clear_progress env pop s).0 h (ground arith) (ground arith)

add_tally-IsSound :
    (g : Game) (env : Env) (kind : String) (delta : ℤ) (s : Store)
    → IsSound g s
    → IsSound g (add_tally env kind delta s).0
unfolding add_tally persist write_snapshot
add_tally-IsSound g env kind (negsuc n) s h = h
add_tally-IsSound g env kind (pos n) s h =
    still g s (add_tally env kind (pos n) s).0 h (ground arith) (ground arith)

-- One call of a method that writes while the store is tied to one seed, with whatever its surroundings
-- do. `BindSeed` comes in with State.Bind.Calls.
pub data Step (g : Game) (s : Store) : Store → Type 0 where
  check : (env : Env) (id : ℕ) → Step g s (add_check g env id s).0
  adopt : (env : Env) (ids : List ℕ) → Step g s (adopt_checks g env ids s).0
  items : (env : Env) (i : ℤ) (ids : List ℕ) → Step g s (apply_items g env i ids s).0
  acks : (env : Env) (seq : ℕ) → Step g s (ack env seq s).0
  goal : (env : Env) → Step g s (mark_goal_sent env s).0
  progress : (env : Env) (pop : String) (wave : ℕ) → Step g s (note_progress env pop wave s).0
  clear : (env : Env) (pop : String) → Step g s (clear_progress env pop s).0
  tally : (env : Env) (kind : String) (delta : ℤ) → Step g s (add_tally env kind delta s).0

pub data Reach (g : Game) (s : Store) : Store → Type 0 where
  here : Reach g s s
  next : {t u : Store} → Reach g s t → Step g t u → Reach g s u

pub Step-IsSound : {g : Game} {s t : Store} → Step g s t → IsSound g s → IsSound g t
Step-IsSound {g} {s} (check env id) h = add_check-IsSound g env id s h
Step-IsSound {g} {s} (adopt env ids) h = adopt_checks-IsSound g env ids s h
Step-IsSound {g} {s} (items env i ids) h = apply_items-IsSound g env i ids s h
Step-IsSound {g} {s} (acks env seq) h = ack-IsSound g env seq s h
Step-IsSound {g} {s} (goal env) h = mark_goal_sent-IsSound g env s h
Step-IsSound {g} {s} (progress env pop wave) h = note_progress-IsSound g env pop wave s h
Step-IsSound {g} {s} (clear env pop) h = clear_progress-IsSound g env pop s h
Step-IsSound {g} {s} (tally env kind delta) h = add_tally-IsSound g env kind delta s h
