-- ===== src/State/Store/Effects.antt =====
-- What each method of the store does to the lists of checks, the items and what is made of them.
use tf2_archipelago.Prelude.{
  ℕ, ◌≤◌, ◌≡◌, sym, ap, ◌∙◌, ◌⊎◌, inl, inr, not, ◌&&◌, List, [], ◌∷◌, ◌++◌, String, arith, nat_eq,
  contains, length, take, min, Bool-cases, Option-cases,
}
use mathlib.Core.List.{append-nil, append_assoc}
use tf2_archipelago.Prelude.Int.{pos}
use tf2_archipelago.Prelude.Laws.{take-append_self}
use tf2_archipelago.Gamedata.Game.{Game}
use tf2_archipelago.Gamedata.Locations.{location_by_id}
use tf2_archipelago.State.Grants.{grants_from}
use tf2_archipelago.State.Snapshot.{elems}
use tf2_archipelago.State.Disk.{write_snapshot}
use tf2_archipelago.State.Store.{
  Store, Env, persist, grow, add_check, add_known, add_check_end, adopt_checks, adopt_loop,
  adopt_one, adopt_end, apply_items, apply_end, ack, known,
}
use tf2_archipelago.State.Store.Lists.{shrink-grow, shrink-grow_played, elems-grow_played}

-- The lists after `add_check` are those with the check, or those from before.
abbrev pub Kept : Store → Store → Type 0
Kept s s' = (s'.snap.checks ≡ s.snap.checks) × (elems s'.snap.played ≡ elems s.snap.played)

abbrev pub Grown : ℕ → Store → Store → Type 0
Grown id s s' =
    (s'.snap.checks ≡ grow (contains s.snap.checks id) s.snap.checks id)
    × (elems s'.snap.played ≡ grow (contains (elems s.snap.played) id) (elems s.snap.played) id)

abbrev pub SameRest : Store → Store → Type 0
SameRest s s' =
    (s'.grants ≡ s.grants) × (s'.snap.items ≡ s.snap.items) × (s'.snap.acked_seq ≡ s.snap.acked_seq)

add_known_fields :
    (env : Env) (id : ℕ) (name : String) (s : Store)
    → let r =
        add_known env id name (contains s.snap.checks id) (contains (elems s.snap.played) id) s in
      SameRest s r.0 × (Grown id s r.0 ⊎ Kept s r.0)
unfolding add_known add_check_end persist write_snapshot
add_known_fields env id name s = ground (
  arith,
  shrink-grow (contains s.snap.checks id) s.snap.checks id,
  shrink-grow_played (contains (elems s.snap.played) id) s.snap.played id,
  elems-grow_played (contains (elems s.snap.played) id) s.snap.played id,
)

pub add_check_fields :
    (g : Game) (env : Env) (id : ℕ) (s : Store)
    → SameRest s (add_check g env id s).0
      × (Grown id s (add_check g env id s).0 ⊎ Kept s (add_check g env id s).0)
unfolding add_check
add_check_fields g env id s = elim (Option-cases (location_by_id g.locations id)) [
  | inl n ↦ ground arith
  | inr (l, e) ↦ ground (arith, add_known_fields env id l.name s)
]

pub adopt_one_extends :
    (g : Game) (checks : List ℕ) (id : ℕ) → (new : List ℕ) × (adopt_one g checks id ≡ checks ++ new)
unfolding adopt_one
adopt_one_extends g checks id = elim (Bool-cases (known g id && not (contains checks id))) [
  | inl e ↦ (id ∷ [], rw e)
  | inr e ↦ ([], rw e (sym (append-nil checks)))
]

pub adopt_loop_extends :
    (g : Game) (ids checks : List ℕ) → (new : List ℕ) × (adopt_loop g checks ids ≡ checks ++ new)
unfolding adopt_loop
adopt_loop_extends g [] checks = ([], sym (append-nil checks))
adopt_loop_extends g (id ∷ ids) checks =
    let (one, p) = adopt_one_extends g checks id in
    let (new, q) = adopt_loop_extends g ids (adopt_one g checks id) in
    (one ++ new, q ∙ ap (λ z. z ++ new) p ∙ append_assoc checks one new)

pub adopt_back :
    (g : Game) (checks ids : List ℕ) → take (length checks) (adopt_loop g checks ids) ≡ checks
adopt_back g checks ids =
    let (new, p) = adopt_loop_extends g ids checks in rw p (take-append_self checks new)

pub adopt_checks_fields :
    (g : Game) (env : Env) (ids : List ℕ) (s : Store)
    → let s' = (adopt_checks g env ids s).0 in
      SameRest s s'
      × (elems s'.snap.played ≡ elems s.snap.played)
      × ((s'.snap.checks ≡ adopt_loop g s.snap.checks ids) ⊎ (s'.snap.checks ≡ s.snap.checks))
unfolding adopt_checks adopt_end persist write_snapshot
adopt_checks_fields g env ids s = ground (arith, adopt_back g s.snap.checks ids)

-- The items after `apply_items`, where it took them, and all that is made from them.
abbrev pub Applied : Game → ℕ → List ℕ → Store → Store → Type 0
Applied g i ids s s' =
    (s'.snap.items ≡ take i s.snap.items ++ ids)
    × (s'.grants ≡ grants_from g (take i s.snap.items ++ ids))
    × (s'.snap.acked_seq ≡ min s.snap.acked_seq (length (take i s.snap.items ++ ids)))

pub apply_items_fields :
    (g : Game) (env : Env) (i : ℕ) (ids : List ℕ) (s : Store)
    → Kept s (apply_items g env (pos i) ids s).0
      × (Applied g i ids s (apply_items g env (pos i) ids s).0
          ⊎ SameRest s (apply_items g env (pos i) ids s).0)
unfolding apply_items apply_end persist write_snapshot
apply_items_fields g env i ids s = ground arith

pub ack_fields :
    (env : Env) (seq : ℕ) (s : Store)
    → s.snap.acked_seq ≤ length s.snap.items
    → let s' = (ack env seq s).0 in
      Kept s s'
      × (s'.grants ≡ s.grants)
      × (s'.snap.items ≡ s.snap.items)
      × (s'.snap.acked_seq ≤ length s.snap.items)
unfolding ack persist write_snapshot
ack_fields env seq s h = ground arith
