-- ===== src/State/Store/Covered.antt =====
-- When the state file covers a store: every check that the store lists stands in it. A call that
-- leaves the file and the lists, or writes a run that lists as much, keeps this; `add_check` does.
use tf2_archipelago.Prelude.{
  ℕ, ◌≡◌, ap, ◌⊎◌, inl, inr, Option, none, some, Bool, true, false, String, arith, nat_eq,
  string_eq, contains, Option-cases,
}
use tf2_archipelago.Prelude.Dict.{lookup, insert, lookup-insert_self}
use tf2_archipelago.Gamedata.Game.{Game}
use tf2_archipelago.Gamedata.Locations.{location_by_id}
use tf2_archipelago.State.Snapshot.{Snapshot, whole, elems}
use tf2_archipelago.State.Disk.{Entry, saved, garbage, write_snapshot}
use tf2_archipelago.State.Store.{
  Store, Env, persist, set_checks, grow, grow_played, add_check, add_known, add_check_end,
}
use tf2_archipelago.State.Store.Effects.{Kept, Grown, add_check_fields}
use tf2_archipelago.State.Store.Lists.{
  shrink-grow, shrink-grow_played, elems-grow_played, contains-grow,
}

-- The run in a file.
abbrev run_in : Option Entry → Option Snapshot
run_in none = none
run_in (some f) = elim f.body [ saved d ↦ some d | garbage ↦ none ]

abbrev run_checked : Option Snapshot → ℕ → Bool
run_checked none id = false
run_checked (some d) id = contains d.checks id

abbrev run_played : Option Snapshot → ℕ → Bool
run_played none id = false
run_played (some d) id = contains (elems d.played) id

-- Whether the state file lists a check, and lists it as played.
abbrev pub file_checked : Store → ℕ → Bool
file_checked s id = run_checked (run_in (lookup (whole s.path) s.disk)) id

abbrev pub file_played : Store → ℕ → Bool
file_played s id = run_played (run_in (lookup (whole s.path) s.disk)) id

-- Every check that the store lists stands in its file.
abbrev pub IsCovered : Store → Type 0
IsCovered s =
    (id : ℕ)
    → (contains s.snap.checks id ≡ true → file_checked s id ≡ true)
      × (contains (elems s.snap.played) id ≡ true → file_played s id ≡ true)

-- The file of a store now holds a run `d`.
abbrev pub Rewritten : ℕ → Snapshot → Store → Store → Type 0
Rewritten now d s s' =
    s'.disk ≡ insert (whole s.path) (record { mtime = now; body = saved d }) s.disk

-- A call leaves the file and the lists, or it writes a run that lists all that the store lists.
abbrev pub Writes : ℕ → Snapshot → Store → Store → Type 0
Writes now d s s' =
    (s'.path ≡ s.path)
    × (((s'.disk ≡ s.disk) × Kept s s')
        ⊎ (Rewritten now d s s'
            × ((id : ℕ) → contains s'.snap.checks id ≡ true → contains d.checks id ≡ true)
            × ((id : ℕ)
                → contains (elems s'.snap.played) id ≡ true
                → contains (elems d.played) id ≡ true)))

pub Writes-IsCovered :
    (now : ℕ) (d : Snapshot) (s s' : Store) → Writes now d s s' → IsCovered s → IsCovered s'
Writes-IsCovered now d s s' (p, inl (q, (a, b))) h id =
    (λ i. rw (p, q) ((h id).0 (rw (← a) i)), λ i. rw (p, q) ((h id).1 (rw (← b) i)))
Writes-IsCovered now d s s' (p, inr (q, a, b)) h id =
    let found = lookup-insert_self (whole s.path) (record { mtime = now; body = saved d }) s.disk in
    (λ i. rw (p, q, found) (a id i), λ i. rw (p, q, found) (b id i))

-- What `add_check` writes.
abbrev pub with_check : Store → ℕ → Store
with_check s id =
    set_checks s (grow (contains s.snap.checks id) s.snap.checks id)
      (grow_played (contains (elems s.snap.played) id) s.snap.played id)

add_known_disk :
    (env : Env) (id : ℕ) (name : String) (s : Store)
    → let s' =
        (add_known env id name
          (contains s.snap.checks id)
          (contains (elems s.snap.played) id)
          s).0 in
      (s'.path ≡ s.path)
      × (((s'.disk ≡ s.disk) × Kept s s') ⊎ Rewritten env.now (with_check s id).snap s s')
unfolding add_known add_check_end persist write_snapshot
add_known_disk env id name s = ground (
  arith,
  shrink-grow (contains s.snap.checks id) s.snap.checks id,
  shrink-grow_played (contains (elems s.snap.played) id) s.snap.played id,
)

-- A run with a check lists what the store listed.
with_check_lists :
    (s s' : Store) (id j : ℕ)
    → Grown id s s' ⊎ Kept s s'
    → (contains s'.snap.checks j ≡ true → contains (with_check s id).snap.checks j ≡ true)
      × (contains (elems s'.snap.played) j ≡ true
          → contains (elems (with_check s id).snap.played) j ≡ true)
with_check_lists s s' id j (inl (a, b)) = (
  λ i. rw (← a) i,
  λ i. rw (elems-grow_played (contains (elems s.snap.played) id) s.snap.played id, ← b) i,
)
with_check_lists s s' id j (inr (a, b)) = (
  λ i. ground (arith, contains-grow s.snap.checks id j, ap (λ z. contains z j) a),
  λ i.
      rw (elems-grow_played (contains (elems s.snap.played) id) s.snap.played id)
        (ground (arith, contains-grow (elems s.snap.played) id j, ap (λ z. contains z j) b)),
)

add_check_disk :
    (g : Game) (env : Env) (id : ℕ) (s : Store)
    → let s' = (add_check g env id s).0 in
      (s'.path ≡ s.path)
      × (((s'.disk ≡ s.disk) × Kept s s') ⊎ Rewritten env.now (with_check s id).snap s s')
unfolding add_check
add_check_disk g env id s = elim (Option-cases (location_by_id g.locations id)) [
  | inl n ↦ ground arith
  | inr (l, e) ↦ ground (arith, add_known_disk env id l.name s)
]

pub add_check-Writes :
    (g : Game) (env : Env) (id : ℕ) (s : Store)
    → Writes env.now (with_check s id).snap s (add_check g env id s).0
add_check-Writes g env id s =
    let s' = (add_check g env id s).0 in
    let (p, cases) = add_check_disk g env id s in
    let (_, lists) = add_check_fields g env id s in
    (
      p,
      elim cases [
        | inl k ↦ inl k
        | inr r ↦ inr (
          r,
          λ j. (with_check_lists s s' id j lists).0,
          λ j. (with_check_lists s s' id j lists).1,
        )
      ],
    )
