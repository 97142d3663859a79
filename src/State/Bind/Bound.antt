-- ===== src/State/Bind/Bound.antt =====
-- What `bind_seed` leaves the store with.
use tf2_archipelago.Prelude.{
  ℕ, ◌≡◌, refl, sym, ap, subst, ◌∙◌, inl, inr, Option, none, some, Bool, true, false, not, ◌&&◌,
  List, [], ◌∷◌, String, arith, nat_eq, string_eq, ◌==◌, Bool-cases, Option-cases, if◌then◌else◌,
}
use tf2_archipelago.Prelude.Dict.{lookup}
use tf2_archipelago.Gamedata.Game.{Game}
use tf2_archipelago.State.Grants.{grants_from}
use tf2_archipelago.State.Snapshot.{Snapshot, StatePath, archive_names}
use tf2_archipelago.State.Disk.{
  Disk, read_body, newer, newest_of, pick_newer, latest_archive, archive_snapshot,
}
use tf2_archipelago.State.Store.{Store, Env, Error, write_failed, persist}
use tf2_archipelago.State.Store.Invariant.{persist_keeps}
use tf2_archipelago.State.Bind.{
  BindEnv, Rebind, bind_seed, first_seed, set_aside, take_over, bind_end, give_back, next_run,
  set_seed, kept,
}

-- What was found last is of the seed that is looked for.
abbrev found_of : String → Option (Snapshot × String × ℕ) → Bool
found_of seed none = true
found_of seed (some (d, from, at)) = d.seed == seed

pick_newer-found :
    (seed name : String) (d : Snapshot) (at : ℕ) (found : Option (Snapshot × String × ℕ))
    → (d.seed == seed) ≡ true
    → found_of seed found ≡ true
    → found_of seed (some (pick_newer name d at found)) ≡ true
unfolding pick_newer
pick_newer-found seed name d at none e h = e
pick_newer-found seed name d at (some (old, from, newest)) e h = ground arith

newer-found :
    (disk : Disk) (seed name : String) (found : Option (Snapshot × String × ℕ))
    → found_of seed found ≡ true
    → found_of seed (newer disk seed name found) ≡ true
unfolding newer
newer-found disk seed name found h = elim (Option-cases (lookup name disk)) [
  | inl e ↦ again (rw (newer, e) refl)
  | inr (f, e) ↦ elim (Option-cases (read_body f.body)) [
    | inl r ↦ again (rw (newer, e, r) refl)
    | inr ((d, version), r) ↦ elim (Bool-cases (d.seed == seed)) [
      | inl same ↦
          let q : newer disk seed name found ≡ some (pick_newer name d f.mtime found) =
            rw (newer, e, r, same) refl in
          subst (λ z. found_of seed z ≡ true) (sym q)
            (pick_newer-found seed name d f.mtime found same h)
      | inr other ↦ again (rw (newer, e, r, other) refl)
    ]
  ]
]
  where
    again : newer disk seed name found ≡ found → found_of seed (newer disk seed name found) ≡ true
    again q = subst (λ z. found_of seed z ≡ true) (sym q) h

newest_of-found :
    (disk : Disk) (seed : String) (names : List String) (found : Option (Snapshot × String × ℕ))
    → found_of seed found ≡ true
    → found_of seed (newest_of disk seed names found) ≡ true
unfolding newest_of
newest_of-found disk seed [] found h = h
newest_of-found disk seed (n ∷ ns) found h =
    newest_of-found disk seed ns (newer disk seed n found) (newer-found disk seed n found h)

next_run_seed : (disk : Disk) (p : StatePath) (seed : String) → (next_run disk p seed).0.seed ≡ seed
unfolding next_run latest_archive
next_run_seed disk p seed =
    let newest = newest_of disk seed (archive_names p seed) none in
    let good = newest_of-found disk seed (archive_names p seed) none refl in
    elim (Option-cases newest) [
      | inl e ↦ rw (next_run, latest_archive, e) refl
      | inr ((d, from, at), e) ↦
          let same : (d.seed == seed) ≡ true = subst (λ z. found_of seed z ≡ true) e good in
          rw (next_run, latest_archive, e) ((string_eq.beq_iff d.seed seed).0 same)
    ]

-- By how it ends, a store is bound to a seed or holds the run it held.
abbrev Outcome : Store → String → Store × Rebind × Option Error → Type 0
Outcome s seed (s', r, none) = s'.snap.seed ≡ seed
Outcome s seed (s', r, some e) = (s'.snap ≡ s.snap) × (s'.grants ≡ s.grants)

bind_end-Outcome :
    (done back : Bool) (archive from seed : String) (before s : Store)
    → s.snap.seed ≡ seed
    → Outcome before seed (bind_end done back archive from before s)
unfolding bind_end give_back
bind_end-Outcome true back archive from seed before s h = h
bind_end-Outcome false back archive from seed before s h =
    elim (Bool-cases (back && not (archive == ""))) [
      | inl e ↦ rw e (refl, refl)
      | inr e ↦ rw e (refl, refl)
    ]

take_over-Outcome :
    (g : Game) (e : BindEnv) (next : Snapshot × String) (archive seed : String) (s : Store)
    (disk : Disk)
    → next.0.seed ≡ seed
    → Outcome s seed (take_over g e next archive s disk)
unfolding take_over
take_over-Outcome g e (next, from) archive seed s disk h =
    let t : Store = record s { snap = next; grants = grants_from g next.items; disk = disk } in
    let (done, _, _, _, _) = persist_keeps e.env t in
    bind_end-Outcome (persist e.env t).1 e.back archive from seed s (persist e.env t).0
      (ap (λ d. d.seed) done ∙ h)

set_aside-Outcome :
    (g : Game) (e : BindEnv) (next : Snapshot × String) (seed : String) (s : Store)
    (aside : Disk × String × Bool)
    → next.0.seed ≡ seed
    → Outcome s seed (set_aside g e next s aside)
unfolding set_aside
set_aside-Outcome g e next seed s (disk, archive, true) h =
    take_over-Outcome g e next archive seed s disk h
set_aside-Outcome g e next seed s (disk, archive, false) h = (refl, refl)

abbrev with_seed : String → Snapshot → Snapshot
with_seed seed d = record d { seed = seed }

first_end-Outcome :
    (done : Bool) (seed : String) (s t : Store)
    → t.snap ≡ (set_seed s seed).snap
    → t.grants ≡ s.grants
    → s.snap.seed ≡ ""
    → Outcome s seed (if done then (t, kept, none) else (set_seed t "", kept, some write_failed))
first_end-Outcome true seed s t e f h = ap (λ d. d.seed) e
first_end-Outcome false seed s t e f h =
    (ap (with_seed "") e ∙ ap (λ x. with_seed x s.snap) (sym h), f)

first_seed-Outcome :
    (env : Env) (seed : String) (s : Store)
    → s.snap.seed ≡ ""
    → Outcome s seed (first_seed env seed s)
unfolding first_seed
first_seed-Outcome env seed s h =
    let (a, b, _, _, _) = persist_keeps env (set_seed s seed) in
    first_end-Outcome (persist env (set_seed s seed)).1 seed s (persist env (set_seed s seed)).0 a b
      h

bind_seed-Outcome :
    (g : Game) (e : BindEnv) (seed : String) (s : Store) → Outcome s seed (bind_seed g e seed s)
unfolding bind_seed
bind_seed-Outcome g e seed s = elim (Bool-cases (s.snap.seed == seed)) [
  | inl same ↦ rw same ((string_eq.beq_iff s.snap.seed seed).0 same)
  | inr other ↦ elim (Bool-cases (s.snap.seed == "")) [
    | inl new ↦
        rw (other, new) (first_seed-Outcome e.env seed s ((string_eq.beq_iff s.snap.seed "").0 new))
    | inr old ↦
        rw (other, old)
          (set_aside-Outcome g e (next_run s.disk s.path seed) seed s
            (archive_snapshot e.archive s.path s.snap.seed s.disk)
            (next_run_seed s.disk s.path seed))
  ]
]

Outcome-parts :
    (s : Store) (seed : String) (r : Store × Rebind × Option Error)
    → Outcome s seed r
    → (r.2 ≡ none → r.0.snap.seed ≡ seed)
      × ((why : Error) → r.2 ≡ some why → (r.0.snap ≡ s.snap) × (r.0.grants ≡ s.grants))
Outcome-parts s seed (s', r, none) o = (λ e. o, λ why e. ground arith)
Outcome-parts s seed (s', r, some x) o = (λ e. ground arith, λ why e. o)

-- When the store is tied to a seed and no error comes back, it holds a run of that seed; when an error
-- does, it holds the run and the grants that it held.
pub bind_seed_outcome :
    (g : Game) (e : BindEnv) (seed : String) (s : Store)
    → let r = bind_seed g e seed s in
      (r.2 ≡ none → r.0.snap.seed ≡ seed)
      × ((why : Error) → r.2 ≡ some why → (r.0.snap ≡ s.snap) × (r.0.grants ≡ s.grants))
bind_seed_outcome g e seed s =
    Outcome-parts s seed (bind_seed g e seed s) (bind_seed-Outcome g e seed s)
