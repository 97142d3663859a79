-- ===== src/State/Bind/Sound.antt =====
-- What holds of the store and of the files on disk over a store's whole life.
use tf2_archipelago.Prelude.{
  ℕ, ◌≡◌, refl, subst, inl, inr, Option, none, some, Bool, true, false, not, ◌&&◌, List, [], ◌∷◌,
  String, arith, nat_eq, string_eq, ◌==◌, ltb, Bool-cases, Option-cases,
}
use tf2_archipelago.Prelude.Dict.{lookup}
use tf2_archipelago.Gamedata.Game.{Game}
use tf2_archipelago.State.Grants.{grants_from}
use tf2_archipelago.State.Snapshot.{
  Snapshot, StatePath, elems, whole, empty_snapshot, archive_names,
}
use tf2_archipelago.State.Disk.{
  Disk, Body, Move, moved, unmoved, unflushed, saved, garbage, upgrade, read_body, free,
  archive_path, archive_snapshot, pick_newer, newer, newest_of, latest_archive,
}
use tf2_archipelago.State.Store.{Store, Env, Error, persist}
use tf2_archipelago.State.Store.Lists.{AreLists}
use tf2_archipelago.State.Store.Invariant.{IsSound, Step-IsSound}
use tf2_archipelago.State.Store.Files.{
  IsSoundRun, SoundDisk, move_file-SoundDisk, write_snapshot-SoundDisk, Step-SoundDisk,
}
use tf2_archipelago.State.Bind.{
  BindEnv, Rebind, bind_seed, first_seed, set_aside, take_over, bind_end, give_back, next_run,
  set_seed,
}
use tf2_archipelago.State.Bind.Calls.{Calls, begin, call, bind}

archive_moved :
    (how : Move) (p : StatePath) (seed : String) (disk : Disk)
    → free disk (whole p) ≡ false
    → SoundDisk disk
    → SoundDisk (archive_snapshot how p seed disk).0
unfolding archive_snapshot
archive_moved moved p seed disk e h =
    rw (archive_snapshot, e) (move_file-SoundDisk (whole p) (archive_path disk p seed) disk h)
archive_moved unmoved p seed disk e h = rw (archive_snapshot, e) h
archive_moved unflushed p seed disk e h =
    rw (archive_snapshot, e) (move_file-SoundDisk (whole p) (archive_path disk p seed) disk h)

archive_snapshot-SoundDisk :
    (how : Move) (p : StatePath) (seed : String) (disk : Disk)
    → SoundDisk disk
    → SoundDisk (archive_snapshot how p seed disk).0
unfolding archive_snapshot
archive_snapshot-SoundDisk how p seed disk h = elim (Bool-cases (free disk (whole p))) [
  | inl e ↦ rw (archive_snapshot, e) h
  | inr e ↦ archive_moved how p seed disk e h
]

-- A run that is sound is sound as it is read, from a file of whatever version.
AreLists-self : (xs ys : List ℕ) → AreLists xs ys → AreLists xs xs
AreLists-self xs ys h = record {
  checks_once = h.checks_once;
  played_once = h.checks_once;
  played_checked = λ id i. i;
}

upgraded : (d : Snapshot) → IsSoundRun d → IsSoundRun (upgrade d)
unfolding upgrade
upgraded d r = elim (Bool-cases (ltb d.format_version 4)) [
  | inl e ↦ elim (Option-cases d.played) [
    | inl n ↦
        rw (upgrade, e, n)
          (record {
            lists = AreLists-self d.checks (elems d.played) r.lists;
            acked_within = r.acked_within;
          })
    | inr (own, n) ↦ rw (upgrade, e, n) (record { lists = r.lists; acked_within = r.acked_within })
  ]
  | inr e ↦ rw (upgrade, e) (record { lists = r.lists; acked_within = r.acked_within })
]

read_sound :
    (b : Body) (d : Snapshot) (version : ℕ)
    → ((d' : Snapshot) → b ≡ saved d' → IsSoundRun d')
    → read_body b ≡ some (d, version)
    → IsSoundRun d
unfolding read_body
read_sound garbage d version h e = ground arith
read_sound (saved d') d version h e =
    let same : upgrade d' ≡ d = ground arith in subst IsSoundRun same (upgraded d' (h d' refl))

-- What was found last is sound.
abbrev FoundSound : Option (Snapshot × String × ℕ) → Type 0
FoundSound none = Unit {0}
FoundSound (some (d, from, at)) = IsSoundRun d

pick_newer-FoundSound :
    (name : String) (d : Snapshot) (at : ℕ) (found : Option (Snapshot × String × ℕ))
    → IsSoundRun d
    → FoundSound found
    → FoundSound (some (pick_newer name d at found))
unfolding pick_newer
pick_newer-FoundSound name d at none r h = r
pick_newer-FoundSound name d at (some (old, from, newest)) r h = elim (Bool-cases (ltb at newest)) [
  | inl e ↦ rw (pick_newer, e) h
  | inr e ↦ rw (pick_newer, e) r
]

newer-FoundSound :
    (disk : Disk) (seed name : String) (found : Option (Snapshot × String × ℕ))
    → SoundDisk disk
    → FoundSound found
    → FoundSound (newer disk seed name found)
unfolding newer
newer-FoundSound disk seed name found sound h = elim (Option-cases (lookup name disk)) [
  | inl e ↦ rw (newer, e) h
  | inr (f, e) ↦ elim (Option-cases (read_body f.body)) [
    | inl r ↦ rw (newer, e, r) h
    | inr ((d, version), r) ↦ elim (Bool-cases (d.seed == seed)) [
      | inl same ↦
          rw (newer, e, r, same)
            (pick_newer-FoundSound name d f.mtime found
              (read_sound f.body d version (λ d' b. sound name f d' e b) r) h)
      | inr other ↦ rw (newer, e, r, other) h
    ]
  ]
]

newest_of-FoundSound :
    (disk : Disk) (seed : String) (names : List String) (found : Option (Snapshot × String × ℕ))
    → SoundDisk disk
    → FoundSound found
    → FoundSound (newest_of disk seed names found)
unfolding newest_of
newest_of-FoundSound disk seed [] found sound h = h
newest_of-FoundSound disk seed (n ∷ ns) found sound h =
    newest_of-FoundSound disk seed ns (newer disk seed n found) sound
      (newer-FoundSound disk seed n found sound h)

empty-IsSoundRun : (seed : String) → IsSoundRun (empty_snapshot seed)
empty-IsSoundRun seed = record {
  lists = record { checks_once = refl; played_once = refl; played_checked = λ id h. h };
  acked_within = omega arith;
}

next_run-IsSoundRun :
    (disk : Disk) (p : StatePath) (seed : String)
    → SoundDisk disk
    → IsSoundRun (next_run disk p seed).0
unfolding next_run latest_archive
next_run-IsSoundRun disk p seed sound =
    let newest = newest_of disk seed (archive_names p seed) none in
    let good = newest_of-FoundSound disk seed (archive_names p seed) none sound tt in
    elim (Option-cases newest) [
      | inl e ↦ rw (next_run, latest_archive, e) (empty-IsSoundRun seed)
      | inr ((d, from, at), e) ↦ rw (next_run, latest_archive, e) (subst FoundSound e good)
    ]

-- A sound store whose files hold sound runs.
pub record IsSoundAll (g : Game) (s : Store) : Type 0 where
  pub sound : IsSound g s
  pub files : SoundDisk s.disk

run_sound : (g : Game) (s : Store) → IsSound g s → IsSoundRun s.snap
run_sound g s h = record { lists = h.lists; acked_within = h.acked_within }

persist-IsSoundAll :
    (g : Game) (env : Env) (s : Store) → IsSoundAll g s → IsSoundAll g (persist env s).0
unfolding persist
persist-IsSoundAll g env s h = record {
  sound = record {
    lists = h.sound.lists;
    grants_made = h.sound.grants_made;
    acked_within = h.sound.acked_within;
  };
  files =
      write_snapshot-SoundDisk env.write env.now (whole s.path) s.snap s.disk
        (run_sound g s h.sound) h.files;
}

abbrev All : Game → Store × Rebind × Option Error → Type 0
All g r = IsSoundAll g r.0

set_seed-IsSoundAll :
    (g : Game) (seed : String) (s : Store) → IsSoundAll g s → IsSoundAll g (set_seed s seed)
set_seed-IsSoundAll g seed s h = record {
  sound = record {
    lists = h.sound.lists;
    grants_made = h.sound.grants_made;
    acked_within = h.sound.acked_within;
  };
  files = h.files;
}

first_seed-IsSoundAll :
    (g : Game) (env : Env) (seed : String) (s : Store)
    → IsSoundAll g s
    → All g (first_seed env seed s)
unfolding first_seed
first_seed-IsSoundAll g env seed s h =
    let q = persist env (set_seed s seed) in
    let on = persist-IsSoundAll g env (set_seed s seed) (set_seed-IsSoundAll g seed s h) in
    elim (Bool-cases q.1) [
      | inl e ↦ rw (first_seed, e) on
      | inr e ↦ rw (first_seed, e) (set_seed-IsSoundAll g "" q.0 on)
    ]

bind_end-IsSoundAll :
    (g : Game) (done back : Bool) (archive from : String) (before s : Store)
    → IsSound g before
    → IsSoundAll g s
    → All g (bind_end done back archive from before s)
unfolding bind_end give_back
bind_end-IsSoundAll g true back archive from before s b h = record {
  sound = record {
    lists = h.sound.lists;
    grants_made = h.sound.grants_made;
    acked_within = h.sound.acked_within;
  };
  files = h.files;
}
bind_end-IsSoundAll g false back archive from before s b h =
    let held : (disk : Disk)
        → SoundDisk disk
        → IsSoundAll g (record s { snap = before.snap; grants = before.grants; disk = disk }) =
      λ disk d. record {
        sound = record {
          lists = b.lists;
          grants_made = b.grants_made;
          acked_within = b.acked_within;
        };
        files = d;
      } in
    elim (Bool-cases (back && not (archive == ""))) [
      | inl e ↦ rw e (held _ (move_file-SoundDisk archive (whole s.path) s.disk h.files))
      | inr e ↦ rw e (held s.disk h.files)
    ]

set_aside-IsSoundAll :
    (g : Game) (e : BindEnv) (next : Snapshot × String) (s : Store) (aside : Disk × String × Bool)
    → IsSoundRun next.0
    → SoundDisk aside.0
    → IsSound g s
    → All g (set_aside g e next s aside)
unfolding set_aside take_over
set_aside-IsSoundAll g e (next, from) s (disk, archive, true) r d h =
    let t : Store = record s { snap = next; grants = grants_from g next.items; disk = disk } in
    bind_end-IsSoundAll g (persist e.env t).1 e.back archive from s (persist e.env t).0 h (
      persist-IsSoundAll g e.env t (record {
        sound = record { lists = r.lists; grants_made = refl; acked_within = r.acked_within };
        files = d;
      }))
set_aside-IsSoundAll g e next s (disk, archive, false) r d h = record {
  sound = record { lists = h.lists; grants_made = h.grants_made; acked_within = h.acked_within };
  files = d;
}

bind_seed-IsSoundAll :
    (g : Game) (e : BindEnv) (seed : String) (s : Store)
    → IsSoundAll g s
    → All g (bind_seed g e seed s)
unfolding bind_seed
bind_seed-IsSoundAll g e seed s h = elim (Bool-cases (s.snap.seed == seed)) [
  | inl same ↦ rw (bind_seed, same) h
  | inr other ↦ elim (Bool-cases (s.snap.seed == "")) [
    | inl new ↦ rw (bind_seed, other, new) (first_seed-IsSoundAll g e.env seed s h)
    | inr old ↦
        rw (bind_seed, other, old)
          (set_aside-IsSoundAll g e (next_run s.disk s.path seed) s
            (archive_snapshot e.archive s.path s.snap.seed s.disk)
            (next_run-IsSoundRun s.disk s.path seed h.files)
            (archive_snapshot-SoundDisk e.archive s.path s.snap.seed s.disk h.files) h.sound)
  ]
]

-- A store that is sound, and whose files hold sound runs, stays so and keeps them so, whatever calls
-- of methods that write are made, `BindSeed` among them, and however their writes and renames end: no
-- check is listed twice, what was played was checked, the grants are those of the items held, and no
-- acknowledgement is past the items.
pub Calls-IsSoundAll :
    {P : BindEnv → Option Error → Type 0} {g : Game} {s t : Store}
    → IsSoundAll g s
    → Calls P g s t
    → IsSoundAll g t
Calls-IsSoundAll h begin = h
Calls-IsSoundAll h (call c st) =
    let before = Calls-IsSoundAll h c in
    record {
      sound = Step-IsSound st before.sound;
      files = Step-SoundDisk st before.sound before.files;
    }
Calls-IsSoundAll {P} {g} h (bind e seed c p) =
    bind_seed-IsSoundAll g e seed _ (Calls-IsSoundAll h c)
