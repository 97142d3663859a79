-- ===== src/State/Bind.antt =====
-- Opening the state file and tying it to a seed (`Open` and `BindSeed` of
-- bridge/internal/state/state.go).
pub mod Bound
pub mod Calls
pub mod Sound
pub mod Covered
use tf2_archipelago.Prelude.{
  ℕ, Option, none, some, Bool, true, false, not, ◌&&◌, String, nat_eq, string_eq, ◌==◌,
  if◌then◌else◌,
}
use tf2_archipelago.Gamedata.Game.{Game}
use tf2_archipelago.State.Grants.{grants_from}
use tf2_archipelago.State.Snapshot.{Snapshot, StatePath, whole, empty_snapshot, format_version_now}
use tf2_archipelago.State.Disk.{
  Disk, Move, write_snapshot, read_snapshot, archive_snapshot, archive_format, latest_archive,
  move_file,
}
use tf2_archipelago.State.Store.{
  Store, Env, Error, write_failed, archive_failed, stranded, persist, broadcast,
}

-- What `BindSeed` did on disk; a name is empty where it did nothing.
pub record Rebind : Type 0 where
  pub archived : String
  pub restored : String

-- The surroundings of one call of `BindSeed`: as for every call, how the rename of the state file
-- ends, and whether the rename back works.
pub record BindEnv : Type 0 where
  pub env : Env
  pub archive : Move
  pub back : Bool

abbrev kept : Rebind
kept = record { archived = ""; restored = "" }

abbrev set_seed : Store → String → Store
set_seed s seed = record s { snap = record (s.snap) { seed = seed } }

-- The run that a seed goes on with: its newest archive, or an empty one.
next_run : Disk → StatePath → String → Snapshot × String
next_run disk p seed = elim (latest_archive disk p seed) [
  | some (d, from) ↦ (d, from)
  | none ↦ (empty_snapshot seed, "")
]

-- The store back at the run it held, with its file moved back if that works.
give_back : Bool → String → Store → Store → Store × Rebind × Option Error
give_back true archive before s = (
  record s {
    snap = before.snap;
    grants = before.grants;
    disk = move_file archive (whole s.path) s.disk;
  },
  kept,
  some write_failed,
)
give_back false archive before s = (
  record s { snap = before.snap; grants = before.grants },
  record { archived = archive; restored = "" },
  some stranded,
)

bind_end : Bool → Bool → String → String → Store → Store → Store × Rebind × Option Error
unfolding give_back
bind_end true back archive from before s =
    (broadcast s, record { archived = archive; restored = from }, none)
bind_end false back archive from before s = give_back (back && not (archive == "")) archive before s

-- The state file has been set aside, and the next run takes its place.
take_over :
    Game → BindEnv → Snapshot × String → String → Store → Disk → Store × Rebind × Option Error
unfolding bind_end
take_over g e (next, from) archive s disk =
    let (s', done) =
      persist e.env (record s { snap = next; grants = grants_from g next.items; disk = disk }) in
    bind_end done e.back archive from s s'

set_aside :
    Game
    → BindEnv
    → Snapshot × String
    → Store
    → Disk × String × Bool
    → Store × Rebind × Option Error
unfolding take_over
set_aside g e next s (disk, archive, true) = take_over g e next archive s disk
set_aside g e next s (disk, archive, false) = (record s { disk = disk }, kept, some archive_failed)

first_seed : Env → String → Store → Store × Rebind × Option Error
first_seed env seed s =
    let (s', done) = persist env (set_seed s seed) in
    if done then (s', kept, none) else (set_seed s' "", kept, some write_failed)

-- `Store.BindSeed`.
unfoldable pub bind_seed : Game → BindEnv → String → Store → Store × Rebind × Option Error
unfolding first_seed set_aside next_run
bind_seed g e seed s =
    if s.snap.seed == seed
    then (s, kept, none)
    else if s.snap.seed == ""
    then first_seed e.env seed s
    else set_aside g e (next_run s.disk s.path seed) s
        (archive_snapshot e.archive s.path s.snap.seed s.disk)

-- The store that `Open` returns.
opened : Game → StatePath → Snapshot → Disk → Store
opened g p d disk = record {
  path = p;
  snap = d;
  grants = grants_from g d.items;
  generation = 0;
  last_check = none;
  disk = disk;
}

-- A file of an older version is copied aside and written in the current shape. Here the disk is
-- what is left of a call that failed.
promote : Game → Env → Bool → StatePath → Snapshot → ℕ → Disk → Disk × Option Store
unfolding opened
promote g env copies p d version disk =
    let (disk', copied) = archive_format copies env.now p version disk in
    let (disk'', done) = write_snapshot env.write env.now (whole p) d disk' in
    if copied then (disk'', if done then some (opened g p d disk'') else none) else (disk', none)

-- `Open`, once the directory is there. The flag says that the copy of an older file can be made.
unfoldable pub open_store : Game → Env → Bool → StatePath → Disk → Disk × Option Store
unfolding promote opened
open_store g env copies p disk = elim (read_snapshot disk (whole p)) [
  | none ↦ (disk, none)
  | some (d, version) ↦
      if version == format_version_now
      then (disk, some (opened g p d disk))
      else promote g env copies p d version disk
]
