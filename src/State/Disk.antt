-- ===== src/State/Disk.antt =====
-- The state file and its archives on disk (bridge/internal/state/persist.go). The file system is a
-- map from names to files. What it does with a call is an input: an operation can fail before it has
-- changed anything, or after, when only the flush of the directory failed. The JSON codec is the
-- standard library's, which reads back what it wrote, so a file holds the record itself; a file that
-- cannot be read or parsed is `garbage`.
use tf2_archipelago.Prelude.{
  ℕ, Option, none, some, Bool, true, false, ◌||◌, List, [], ◌∷◌, String, nat_eq, string_eq, ◌==◌,
  ltb, if◌then◌else◌,
}
use tf2_archipelago.Prelude.Dict.{Dict, lookup, insert, erase}
use tf2_archipelago.State.Snapshot.{
  Snapshot, StatePath, whole, format_version_now, format_version_min, empty_snapshot, archive_names,
  format_name,
}

pub data Body : Type 0 where
  garbage : Body
  saved : Snapshot → Body

pub record Entry : Type 0 where
  pub mtime : ℕ
  pub body : Body

abbrev pub Disk : Type 0
Disk = Dict String Entry

-- How a write of the state file ends: done, failed with the file as it was, or failed after the
-- rename has put the new file there.
pub data Write : Type 0 where
  written unwritten unsynced : Write

-- `writeSnapshot`.
unfoldable pub write_snapshot : Write → ℕ → String → Snapshot → Disk → Disk × Bool
write_snapshot written now path d disk =
    (insert path (record { mtime = now; body = saved d }) disk, true)
write_snapshot unwritten now path d disk = (disk, false)
write_snapshot unsynced now path d disk =
    (insert path (record { mtime = now; body = saved d }) disk, false)

-- `readSnapshot`: the run in the file and the version it was written in; `none` is an error.
unfoldable pub upgrade : Snapshot → Snapshot
upgrade d =
    let promoted = record d { format_version = format_version_now } in
    if ltb d.format_version 4
    then elim d.played [ none ↦ record promoted { played = some d.checks } | some own ↦ promoted ]
    else promoted

unfoldable pub read_body : Body → Option (Snapshot × ℕ)
read_body garbage = none
read_body (saved d) =
    if ltb d.format_version format_version_min || ltb format_version_now d.format_version
    then none
    else some (upgrade d, d.format_version)

unfoldable pub read_snapshot : Disk → String → Option (Snapshot × ℕ)
unfolding read_body upgrade
read_snapshot disk path = elim (lookup path disk) [
  | none ↦ some (empty_snapshot "", format_version_now)
  | some f ↦ read_body f.body
]

-- `free`.
abbrev pub free : Disk → String → Bool
free disk name = elim (lookup name disk) [ none ↦ true | some f ↦ false ]

-- The first free name of a list.
unfoldable pub first_free : Disk → List String → Option String
first_free disk [] = none
first_free disk (n ∷ ns) = let rest = first_free disk ns in if free disk n then some n else rest

unfoldable pub head_or : List String → String
head_or [] = ""
head_or (n ∷ ns) = n

-- `archivePath`: past the last name the first one is used again.
unfoldable pub archive_path : Disk → StatePath → String → String
unfolding first_free head_or
archive_path disk p seed = elim (first_free disk (archive_names p seed)) [
  | some n ↦ n
  | none ↦ head_or (archive_names p seed)
]

-- `os.Rename` of a file that is there.
unfoldable pub move_file : String → String → Disk → Disk
move_file from to disk = elim (lookup from disk) [
  | none ↦ disk
  | some f ↦ insert to f (erase from disk)
]

-- How a rename ends: done, failed, or failed after the move when the directory was flushed.
pub data Move : Type 0 where
  moved unmoved unflushed : Move

-- `archiveSnapshot`: the disk, the archive's name, and whether it succeeded. The name is empty when
-- there was no file to set aside.
unfoldable pub archive_snapshot : Move → StatePath → String → Disk → Disk × String × Bool
unfolding move_file
archive_snapshot how p seed disk = if free disk (whole p) then (disk, "", true) else elim how [
  | moved ↦ (move_file (whole p) (archive_path disk p seed) disk, archive_path disk p seed, true)
  | unmoved ↦ (disk, "", false)
  | unflushed ↦
      (move_file (whole p) (archive_path disk p seed) disk, archive_path disk p seed, false)
]

-- A readable archive of the seed against the newest found so far, which it replaces unless it is
-- the older one.
unfoldable pub pick_newer :
    String → Snapshot → ℕ → Option (Snapshot × String × ℕ) → Snapshot × String × ℕ
pick_newer name d at none = (d, name, at)
pick_newer name d at (some (old, from, newest)) =
    if ltb at newest then (old, from, newest) else (d, name, at)

-- One candidate of `latestArchive`.
unfoldable pub newer :
    Disk → String → String → Option (Snapshot × String × ℕ) → Option (Snapshot × String × ℕ)
newer disk seed name found = elim (lookup name disk) [
  | none ↦ found
  | some f ↦ elim (read_body f.body) [
    | none ↦ found
    | some (d, version) ↦ if d.seed == seed then some (pick_newer name d f.mtime found) else found
  ]
]

unfoldable pub newest_of :
    Disk → String → List String → Option (Snapshot × String × ℕ) → Option (Snapshot × String × ℕ)
newest_of disk seed [] found = found
newest_of disk seed (n ∷ ns) found = newest_of disk seed ns (newer disk seed n found)

-- `latestArchive`.
unfoldable pub latest_archive : Disk → StatePath → String → Option (Snapshot × String)
unfolding newest_of newer pick_newer read_body upgrade
latest_archive disk p seed = elim (newest_of disk seed (archive_names p seed) none) [
  | none ↦ none
  | some (d, from, at) ↦ some (d, from)
]

-- `archiveFormat`: a copy at the version that the file was written in, unless one is there. The
-- flag says that the copy can be made.
unfoldable pub archive_format : Bool → ℕ → StatePath → ℕ → Disk → Disk × Bool
archive_format works now p version disk = elim (lookup (whole p) disk) [
  | none ↦ (disk, true)
  | some f ↦
      if free disk (format_name p version)
      then (if works
          then (insert (format_name p version) (record f { mtime = now }) disk, true)
          else (disk, false))
      else (disk, true)
]
