-- ===== src/State/Store.antt =====
-- The store (bridge/internal/state/state.go), method by method. A method that returns has the lock
-- throughout, so it is a function of the store; what it changes by a pointer is the store that it
-- returns. `generation` counts the channels that `broadcast` has closed: a watcher that took
-- generation n has been woken when the store's is past n.
pub mod Lists
pub mod Effects
pub mod Invariant
pub mod Covered
pub mod Written
pub mod Durable
pub mod Files
pub mod Sent
pub mod Kept
use tf2_archipelago.Prelude.{
  ℕ, zero, suc, ◌+◌, ◌-◌, Option, none, some, Bool, true, false, not, ◌&&◌, ◌||◌, List, [], ◌∷◌,
  ◌++◌, String, nat_eq, string_eq, ◌==◌, leb, ltb, if◌then◌else◌, contains, length, take, keep, min,
}
use tf2_archipelago.Prelude.Int.{ℤ, pos, negsuc}
use tf2_archipelago.Prelude.Dict.{Dict, lookup, insert, erase, value}
use tf2_archipelago.Gamedata.Game.{Game}
use tf2_archipelago.Gamedata.Locations.{Location, location_by_id}
use tf2_archipelago.State.Grants.{Grant, Unlocks, grants_from, unlocks_from}
use tf2_archipelago.State.Snapshot.{
  Snapshot, Resume, no_resume, StatePath, whole, elems, empty_snapshot, format_version_now,
}
use tf2_archipelago.State.Disk.{
  Disk, Entry, Body, saved, Write, written, Move, write_snapshot, read_snapshot, archive_snapshot,
  archive_format, latest_archive, move_file, free,
}

pub record Store : Type 0 where
  pub path : StatePath
  pub snap : Snapshot
  pub grants : List Grant
  pub generation : ℕ
  pub last_check : Option (String × ℕ)
  pub disk : Disk

-- What the surroundings do during one call: the clock, and how the write of the file ends.
pub record Env : Type 0 where
  pub now : ℕ
  pub write : Write

pub data Error : Type 0 where
  desync not_in_tables past_end write_failed archive_failed stranded unreadable panicked : Error

pub record Stats : Type 0 where
  pub seed : String
  pub checks : ℕ
  pub items : ℕ
  pub acked_seq : ℕ
  pub goal_sent : Bool
  pub last_check : Option (String × ℕ)

-- `Store.persist`.
unfoldable pub persist : Env → Store → Store × Bool
persist env s =
    let (disk, done) = write_snapshot env.write env.now (whole s.path) s.snap s.disk in
    (record s { disk = disk }, done)

abbrev pub broadcast : Store → Store
broadcast s = record s { generation = suc s.generation }

-- `Store.Watch`.
pub watch : Store → ℕ
watch s = s.generation

-- `Store.Stats`.
unfoldable pub stats : Store → Stats
stats s = record {
  seed = s.snap.seed;
  checks = length s.snap.checks;
  items = length s.snap.items;
  acked_seq = s.snap.acked_seq;
  goal_sent = s.snap.goal_sent;
  last_check = s.last_check;
}

-- A slice less its last element.
abbrev pub drop_last {ℓ} : {A : Type ℓ} → List A → List A
drop_last xs = take (length xs - 1) xs

abbrev pub set_checks : Store → List ℕ → Option (List ℕ) → Store
set_checks s checks played = record s {
  snap = record (s.snap) { checks = checks; played = played };
}

-- The lists of `AddCheck` after its appends, and after its roll back.
abbrev pub grow : Bool → List ℕ → ℕ → List ℕ
grow held xs id = if held then xs else xs ++ (id ∷ [])

abbrev pub shrink : Bool → List ℕ → List ℕ
shrink held xs = if held then xs else drop_last xs

abbrev grow_played : Bool → Option (List ℕ) → ℕ → Option (List ℕ)
grow_played held xs id = if held then xs else some (elems xs ++ (id ∷ []))

abbrev shrink_played : Bool → Option (List ℕ) → Option (List ℕ)
shrink_played held xs = if held then xs else some (drop_last (elems xs))

-- How `AddCheck` ends, by whether the write was done.
add_check_end : Bool → Env → Bool → Bool → String → Store → Store × Bool × Option Error
add_check_end true env had_check had_played name s =
    (broadcast (record s { last_check = some (name, env.now) }), true, none)
add_check_end false env had_check had_played name s = (
  set_checks s (shrink had_check s.snap.checks) (shrink_played had_played s.snap.played),
  false,
  some write_failed,
)

add_known : Env → ℕ → String → Bool → Bool → Store → Store × Bool × Option Error
unfolding add_check_end
add_known env id name had_check had_played s =
    let (s', done) =
      persist env (
        set_checks s (grow had_check s.snap.checks id) (grow_played had_played s.snap.played id)) in
    add_check_end done env had_check had_played name s'

-- `Store.AddCheck`.
unfoldable pub add_check : Game → Env → ℕ → Store → Store × Bool × Option Error
unfolding add_known
add_check g env id s = elim (location_by_id g.locations id) [
  | none ↦ (s, false, some not_in_tables)
  | some l ↦
      if contains s.snap.checks id && contains (elems s.snap.played) id
      then (s, false, none)
      else add_known env id l.name (contains s.snap.checks id) (contains (elems s.snap.played) id) s
]

abbrev known : Game → ℕ → Bool
known g id = elim (location_by_id g.locations id) [ none ↦ false | some l ↦ true ]

-- One round of the loop of `AdoptChecks`.
pub adopt_one : Game → List ℕ → ℕ → List ℕ
adopt_one g checks id =
    if known g id && not (contains checks id) then checks ++ (id ∷ []) else checks

pub adopt_loop : Game → List ℕ → List ℕ → List ℕ
adopt_loop g checks [] = checks
adopt_loop g checks (id ∷ ids) = adopt_loop g (adopt_one g checks id) ids

abbrev set_only_checks : Store → List ℕ → Store
set_only_checks s checks = record s { snap = record (s.snap) { checks = checks } }

adopt_end : Bool → ℕ → ℕ → Store → Store × ℕ × Option Error
adopt_end true held adopted s = (broadcast s, adopted, none)
adopt_end false held adopted s = (set_only_checks s (take held s.snap.checks), 0, some write_failed)

-- `Store.AdoptChecks`.
unfoldable pub adopt_checks : Game → Env → List ℕ → Store → Store × ℕ × Option Error
unfolding adopt_loop adopt_one adopt_end
adopt_checks g env ids s =
    let checks = adopt_loop g s.snap.checks ids in
    let held = length s.snap.checks in
    if length checks - held == 0
    then (s, 0, none)
    else let (s', done) = persist env (set_only_checks s checks) in
      adopt_end done held (length checks - held) s'

abbrev set_items : Store → List ℕ → List Grant → ℕ → Store
set_items s items grants acked = record s {
  snap = record (s.snap) { items = items; acked_seq = acked };
  grants = grants;
}

apply_end : Bool → Store → Store → Store × Option Error
apply_end true before s = (broadcast s, none)
apply_end false before s =
    (set_items s before.snap.items before.grants before.snap.acked_seq, some write_failed)

-- `Store.ApplyItems`: a slice to a negative index is a panic, and the deferred unlock leaves the
-- store as it was.
unfoldable pub apply_items : Game → Env → ℤ → List ℕ → Store → Store × Option Error
unfolding apply_end
apply_items g env (negsuc n) ids s = (s, some panicked)
apply_items g env (pos index) ids s =
    if ltb (length s.snap.items) index
    then (s, some desync)
    else let items = take index s.snap.items ++ ids in
      let (s', done) =
        persist env
          (set_items s items (grants_from g items) (min s.snap.acked_seq (length items))) in
      apply_end done s s'

-- Whether `GrantsSince` sends a grant.
abbrev pub is_fresh : ℕ → ℕ → Grant → Bool
is_fresh since acked grant = ltb since grant.seq && not (grant.is_one_shot && leb grant.seq acked)

-- `Store.GrantsSince`.
unfoldable pub grants_since : ℕ → Store → List Grant × ℕ
grants_since since s = (keep (is_fresh since s.snap.acked_seq) s.grants, length s.snap.items)

abbrev set_acked : Store → ℕ → Store
set_acked s seq = record s { snap = record (s.snap) { acked_seq = seq } }

-- `Store.Ack`.
unfoldable pub ack : Env → ℕ → Store → Store × Option Error
ack env seq s =
    if ltb (length s.snap.items) seq
    then (s, some past_end)
    else if leb seq s.snap.acked_seq
    then (s, none)
    else let (s', done) = persist env (set_acked s seq) in
      if done then (s', none) else (set_acked s' s.snap.acked_seq, some write_failed)

-- `Store.Unlocks`.
unfoldable pub unlocks : Store → Unlocks
unlocks s = unlocks_from s.grants s.snap.acked_seq (length s.snap.items)

abbrev set_goal : Store → Bool → Store
set_goal s sent = record s { snap = record (s.snap) { goal_sent = sent } }

-- `Store.MarkGoalSent`.
unfoldable pub mark_goal_sent : Env → Store → Store × Option Error
mark_goal_sent env s =
    if s.snap.goal_sent
    then (s, none)
    else let (s', done) = persist env (set_goal s true) in
      if done then (broadcast s', none) else (set_goal s' false, some write_failed)

abbrev moves_resume : Resume → String → ℕ → Bool
moves_resume held pop wave = not (held.pop_file == pop) || ltb held.wave wave

abbrev note_resume : Resume → String → ℕ → Resume
note_resume held pop wave =
    if moves_resume held pop wave then record { pop_file = pop; wave = wave } else held

abbrev note_reached : Dict String ℕ → String → ℕ → Dict String ℕ
note_reached reached pop wave =
    if ltb (value pop reached) wave then insert pop wave reached else reached

abbrev set_progress : Store → Resume → Dict String ℕ → Store
set_progress s resume reached = record s {
  snap = record (s.snap) { resume = resume; reached = reached };
}

abbrev or_write_failed : Store × Bool → Store × Option Error
or_write_failed (s, done) = (s, if done then none else some write_failed)

-- `Store.NoteProgress`: a write that fails leaves the record moved in memory.
unfoldable pub note_progress : Env → String → ℕ → Store → Store × Option Error
note_progress env pop wave s =
    if pop == "" || wave == 0
    then (s, none)
    else if moves_resume s.snap.resume pop wave || ltb (value pop s.snap.reached) wave
    then or_write_failed (
        persist env (
          set_progress s (note_resume s.snap.resume pop wave)
            (note_reached s.snap.reached pop wave)))
    else (s, none)

abbrev set_tallies : Store → Dict String ℕ → Store
set_tallies s tallies = record s { snap = record (s.snap) { tallies = tallies } }

-- `Store.AddTally`.
unfoldable pub add_tally : Env → String → ℤ → Store → Store × ℕ × Option Error
add_tally env kind (negsuc n) s = (s, value kind s.snap.tallies, none)
add_tally env kind (pos delta) s =
    if delta == 0
    then (s, value kind s.snap.tallies, none)
    else let held = value kind s.snap.tallies in
      let (s', done) = persist env (set_tallies s (insert kind (held + delta) s.snap.tallies)) in
      if done
      then (s', held + delta, none)
      else (set_tallies s' (insert kind held s'.snap.tallies), held, some write_failed)

abbrev has_key : String → Dict String ℕ → Bool
has_key k m = elim (lookup k m) [ none ↦ false | some v ↦ true ]

abbrev is_no_resume : Resume → Bool
is_no_resume r = r.pop_file == "" && r.wave == 0

-- `Store.ClearProgress`.
unfoldable pub clear_progress : Env → String → Store → Store × Option Error
clear_progress env pop s =
    if is_no_resume s.snap.resume && not (has_key pop s.snap.reached)
    then (s, none)
    else or_write_failed (persist env (set_progress s no_resume (erase pop s.snap.reached)))
