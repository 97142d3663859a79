-- ===== src/State/Store/Files.antt =====
-- What holds of the runs in the files on disk, whatever calls are made.
use tf2_archipelago.Prelude.{
  ℕ, ◌+◌, ◌≤◌, ◌≡◌, sym, ap, subst, ◌∙◌, inl, inr, none, some, true, List, [], ◌++◌, String, arith,
  nat_eq, string_eq, ◌==◌, ltb, length, take, min, contains, Bool-cases, Option-cases,
  if◌then◌else◌,
}
use tf2_archipelago.Prelude.Int.{pos, negsuc}
use tf2_archipelago.Prelude.Dict.{lookup, insert, erase, value, lookup-insert, lookup-erase}
use tf2_archipelago.Gamedata.Game.{Game}
use tf2_archipelago.State.Grants.{grants_from}
use tf2_archipelago.State.Snapshot.{Snapshot, elems, whole, no_resume}
use tf2_archipelago.State.Disk.{
  Disk, Entry, saved, Write, written, unwritten, unsynced, write_snapshot, move_file,
}
use tf2_archipelago.State.Store.{
  Store, Env, ack, apply_items, add_tally, add_check, adopt_checks, mark_goal_sent, note_progress,
  clear_progress, set_only_checks, adopt_loop, set_items, set_acked, set_goal, set_progress,
  set_tallies, note_resume, note_reached,
}
use tf2_archipelago.State.Store.Lists.{AreLists, AreLists-grow, elems-grow_played}
use tf2_archipelago.State.Store.Invariant.{
  IsSound, Step, check, adopt, items, acks, goal, progress, clear, tally, adopt_loop-AreLists,
}
use tf2_archipelago.State.Store.Covered.{Writes, with_check, add_check-Writes}
use tf2_archipelago.State.Store.Written.{
  ack-Writes, mark_goal_sent-Writes, note_progress-Writes, clear_progress-Writes, add_tally-Writes,
  apply_items-Writes, adopt_checks-Writes,
}

-- A run that repeats no check, was played where it was checked, and has no acknowledgement past the
-- items.
pub record IsSoundRun (d : Snapshot) : Type 0 where
  pub lists : AreLists d.checks (elems d.played)
  pub acked_within : d.acked_seq ≤ length d.items

-- Every run in a file is sound.
abbrev pub SoundDisk : Disk → Type 0
SoundDisk disk =
    (name : String) (f : Entry) (d : Snapshot)
    → lookup name disk ≡ some f
    → f.body ≡ saved d
    → IsSoundRun d

pub insert-SoundDisk :
    (disk : Disk) (name : String) (f : Entry)
    → ((d : Snapshot) → f.body ≡ saved d → IsSoundRun d)
    → SoundDisk disk
    → SoundDisk (insert name f disk)
insert-SoundDisk disk name f new h n f' d at body = elim (Bool-cases (name == n)) [
  | inl e ↦
      let same : some f ≡ some f' =
        sym (lookup-insert name n f disk ∙ ap (λ b. if b then some f else lookup n disk) e) ∙ at in
      new d (ap (λ z. z.body) (the_same f f' same) ∙ body)
  | inr e ↦
      h n f' d
        (sym (lookup-insert name n f disk ∙ ap (λ b. if b then some f else lookup n disk) e) ∙ at)
        body
]
  where
    the_same : (a b : Entry) → some a ≡ some b → a ≡ b
    the_same a b k = ground arith

erase-SoundDisk : (disk : Disk) (name : String) → SoundDisk disk → SoundDisk (erase name disk)
erase-SoundDisk disk name h n f d at body = elim (Bool-cases (name == n)) [
  | inl e ↦ absurd (
      missing f
        (sym (lookup-erase name n disk ∙ ap (λ b. if b then none else lookup n disk) e) ∙ at))
  | inr e ↦
      h n f d (sym (lookup-erase name n disk ∙ ap (λ b. if b then none else lookup n disk) e) ∙ at)
        body
]
  where
    missing : (a : Entry) → none ≡ some a → ⊥
    missing a k = ground arith

pub move_file-SoundDisk :
    (from to : String) (disk : Disk) → SoundDisk disk → SoundDisk (move_file from to disk)
unfolding move_file
move_file-SoundDisk from to disk h = elim (Option-cases (lookup from disk)) [
  | inl e ↦ rw (move_file, e) h
  | inr (f, e) ↦
      rw (move_file, e)
        (insert-SoundDisk (erase from disk) to f (λ d b. h from f d e b)
          (erase-SoundDisk disk from h))
]

saved_sound : (d d' : Snapshot) → saved d ≡ saved d' → IsSoundRun d → IsSoundRun d'
saved_sound d d' b r = let e : d ≡ d' = ground arith in subst IsSoundRun e r

pub write_snapshot-SoundDisk :
    (how : Write) (now : ℕ) (path : String) (d : Snapshot) (disk : Disk)
    → IsSoundRun d
    → SoundDisk disk
    → SoundDisk (write_snapshot how now path d disk).0
unfolding write_snapshot
write_snapshot-SoundDisk written now path d disk r h =
    insert-SoundDisk disk path (record { mtime = now; body = saved d })
      (λ d' b. saved_sound d d' b r) h
write_snapshot-SoundDisk unwritten now path d disk r h = h
write_snapshot-SoundDisk unsynced now path d disk r h =
    insert-SoundDisk disk path (record { mtime = now; body = saved d })
      (λ d' b. saved_sound d d' b r) h

Writes-SoundDisk :
    (now : ℕ) (d : Snapshot) (s s' : Store)
    → Writes now d s s'
    → IsSoundRun d
    → SoundDisk s.disk
    → SoundDisk s'.disk
Writes-SoundDisk now d s s' (p, inl (q, k)) r h = subst SoundDisk (sym q) h
Writes-SoundDisk now d s s' (p, inr (q, k, l)) r h = subst SoundDisk (sym q) (
    insert-SoundDisk s.disk (whole s.path) (record { mtime = now; body = saved d })
      (λ d' b. saved_sound d d' b r) h)

ack-SoundDisk :
    (g : Game) (env : Env) (seq : ℕ) (s : Store)
    → IsSound g s
    → SoundDisk s.disk
    → SoundDisk (ack env seq s).0.disk
unfolding ack
ack-SoundDisk g env seq s i h = elim (Bool-cases (ltb (length s.snap.items) seq)) [
  | inl e ↦ rw (ack, e) h
  | inr e ↦
      Writes-SoundDisk env.now (set_acked s seq).snap s (ack env seq s).0 (ack-Writes env seq s)
        (record { lists = i.lists; acked_within = ground arith }) h
]

negative-SoundDisk :
    (g : Game) (env : Env) (kind : String) (n : ℕ) (ids : List ℕ) (s : Store)
    → SoundDisk s.disk
    → SoundDisk (apply_items g env (negsuc n) ids s).0.disk
      × SoundDisk (add_tally env kind (negsuc n) s).0.disk
unfolding apply_items add_tally
negative-SoundDisk g env kind n ids s h = (h, h)

-- A call of a sound store leaves every run on disk sound.
pub Step-SoundDisk :
    {g : Game} {s t : Store} → Step g s t → IsSound g s → SoundDisk s.disk → SoundDisk t.disk
Step-SoundDisk {g} {s} (check env id) i h =
    Writes-SoundDisk env.now ((with_check s id).snap) s (add_check g env id s).0
      (add_check-Writes g env id s)
      (record {
        lists =
            subst (AreLists (with_check s id).snap.checks)
              (sym (elems-grow_played (contains (elems s.snap.played) id) s.snap.played id))
              (AreLists-grow s.snap.checks (elems s.snap.played) id i.lists);
        acked_within = i.acked_within;
      })
      h
Step-SoundDisk {g} {s} (adopt env ids) i h =
    Writes-SoundDisk env.now ((set_only_checks s (adopt_loop g s.snap.checks ids)).snap) s
      (adopt_checks g env ids s).0 (adopt_checks-Writes g env ids s)
      (record {
        lists = adopt_loop-AreLists g (elems s.snap.played) ids s.snap.checks i.lists;
        acked_within = i.acked_within;
      })
      h
Step-SoundDisk {g} {s} (items env (pos n) ids) i h =
    let now_items = take n s.snap.items ++ ids in
    Writes-SoundDisk env.now
      ((set_items s now_items (grants_from g now_items)
        (min s.snap.acked_seq (length now_items))).snap)
      s (apply_items g env (pos n) ids s).0 (apply_items-Writes g env n ids s)
      (record { lists = i.lists; acked_within = omega arith }) h
Step-SoundDisk {g} {s} (items env (negsuc n) ids) i h = (negative-SoundDisk g env "" n ids s h).0
Step-SoundDisk {g} {s} (acks env seq) i h = ack-SoundDisk g env seq s i h
Step-SoundDisk {g} {s} (goal env) i h =
    Writes-SoundDisk env.now ((set_goal s true).snap) s (mark_goal_sent env s).0
      (mark_goal_sent-Writes env s) (record { lists = i.lists; acked_within = i.acked_within }) h
Step-SoundDisk {g} {s} (progress env pop wave) i h =
    Writes-SoundDisk env.now
      ((set_progress s (note_resume s.snap.resume pop wave)
        (note_reached s.snap.reached pop wave)).snap)
      s (note_progress env pop wave s).0 (note_progress-Writes env pop wave s)
      (record { lists = i.lists; acked_within = i.acked_within }) h
Step-SoundDisk {g} {s} (clear env pop) i h =
    Writes-SoundDisk env.now ((set_progress s no_resume (erase pop s.snap.reached)).snap) s
      (clear_progress env pop s).0 (clear_progress-Writes env pop s)
      (record { lists = i.lists; acked_within = i.acked_within }) h
Step-SoundDisk {g} {s} (tally env kind (pos d)) i h =
    Writes-SoundDisk env.now
      ((set_tallies s (insert kind (value kind s.snap.tallies + d) s.snap.tallies)).snap) s
      (add_tally env kind (pos d) s).0 (add_tally-Writes env kind d s)
      (record { lists = i.lists; acked_within = i.acked_within }) h
Step-SoundDisk {g} {s} (tally env kind (negsuc d)) i h = (negative-SoundDisk g env kind d [] s h).1
