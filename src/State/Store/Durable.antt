-- ===== src/State/Store/Durable.antt =====
-- What the state file holds while the store runs: a check that the store has taken is never only in
-- memory.
use tf2_archipelago.Prelude.{
  ℕ, ◌+◌, ◌≡◌, none, some, Bool, true, ◌++◌, String, arith, nat_eq, string_eq, nat_beq_iff,
  contains, length, take, min,
}
use tf2_archipelago.Prelude.Int.{pos, negsuc}
use tf2_archipelago.Prelude.Dict.{insert, erase, value}
use tf2_archipelago.Gamedata.Game.{Game}
use tf2_archipelago.Gamedata.Locations.{Location, location_by_id}
use tf2_archipelago.State.Grants.{grants_from}
use tf2_archipelago.State.Snapshot.{elems, no_resume}
use tf2_archipelago.State.Disk.{written, write_snapshot}
use tf2_archipelago.State.Store.{
  Store, Env, persist, add_check, add_known, add_check_end, adopt_checks, adopt_loop, apply_items,
  ack, mark_goal_sent, note_progress, add_tally, clear_progress, set_only_checks, set_items,
  set_acked, set_goal, set_progress, set_tallies, note_resume, note_reached,
}
use tf2_archipelago.State.Store.Lists.{elems-grow_played, contains-grow}
use tf2_archipelago.State.Store.Invariant.{
  Step, check, adopt, items, acks, goal, progress, clear, tally, Reach, here, next,
}
use tf2_archipelago.State.Store.Covered.{
  file_checked, file_played, IsCovered, Writes-IsCovered, with_check, add_check-Writes,
}
use tf2_archipelago.State.Store.Written.{
  ack-Writes, mark_goal_sent-Writes, note_progress-Writes, clear_progress-Writes, add_tally-Writes,
  apply_items-Writes, adopt_checks-Writes, panic-IsCovered, no_delta-IsCovered,
}

pub Step-IsCovered : {g : Game} {s t : Store} → Step g s t → IsCovered s → IsCovered t
Step-IsCovered {g} {s} (check env id) =
    Writes-IsCovered env.now ((with_check s id).snap) s (add_check g env id s).0
      (add_check-Writes g env id s)
Step-IsCovered {g} {s} (adopt env ids) =
    Writes-IsCovered env.now ((set_only_checks s (adopt_loop g s.snap.checks ids)).snap) s
      (adopt_checks g env ids s).0 (adopt_checks-Writes g env ids s)
Step-IsCovered {g} {s} (items env (pos i) ids) =
    Writes-IsCovered env.now
      ((set_items s (take i s.snap.items ++ ids) (grants_from g (take i s.snap.items ++ ids))
        (min s.snap.acked_seq (length (take i s.snap.items ++ ids)))).snap)
      s (apply_items g env (pos i) ids s).0 (apply_items-Writes g env i ids s)
Step-IsCovered {g} {s} (items env (negsuc i) ids) = panic-IsCovered g env i ids s
Step-IsCovered {g} {s} (acks env seq) =
    Writes-IsCovered env.now ((set_acked s seq).snap) s (ack env seq s).0 (ack-Writes env seq s)
Step-IsCovered {g} {s} (goal env) =
    Writes-IsCovered env.now ((set_goal s true).snap) s (mark_goal_sent env s).0
      (mark_goal_sent-Writes env s)
Step-IsCovered {g} {s} (progress env pop wave) =
    Writes-IsCovered env.now
      ((set_progress s (note_resume s.snap.resume pop wave)
        (note_reached s.snap.reached pop wave)).snap)
      s (note_progress env pop wave s).0 (note_progress-Writes env pop wave s)
Step-IsCovered {g} {s} (clear env pop) =
    Writes-IsCovered env.now ((set_progress s no_resume (erase pop s.snap.reached)).snap) s
      (clear_progress env pop s).0 (clear_progress-Writes env pop s)
Step-IsCovered {g} {s} (tally env kind (pos d)) =
    Writes-IsCovered env.now
      ((set_tallies s (insert kind (value kind s.snap.tallies + d) s.snap.tallies)).snap) s
      (add_tally env kind (pos d) s).0 (add_tally-Writes env kind d s)
Step-IsCovered {g} {s} (tally env kind (negsuc d)) = no_delta-IsCovered env kind d s

-- The calls that are made while the store holds one run keep it covered.
pub Reach-IsCovered : {g : Game} {s t : Store} → IsCovered s → Reach g s t → IsCovered t
Reach-IsCovered h here = h
Reach-IsCovered h (next r st) = Step-IsCovered st (Reach-IsCovered h r)

-- A check that was recorded is listed by the store.
pub add_check_listed :
    (g : Game) (env : Env) (id : ℕ) (s : Store)
    → (add_check g env id s).2 ≡ none
    → (contains (add_check g env id s).0.snap.checks id ≡ true)
      × (contains (elems (add_check g env id s).0.snap.played) id ≡ true)
unfolding add_check add_known add_check_end persist write_snapshot
add_check_listed g env id s h = ground (
  arith,
  contains-grow s.snap.checks id id,
  contains-grow (elems s.snap.played) id id,
  elems-grow_played (contains (elems s.snap.played) id) s.snap.played id,
  nat_beq_iff id id,
)

add_known_written :
    (env : Env) (id : ℕ) (name : String) (a b : Bool) (s : Store)
    → env.write ≡ written
    → (add_known env id name a b s).2 ≡ none
unfolding add_known add_check_end persist write_snapshot
add_known_written env id name a b s w = ground arith

-- A check of a location that is known is taken when the write goes through.
pub add_check_written :
    (g : Game) (env : Env) (id : ℕ) (l : Location) (s : Store)
    → location_by_id g.locations id ≡ some l
    → env.write ≡ written
    → (add_check g env id s).2 ≡ none
unfolding add_check
add_check_written g env id l s known w = ground (
  arith,
  add_known_written env id l.name (contains s.snap.checks id) (contains (elems s.snap.played) id) s
      w,
)

-- A check that is answered without an error is on disk by then, listed and listed as played, however
-- the write went, if the file covered the store before.
pub add_check_durable :
    (g : Game) (env : Env) (id : ℕ) (s : Store)
    → IsCovered s
    → (add_check g env id s).2 ≡ none
    → (file_checked (add_check g env id s).0 id ≡ true)
      × (file_played (add_check g env id s).0 id ≡ true)
add_check_durable g env id s h e =
    let (a, b) = add_check_listed g env id s e in
    let covered = Step-IsCovered (check env id) h in ((covered id).0 a, (covered id).1 b)
