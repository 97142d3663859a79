-- ===== src/State/Store/Written.antt =====
-- What the other methods of the store write.
use tf2_archipelago.Prelude.{
  ℕ, ◌+◌, ◌≡◌, ◌⊎◌, inl, inr, true, List, ◌++◌, String, arith, nat_eq, string_eq, length, take, min,
}
use tf2_archipelago.Prelude.Int.{pos, negsuc}
use tf2_archipelago.Prelude.Dict.{insert, erase, value}
use tf2_archipelago.Prelude.Laws.{contains_grow}
use tf2_archipelago.Gamedata.Game.{Game}
use tf2_archipelago.State.Grants.{grants_from}
use tf2_archipelago.State.Snapshot.{no_resume}
use tf2_archipelago.State.Disk.{write_snapshot}
use tf2_archipelago.State.Store.{
  Store, Env, persist, adopt_checks, adopt_loop, adopt_end, apply_items, apply_end, ack,
  mark_goal_sent, note_progress, add_tally, clear_progress, set_only_checks, set_items, set_acked,
  set_goal, set_progress, set_tallies, note_resume, note_reached,
}
use tf2_archipelago.State.Store.Effects.{adopt_back, Kept, adopt_loop_extends, adopt_checks_fields}
use tf2_archipelago.State.Store.Covered.{IsCovered, Rewritten, Writes}

pub ack-Writes :
    (env : Env) (seq : ℕ) (s : Store) → Writes env.now (set_acked s seq).snap s (ack env seq s).0
unfolding ack persist write_snapshot
ack-Writes env seq s = ground arith

pub mark_goal_sent-Writes :
    (env : Env) (s : Store) → Writes env.now (set_goal s true).snap s (mark_goal_sent env s).0
unfolding mark_goal_sent persist write_snapshot
mark_goal_sent-Writes env s = ground arith

pub note_progress-Writes :
    (env : Env) (pop : String) (wave : ℕ) (s : Store)
    → Writes env.now
        (set_progress s
          (note_resume s.snap.resume pop wave)
          (note_reached s.snap.reached pop wave)).snap
        s
        (note_progress env pop wave s).0
unfolding note_progress persist write_snapshot
note_progress-Writes env pop wave s = ground arith

pub clear_progress-Writes :
    (env : Env) (pop : String) (s : Store)
    → Writes env.now
        (set_progress s no_resume (erase pop s.snap.reached)).snap
        s
        (clear_progress env pop s).0
unfolding clear_progress persist write_snapshot
clear_progress-Writes env pop s = ground arith

pub add_tally-Writes :
    (env : Env) (kind : String) (delta : ℕ) (s : Store)
    → Writes env.now
        (set_tallies s (insert kind (value kind s.snap.tallies + delta) s.snap.tallies)).snap
        s
        (add_tally env kind (pos delta) s).0
unfolding add_tally persist write_snapshot
add_tally-Writes env kind delta s = ground arith

pub apply_items-Writes :
    (g : Game) (env : Env) (i : ℕ) (ids : List ℕ) (s : Store)
    → let now_items = take i s.snap.items ++ ids in
      Writes env.now
        (set_items s now_items
          (grants_from g now_items)
          (min s.snap.acked_seq (length now_items))).snap
        s
        (apply_items g env (pos i) ids s).0
unfolding apply_items apply_end persist write_snapshot
apply_items-Writes g env i ids s = ground arith

adopt_checks_disk :
    (g : Game) (env : Env) (ids : List ℕ) (s : Store)
    → let s' = (adopt_checks g env ids s).0 in
      (s'.path ≡ s.path)
      × (((s'.disk ≡ s.disk) × Kept s s')
          ⊎ Rewritten env.now (set_only_checks s (adopt_loop g s.snap.checks ids)).snap s s')
unfolding adopt_checks adopt_end persist write_snapshot
adopt_checks_disk g env ids s = ground (arith, adopt_back g s.snap.checks ids)

pub adopt_checks-Writes :
    (g : Game) (env : Env) (ids : List ℕ) (s : Store)
    → Writes env.now
        (set_only_checks s (adopt_loop g s.snap.checks ids)).snap
        s
        (adopt_checks g env ids s).0
adopt_checks-Writes g env ids s =
    let (p, cases) = adopt_checks_disk g env ids s in
    let (_, own, lists) = adopt_checks_fields g env ids s in
    let (new, e) = adopt_loop_extends g ids s.snap.checks in
    (
      p,
      elim cases [
        | inl k ↦ inl k
        | inr r ↦ inr (
          r,
          λ j i. elim lists [
            | inl a ↦ rw (← a) i
            | inr a ↦ rw e (contains_grow s.snap.checks new j (rw (← a) i))
          ],
          λ j i. rw (← own) i,
        )
      ],
    )

pub panic-IsCovered :
    (g : Game) (env : Env) (i : ℕ) (ids : List ℕ) (s : Store)
    → IsCovered s
    → IsCovered (apply_items g env (negsuc i) ids s).0
unfolding apply_items
panic-IsCovered g env i ids s h = h

pub no_delta-IsCovered :
    (env : Env) (kind : String) (i : ℕ) (s : Store)
    → IsCovered s
    → IsCovered (add_tally env kind (negsuc i) s).0
unfolding add_tally
no_delta-IsCovered env kind i s h = h
