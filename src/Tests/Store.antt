-- ===== src/Tests/Store.antt =====
-- A run of the store, and the store's theorems at it.
use tf2_archipelago.Gamedata.Locations.{location_by_id}
use tf2_archipelago.State.Bind.Calls.{Calls, begin, call, bind}
use tf2_archipelago.State.Bind.Sound.{IsSoundAll, Calls-IsSoundAll}
use tf2_archipelago.State.Bind.Covered.{Returns, Calls-IsCovered}
use tf2_archipelago.State.Disk.{
  archive_snapshot, latest_archive, write_snapshot, archive_path, first_free, head_or, move_file,
  newest_of, newer, read_body, upgrade, pick_newer,
}
use tf2_archipelago.State.Snapshot.{archive_names, safe_seed_name, numbered_names, numbered_name}
use tf2_archipelago.Prelude.{
  ◌≡◌, refl, Option, none, some, true, List, [], ◌∷◌, ◌++◌, arith, nat_eq,
}
use tf2_archipelago.Prelude.Int.{pos}
use tf2_archipelago.State.Grants.{Grant, grants_from}
use tf2_archipelago.State.Grants.Stable.{seq_between, grants_from-append}
use tf2_archipelago.State.Snapshot.{empty_snapshot}
use tf2_archipelago.State.Disk.{written, unwritten, moved}
use tf2_archipelago.State.Store.{Store, Env, Error, add_check, apply_items, grants_since, persist}
use tf2_archipelago.State.Store.Invariant.{IsSound, check, items}
use tf2_archipelago.State.Store.Covered.{IsCovered, file_checked, file_played}
use tf2_archipelago.State.Store.Durable.{add_check_durable, add_check_written}
use tf2_archipelago.State.Store.Sent.{apply_items_sent}
use tf2_archipelago.State.Bind.{BindEnv, Rebind, bind_seed}
use tf2_archipelago.State.Bind.Bound.{bind_seed_outcome}
use tf2_archipelago.Tests.Game.{small, a_giant, a_giant_known}

abbrev pub works : Env
works = record { now = 7; write = written }

abbrev pub fails : Env
fails = record { now = 8; write = unwritten }

abbrev pub fresh : Store
fresh = record {
  path = record { stem = "state"; ext = ".json" };
  snap = empty_snapshot "a seed";
  grants = [];
  generation = 0;
  last_check = none;
  disk = [];
}

pub fresh-IsCovered : IsCovered fresh
fresh-IsCovered id = (λ h. ground arith, λ h. ground arith)

pub fresh-IsSound : IsSound small fresh
unfolding grants_from
fresh-IsSound = record {
  lists = record { checks_once = refl; played_once = refl; played_checked = λ id h. ground arith };
  grants_made = refl;
  acked_within = omega arith;
}

-- A check that is taken, then one whose write fails, then two items.
abbrev pub one_check : Store
one_check = (add_check small works a_giant.id fresh).0

abbrev two_checks : Store
two_checks = (add_check small fails 7442000199 one_check).0

abbrev two_items : Store
two_items = (apply_items small works (pos 0) (7443000001 ∷ 7443000001 ∷ []) two_checks).0

add_check_durable_example :
    (file_checked one_check a_giant.id ≡ true) × (file_played one_check a_giant.id ≡ true)
add_check_durable_example =
    add_check_durable small works a_giant.id fresh fresh-IsCovered
      (add_check_written small works a_giant.id a_giant fresh a_giant_known refl)

apply_items_sent_example :
    let s' = (apply_items small works (pos 0) (7443000001 ∷ 7443000001 ∷ []) fresh).0 in
    (more : List Grant) × (grants_from small (7443000001 ∷ 7443000001 ∷ [])
      ≡ grants_from small [] ++ more)
    × (s'.grants ≡ [] ++ more)
    × (seq_between 0 2 more ≡ true)
    × (grants_since 0 s' ≡ (more, 2))
apply_items_sent_example =
    apply_items_sent small works (7443000001 ∷ 7443000001 ∷ []) fresh fresh-IsSound refl

grants_from-append_example :
    (more : List Grant) × (grants_from small (7443000001 ∷ 7443000001 ∷ [])
      ≡ grants_from small (7443000001 ∷ []) ++ more)
    × (seq_between 0 1 (grants_from small (7443000001 ∷ [])) ≡ true)
    × (seq_between 1 2 more ≡ true)
grants_from-append_example = grants_from-append small (7443000001 ∷ []) (7443000001 ∷ [])

abbrev bind_env : BindEnv
bind_env = record { env = works; archive = moved; back = true }

abbrev bound : Store × Rebind × Option Error
bound = bind_seed small bind_env "another seed" one_check

fresh-IsSoundAll : IsSoundAll small fresh
fresh-IsSoundAll = record { sound = fresh-IsSound; files = λ name f d at b. ground arith }

-- A check that is taken, then another seed, then two items of it.
bound-Returns : Returns bind_env (bind_seed small bind_env "another seed" one_check).2
unfolding bind_seed archive_snapshot latest_archive archive_names safe_seed_name write_snapshot
    persist numbered_names numbered_name archive_path first_free head_or move_file newest_of newer
    read_body upgrade pick_newer add_check location_by_id
bound-Returns = ((λ h. ground arith), (λ h. ground arith))

a_life : Calls Returns small fresh (apply_items small works (pos 0) (7443000001 ∷ []) bound.0).0
a_life =
    call (bind bind_env "another seed" (call begin (check works a_giant.id)) bound-Returns)
      (items works (pos 0) (7443000001 ∷ []))

Calls-IsSoundAll_example :
    IsSoundAll small (apply_items small works (pos 0) (7443000001 ∷ []) bound.0).0
Calls-IsSoundAll_example = Calls-IsSoundAll fresh-IsSoundAll a_life

Calls-IsCovered_example : IsCovered (apply_items small works (pos 0) (7443000001 ∷ []) bound.0).0
Calls-IsCovered_example = Calls-IsCovered fresh-IsCovered a_life

bind_seed_outcome_example :
    (bound.2 ≡ none → bound.0.snap.seed ≡ "another seed")
    × ((why : Error)
        → bound.2 ≡ some why
        → (bound.0.snap ≡ one_check.snap) × (bound.0.grants ≡ one_check.grants))
bind_seed_outcome_example = bind_seed_outcome small bind_env "another seed" one_check
