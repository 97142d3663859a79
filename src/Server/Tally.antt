-- ===== src/Server/Tally.antt =====
-- A tally's report (`postTally` of bridge/internal/httpapi/server.go). The report is remembered before
-- the total is written.
use tf2_archipelago.Prelude.{
  ℕ, suc, Option, none, some, Bool, true, not, ◌&&◌, List, [], ◌∷◌, nat_eq, ltb, if◌then◌else◌,
}
use tf2_archipelago.Prelude.Int.{ℤ, pos, negsuc}
use tf2_archipelago.Prelude.Dict.{Dict, lookup, insert}
use tf2_archipelago.Gamedata.Kinds.{ObjectiveKind, objective_eq, counter, milestone_key}
use tf2_archipelago.Gamedata.Locations.{Location, milestones_reached}
use tf2_archipelago.Gamedata.Game.{Game}
use tf2_archipelago.State.Store.{Store, Env, Error, add_check, add_tally}
use tf2_archipelago.Server.Request.{
  Health, ObjectiveRequest, TallyReport, no_report, same_report, int_beq, Server, Response,
  no_content, bad_request, server_error, set_store,
}

abbrev pub tally_count_max : ℕ
tally_count_max = 1000

-- What goes on around one handler: one environment for each call of the store, where the nth of the
-- further checks has `checks n`.
pub record Envs : Type 0 where
  pub first : Env
  pub checks : ℕ → Env
  pub last : Env

-- A loop of `AddCheck` whose errors are only logged.
unfoldable pub add_checks : Game → (ℕ → Env) → ℕ → List Location → Store → Store
add_checks g envs n [] s = s
add_checks g envs n (l ∷ ls) s = add_checks g envs (suc n) ls (add_check g (envs n) l.id s).0

abbrev pub seen : ObjectiveKind → Dict ObjectiveKind TallyReport → TallyReport
seen kind m = elim (lookup kind m) [ none ↦ no_report | some r ↦ r ]

-- Whether a report is the one that was last taken of its kind.
abbrev pub is_repeat : ObjectiveKind → TallyReport → Dict ObjectiveKind TallyReport → Bool
is_repeat kind r m = not (int_beq r.id (pos 0)) && same_report (seen kind m) r

-- The handler once the total has been written.
unfoldable pub after_tally :
    Game → Envs → Health → ObjectiveKind → Server → Store × ℕ × Option Error → Server × Response
after_tally g envs h kind s (store, total, some e) = (set_store s store, server_error)
after_tally g envs h kind s (store, total, none) =
    if h.milestone_checks
    then (
      set_store s (add_checks g envs.checks 0 (milestones_reached g.milestones kind total) store),
      no_content,
    )
    else (set_store s store, no_content)

abbrev pub out_of_range : ℤ → Bool
out_of_range (negsuc n) = true
out_of_range (pos n) = ltb tally_count_max n

-- `postTally`.
unfoldable pub post_tally :
    Game → Envs → Health → ObjectiveKind → ObjectiveRequest → Server → Server × Response
unfolding after_tally
post_tally g envs h kind r s =
    let report : TallyReport = record { session = r.session; id = r.id } in
    if out_of_range r.count
    then (s, bad_request)
    else if is_repeat kind report s.tally_seen
    then (s, no_content)
    else after_tally g envs h kind (record s { tally_seen = insert kind report s.tally_seen })
        (add_tally envs.first (milestone_key (counter kind)) r.count s.store)
