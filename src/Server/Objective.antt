-- ===== src/Server/Objective.antt =====
-- An objective's report (`postObjective`, `postWaveKill`, `victoryCachesPaidBy` and `noteProgress` of
-- bridge/internal/httpapi/server.go). A body that cannot be decoded is `none`.
use tf2_archipelago.Prelude.{
  ℕ, Option, none, some, Bool, not, ◌&&◌, ◌||◌, List, [], String, nat_eq, ◌==◌, ltb, if◌then◌else◌,
}
use tf2_archipelago.Gamedata.Kinds.{
  ObjectiveKind, objective_eq, wave_cleared, mission_cleared, giant_killed, tank_destroyed,
  is_tally,
}
use tf2_archipelago.Gamedata.Tables.{mission_by_id}
use tf2_archipelago.Gamedata.Locations.{
  Location, victory_cache_locations, location_by_objective, location_by_wave_kill,
}
use tf2_archipelago.Gamedata.Game.{Game}
use tf2_archipelago.State.Store.{
  Store, Env, Error, add_check, note_progress as keep_progress, clear_progress,
}
use tf2_archipelago.Server.Request.{
  Health, ObjectiveRequest, Server, Response, aborted, no_content, bad_request, server_error,
  set_store, objective_kind,
}
use tf2_archipelago.Server.Observe.{note_wave_drift}
use tf2_archipelago.Server.Tally.{Envs, add_checks, post_tally}

-- `victoryCachesPaidBy`; `none` is a panic.
unfoldable pub victory_caches_paid_by : Game → Location → Bool → Option (List Location)
victory_caches_paid_by g l held =
    if not held || not (l.kind == mission_cleared)
    then some []
    else elim (mission_by_id g.tables l.mission) [
      | none ↦ some []
      | some m ↦ victory_cache_locations m
    ]

-- `noteProgress`, whose errors are only logged.
unfoldable pub note_progress : Env → ObjectiveKind → String → ℕ → Store → Store
note_progress env wave_cleared pop wave s = (keep_progress env pop wave s).0
note_progress env mission_cleared pop wave s = (clear_progress env pop s).0
note_progress env _ pop wave s = s

-- What follows the check itself.
unfoldable pub pay :
    Game
    → Envs
    → ObjectiveKind
    → ObjectiveRequest
    → Option (List Location)
    → Server
    → Store
    → Server × Response
pay g envs kind r none s store = (set_store s store, aborted)
pay g envs kind r (some caches) s store = (
  set_store s
      (note_progress envs.last kind r.pop_file r.wave (add_checks g envs.checks 0 caches store)),
  no_content,
)

-- By whether the check could be recorded.
unfoldable pub after_check :
    Game
    → Envs
    → Health
    → ObjectiveKind
    → ObjectiveRequest
    → Location
    → Server
    → Store
    → Option Error
    → Server × Response
unfolding pay
after_check g envs h kind r l s store (some e) = (set_store s store, server_error)
after_check g envs h kind r l s store none =
    pay g envs kind r (victory_caches_paid_by g l h.victory_caches) s store

unfoldable pub record_objective :
    Game → Envs → Health → ObjectiveKind → ObjectiveRequest → Location → Server → Server × Response
unfolding after_check
record_objective g envs h kind r l s =
    let (store, fresh, error) = add_check g envs.first l.id s.store in
    after_check g envs h kind r l s store error

-- By the location that the objective resolves to.
unfoldable pub post_found :
    Game
    → Envs
    → Health
    → ObjectiveKind
    → ObjectiveRequest
    → Server
    → Option (Option Location)
    → Server × Response
unfolding record_objective
post_found g envs h kind r s none = (s, aborted)
post_found g envs h kind r s (some none) = (s, bad_request)
post_found g envs h kind r s (some (some l)) =
    record_objective g envs h kind r l (note_wave_drift g r.pop_file r.waves_total s)

-- `postObjective` of a kind that is neither a tally nor one kill of a wave.
unfoldable pub post_plain :
    Game → Envs → Health → ObjectiveKind → ObjectiveRequest → Server → Server × Response
unfolding post_found
post_plain g envs h kind r s =
    post_found g envs h kind r s (location_by_objective g.tables kind r.pop_file r.wave)

abbrev pub kills_held : Health → ObjectiveKind → Bool
kills_held h kind = kind == giant_killed && h.giantsanity || kind == tank_destroyed && h.tanksanity

unfoldable pub record_kill : Game → Envs → Location → Server → Server × Response
record_kill g envs l s =
    let (store, fresh, error) = add_check g envs.first l.id s.store in
    (set_store s store, elim error [ some e ↦ server_error | none ↦ no_content ])

-- `postWaveKill`.
unfoldable pub post_wave_kill :
    Game → Envs → Health → ObjectiveKind → ObjectiveRequest → Server → Server × Response
unfolding record_kill
post_wave_kill g envs h kind r s =
    if not (kills_held h kind)
    then (s, no_content)
    else elim (location_by_wave_kill g.tables kind r.pop_file r.wave r.index) [
      | none ↦ (s, aborted)
      | some found ↦ elim found [ none ↦ (s, no_content) | some l ↦ record_kill g envs l s ]
    ]

-- `postObjective`.
unfoldable pub post_objective :
    Game → Envs → Health → Option ObjectiveRequest → Server → Server × Response
post_objective g envs h none s = (s, bad_request)
post_objective g envs h (some r) s = elim (objective_kind r.kind) [
  | none ↦ (s, bad_request)
  | some kind ↦
      if is_tally kind
      then post_tally g envs h kind r s
      else if ltb 0 r.index
      then post_wave_kill g envs h kind r s
      else post_plain g envs h kind r s
]
