-- ===== src/Server/Answered.antt =====
-- That a report of something the tables hold is answered as taken.
use tf2_archipelago.Prelude.{◌≡◌, inr, none, some, true, arith, nat_eq}
use tf2_archipelago.Gamedata.Kinds.{ObjectiveKind, objective_eq}
use tf2_archipelago.Gamedata.Locations.{Location, location_by_wave_kill}
use tf2_archipelago.Gamedata.Locations.Resolved.{location_by_id-resolved}
use tf2_archipelago.Gamedata.Game.{Game, IsBuilt}
use tf2_archipelago.State.Disk.{written}
use tf2_archipelago.State.Store.{add_check}
use tf2_archipelago.State.Store.Covered.{IsCovered}
use tf2_archipelago.State.Store.Durable.{add_check_written, add_check_durable}
use tf2_archipelago.Server.Request.{Health, ObjectiveRequest, Server, no_content}
use tf2_archipelago.Server.Tally.{Envs}
use tf2_archipelago.Server.Objective.{post_wave_kill, record_kill, kills_held}
use tf2_archipelago.Server.Recorded.{IsDurable}

record_kill_answer :
    (g : Game) (envs : Envs) (l : Location) (s : Server)
    → (add_check g envs.first l.id s.store).2 ≡ none
    → (record_kill g envs l s).1 ≡ no_content
unfolding record_kill
record_kill_answer g envs l s taken = ground arith

-- A kill that the tables hold, in a seed that holds checks for such kills, is answered 204 when the
-- write goes through, and its check is then in the state file, if the file covered the store before.
pub post_wave_kill_recorded :
    (g : Game) (envs : Envs) (h : Health) (kind : ObjectiveKind) (r : ObjectiveRequest)
    (l : Location) (s : Server)
    → IsBuilt g
    → IsCovered s.store
    → kills_held h kind ≡ true
    → location_by_wave_kill g.tables kind r.pop_file r.wave r.index ≡ some (some l)
    → envs.first.write ≡ written
    → let (s', answer) = post_wave_kill g envs h kind r s in
      (answer ≡ no_content) × IsDurable l.id s'.store
unfolding post_wave_kill record_kill
post_wave_kill_recorded g envs h kind r l s built covered held found w =
    let known =
      location_by_id-resolved g.tables g.locations kind r.pop_file r.wave r.index l built.valid
        built.built_locations (inr found) in
    let taken = add_check_written g envs.first l.id l s.store known w in
    let durable = add_check_durable g envs.first l.id s.store covered taken in
    rw (held, found) (record_kill_answer g envs l s taken, durable)
