-- ===== src/Server/Observe.antt =====
-- What the server notices and keeps for the operator (`noteWaveDrift`, `recordFailure` and
-- `deathCause` of bridge/internal/httpapi/server.go).
use tf2_archipelago.Prelude.{
  ℕ, ◌+◌, Option, none, some, ◌||◌, String, ◌<>◌, itoa, nat_eq, string_eq, ◌==◌, ltb, if◌then◌else◌,
}
use tf2_archipelago.Prelude.Int.{ℤ, pos, negsuc}
use tf2_archipelago.Prelude.Dict.{insert, value}
use tf2_archipelago.Gamedata.Tables.{Mission, mission_by_pop_file}
use tf2_archipelago.Gamedata.Game.{Game}
use tf2_archipelago.Server.Request.{Server, WaveKey, wave_key_eq}

abbrev waves_observed_max : ℕ
waves_observed_max = 255

unfoldable pub drift_of : Option Mission → String → ℕ → Server → Server
drift_of none pop observed s = s
drift_of (some m) pop observed s =
    if m.waves == observed then s else record s { drift = insert pop observed s.drift }

-- `noteWaveDrift`.
unfoldable pub note_wave_drift : Game → String → ℤ → Server → Server
unfolding drift_of
note_wave_drift g pop (negsuc n) s = s
note_wave_drift g pop (pos observed) s =
    if observed == 0 || ltb waves_observed_max observed
    then s
    else drift_of (mission_by_pop_file g.tables pop) pop observed s

-- `recordFailure`.
unfoldable pub record_failure : String → ℕ → Server → Server
record_failure pop wave s =
    let key : WaveKey = record { pop_file = pop; wave = wave } in
    if pop == ""
    then s
    else record s { failures = insert key (value key s.failures + 1) s.failures }

-- `deathCause`.
unfoldable pub death_cause : Game → String → String → ℕ → String
death_cause g slot pop wave =
    let name : String = elim (mission_by_pop_file g.tables pop) [ none ↦ pop | some m ↦ m.name ] in
    if wave == 0
    then slot <> " lost a wave of " <> name
    else slot <> " lost wave " <> itoa wave <> " of " <> name
