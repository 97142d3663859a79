-- ===== src/Server/Request.antt =====
-- What the plugin sends, what it is answered, and what the server keeps (the types of
-- bridge/internal/httpapi/server.go, and `Health` of bridge/internal/apclient/client.go).
use tf2_archipelago.Prelude.{
  ℕ, ◌≡◌, ◌↔◌, Option, Bool, true, false, ◌&&◌, List, String, arith, Eq, nat_eq, string_eq, ◌==◌,
  nat_beq_iff, first,
}
use tf2_archipelago.Prelude.Int.{ℤ, pos, negsuc}
use tf2_archipelago.Prelude.Dict.{Dict}
use tf2_archipelago.Gamedata.Kinds.{ObjectiveKind, objective_key, objective_kinds}
use tf2_archipelago.State.Store.{Store}

-- The session as it stands at one request, in the fields that the handlers here read. Whether it is
-- connected, the start mission, the modifiers and the last error are only shown elsewhere.
pub record Health : Type 0 where
  pub slot : String
  pub missions : List String
  pub ticket_importance : String
  pub victory_caches : Bool
  pub milestone_checks : Bool
  pub class_weapon_slots : Bool
  pub giantsanity : Bool
  pub tanksanity : Bool
  pub death_link : Bool

-- `objectiveRequest`: `wave` and `index` are bytes, the others are signed.
pub record ObjectiveRequest : Type 0 where
  pub kind : String
  pub pop_file : String
  pub wave : ℕ
  pub count : ℤ
  pub session : ℤ
  pub id : ℤ
  pub index : ℕ
  pub waves_total : ℤ

abbrev pub int_beq : ℤ → ℤ → Bool
int_beq (pos a) (pos b) = a == b
int_beq (negsuc a) (negsuc b) = a == b
int_beq _ _ = false

-- `tallyReport`.
pub record TallyReport : Type 0 where
  pub session : ℤ
  pub id : ℤ

abbrev pub no_report : TallyReport
no_report = record { session = pos 0; id = pos 0 }

abbrev pub same_report : TallyReport → TallyReport → Bool
same_report a b = int_beq a.session b.session && int_beq a.id b.id

-- `waveKey`.
pub record WaveKey : Type 0 where
  pub pop_file : String
  pub wave : ℕ

abbrev pub wave_key_beq : WaveKey → WaveKey → Bool
wave_key_beq a b = a.pop_file == b.pop_file && a.wave == b.wave

pub wave_key_beq_iff : (a b : WaveKey) → (wave_key_beq a b ≡ true) ↔ (a ≡ b)
wave_key_beq_iff a b =
    ground (arith, string_eq.beq_iff a.pop_file b.pop_file, nat_beq_iff a.wave b.wave)

instance abbrev pub wave_key_eq : Eq WaveKey
wave_key_eq = record { beq = wave_key_beq; beq_iff = wave_key_beq_iff }

-- `Server`, with the store that it shares with the session.
pub record Server : Type 0 where
  pub store : Store
  pub drift : Dict String ℕ
  pub tally_seen : Dict ObjectiveKind TallyReport
  pub failures : Dict WaveKey ℕ

-- A status code, or a panic, which closes the connection without an answer.
pub data Response : Type 0 where
  status : ℕ → Response
  aborted : Response

abbrev pub no_content : Response
no_content = status 204

abbrev pub bad_request : Response
bad_request = status 400

abbrev pub server_error : Response
server_error = status 500

abbrev pub set_store : Server → Store → Server
set_store s store = record s { store = store }

-- `objectiveKind`.
unfoldable pub objective_kind : String → Option ObjectiveKind
objective_kind key = first (λ k. objective_key k == key) objective_kinds
