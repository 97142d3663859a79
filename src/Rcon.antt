-- ===== src/Rcon.antt =====
-- The RCON client of the launcher (launcher/internal/rcon/rcon.go), over bytes. A signed 32-bit
-- number is its residue modulo 2 ^ 32. `strings.TrimSpace` is an argument.
pub mod Wire
pub mod Replies
use tf2_archipelago.Prelude.{
  ℕ, zero, suc, ◌+◌, ◌*◌, ◌/◌, ◌%◌, Option, none, some, Bool, true, false, ◌||◌, ◌&&◌, List, [],
  ◌∷◌, ◌++◌, nat_eq, ◌==◌, ltb, if◌then◌else◌, length, take, drop,
}

abbrev pub Bytes : Type 0
Bytes = List ℕ

abbrev pub type_response : ℕ
type_response = 0

abbrev pub type_exec_command : ℕ
type_exec_command = 2

abbrev pub type_auth : ℕ
type_auth = 3

abbrev pub packet_bytes_max : ℕ
packet_bytes_max = 4106

abbrev pub packet_count_max : ℕ
packet_count_max = 128

abbrev pub terminator_offset : ℕ
terminator_offset = 1000

abbrev pub auth_request_id : ℕ
auth_request_id = 1

abbrev pub word : ℕ
word = 4294967296

-- `binary.Write` of an int32, little-endian.
unfoldable pub put32 : ℕ → List ℕ
put32 n = n % 256 ∷ (n / 256) % 256 ∷ (n / 65536) % 256 ∷ (n / 16777216) % 256 ∷ []

-- What `send` puts behind the size: the two numbers, the body and two nuls.
unfoldable pub payload_of : ℕ → ℕ → List ℕ → List ℕ
payload_of id kind body = put32 id ++ (put32 kind ++ (body ++ (0 ∷ 0 ∷ [])))

-- `send`: the bytes of a packet.
unfoldable pub packet : ℕ → ℕ → List ℕ → List ℕ
packet id kind body =
    let payload = payload_of id kind body in put32 (length payload % word) ++ payload

-- What a read of a number gives: too few bytes are an error.
unfoldable pub get32 : List ℕ → Option (ℕ × List ℕ)
get32 (a ∷ b ∷ c ∷ d ∷ rest) = some (a + b * 256 + c * 65536 + d * 16777216, rest)
get32 _ = none

abbrev pub is_blank : List ℕ → Bool
is_blank [] = true
is_blank (b ∷ bs) = false

-- `bytes.TrimRight(body, "\x00")`.
unfoldable pub trim_nuls : List ℕ → List ℕ
trim_nuls [] = []
trim_nuls (b ∷ bs) = let rest = trim_nuls bs in if b == 0 && is_blank rest then [] else b ∷ rest

-- What `read` returns, with what is left in the stream.
pub data Read : Type 0 where
  got : ℕ → ℕ → List ℕ → List ℕ → Read
  bad_size : ℕ → Read
  cut_off : Read

unfoldable pub with_kind : ℕ → List ℕ → Option (ℕ × List ℕ) → Read
with_kind id rest none = cut_off
with_kind id rest (some (kind, body)) = got id kind (trim_nuls body) rest

unfoldable pub with_id : List ℕ → Option (ℕ × List ℕ) → Read
with_id rest none = cut_off
with_id rest (some (id, payload)) = with_kind id rest (get32 payload)

unfoldable pub sized : ℕ → List ℕ → Read
sized size stream =
    if ltb size 10 || ltb packet_bytes_max size
    then bad_size size
    else if ltb (length stream) size
    then cut_off
    else with_id (drop size stream) (get32 (take size stream))

unfoldable pub with_size : Option (ℕ × List ℕ) → Read
with_size none = cut_off
with_size (some (size, stream)) = sized size stream

-- `read`, from what the server will have sent before the stream ends.
unfoldable pub read : List ℕ → Read
read stream = with_size (get32 stream)

-- `Client`: the number of the last request, and what the server has sent and was not read.
pub record Client : Type 0 where
  pub request_id : ℕ
  pub incoming : List ℕ

-- How the stream ends: the deadline passes, or the connection breaks.
pub data Ending : Type 0 where
  deadline_exceeded broken : Ending

pub data Outcome : Type 0 where
  replied : List ℕ → Outcome
  printed_nothing never_finished send_failed : Outcome
  read_failed : Outcome

cut_outcome : ℕ → Ending → Outcome
cut_outcome zero deadline_exceeded = printed_nothing
cut_outcome (suc n) deadline_exceeded = read_failed
cut_outcome packets broken = read_failed

-- The loop of `Exec` after `packets` packets, with `left` more to come; what it leaves unread.
unfoldable pub collect_reply :
    (List ℕ → List ℕ) → Ending → ℕ → ℕ → ℕ → List ℕ → List ℕ → Outcome × List ℕ
unfolding cut_outcome
collect_reply trim_space ending terminator zero packets reply stream = (never_finished, stream)
collect_reply trim_space ending terminator (suc left) packets reply stream = elim (read stream) [
  | got id kind body rest ↦ elim (id == terminator) [
    | true ↦ (replied (trim_space reply), rest)
    | false ↦ collect_reply trim_space ending terminator left (packets + 1) (reply ++ body) rest
  ]
  | bad_size size ↦ (read_failed, [])
  | cut_off ↦ (cut_outcome packets ending, [])
]

-- What `Exec` sends: the command, and the empty one whose answer ends the reply.
unfoldable pub exec_request : List ℕ → Client → List ℕ
unfolding packet
exec_request command c =
    let id = (c.request_id + 1) % word in
    packet id type_exec_command command
    ++ packet ((id + terminator_offset) % word) type_exec_command []

-- `Exec`, where `sends` says whether the writes succeed.
unfoldable pub exec : (List ℕ → List ℕ) → Ending → Bool → List ℕ → Client → Client × Outcome
unfolding collect_reply
exec trim_space ending false command c =
    (record c { request_id = (c.request_id + 1) % word }, send_failed)
exec trim_space ending true command c =
    let id = (c.request_id + 1) % word in
    let (outcome, rest) =
      collect_reply trim_space ending ((id + terminator_offset) % word) packet_count_max 0 []
        c.incoming in
    (record { request_id = id; incoming = rest }, outcome)

pub data Login : Type 0 where
  accepted bad_password no_answer login_failed : Login

-- The loop of `authenticate`.
unfoldable pub await_verdict : ℕ → List ℕ → Login × List ℕ
await_verdict zero stream = (no_answer, stream)
await_verdict (suc left) stream = elim (read stream) [
  | got id kind body rest ↦ elim (kind == type_response) [
    | true ↦ await_verdict left rest
    | false ↦ (if id == auth_request_id then accepted else bad_password, rest)
  ]
  | bad_size size ↦ (login_failed, [])
  | cut_off ↦ (login_failed, [])
]

-- `authenticate`, where `sends` says whether the write succeeds.
unfoldable pub authenticate : Bool → List ℕ → Login × List ℕ
unfolding await_verdict
authenticate false stream = (login_failed, stream)
authenticate true stream = await_verdict packet_count_max stream
