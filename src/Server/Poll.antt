-- ===== src/Server/Poll.antt =====
-- The requests that wait, and those that pass something on (`getGrants`, `postGrantsAck`, `postSay`,
-- `sayStatus` and `postDeath` of bridge/internal/httpapi/server.go).
pub mod Woken
use tf2_archipelago.Prelude.{
  ℕ, Option, none, some, Bool, true, false, ◌||◌, List, [], ◌∷◌, String, nat_eq, string_eq, ◌==◌,
  ltb, if◌then◌else◌,
}
use tf2_archipelago.Prelude.Int.{ℤ, pos, negsuc}
use tf2_archipelago.Gamedata.Game.{Game}
use tf2_archipelago.State.Grants.{Grant}
use tf2_archipelago.State.Store.{Store, Env, Error, grants_since, ack}
use tf2_archipelago.Session.Say.{
  SayError, command_refused, too_long, said_too_much, not_connected, send_failed, say,
}
use tf2_archipelago.Session.Pace.{Bucket}
use tf2_archipelago.Session.Client as Session
use tf2_archipelago.Server.Request.{Server, Response, status, no_content, bad_request, set_store}
use tf2_archipelago.Server.Observe.{record_failure, death_cause}

-- `grantsResponse`.
pub record Granted : Type 0 where
  pub seq : ℕ
  pub grants : List Grant

-- What ends a wait: the store has changed, into the one that is read then; the time is up; or the
-- plugin has hung up.
pub data Wake : Type 0 where
  changed : Store → Wake
  timed_out hung_up : Wake

-- What a poll has come to: it was answered, refused with a status, dropped, or waits still.
pub data Polled : Type 0 where
  served : Granted → Polled
  refused : ℕ → Polled
  dropped waiting : Polled

abbrev is_some_list : List Grant → Bool
is_some_list [] = false
is_some_list (x ∷ xs) = true

-- One round of the loop, where `later` is what the select comes to.
abbrev pub poll_round : ℕ → List Grant × ℕ → Polled → Polled
poll_round since (grants, latest) later =
    if is_some_list grants || ltb latest since
    then served (record { seq = latest; grants = grants })
    else later

-- The loop of `getGrants`.
unfoldable pub poll_grants : ℕ → Store → List Wake → Polled
poll_grants since s [] = poll_round since (grants_since since s) waiting
poll_grants since s (changed s' ∷ wakes) =
    poll_round since (grants_since since s) (poll_grants since s' wakes)
poll_grants since s (timed_out ∷ wakes) =
    poll_round since (grants_since since s)
      (served (record { seq = (grants_since since s).1; grants = [] }))
poll_grants since s (hung_up ∷ wakes) = poll_round since (grants_since since s) dropped

-- `getGrants`, where `since` is what `strconv.Atoi` makes of the query.
unfoldable pub get_grants : Option ℤ → Store → List Wake → Polled
get_grants none s wakes = refused 400
get_grants (some (negsuc n)) s wakes = refused 400
get_grants (some (pos since)) s wakes = poll_grants since s wakes

abbrev acked : Server → Store × Option Error → Server × Response
acked v (s, none) = (set_store v s, no_content)
acked v (s, some e) = (set_store v s, bad_request)

-- `postGrantsAck`; a body that cannot be decoded is `none`.
unfoldable pub post_grants_ack : Env → Option ℤ → Server → Server × Response
post_grants_ack env none v = (v, bad_request)
post_grants_ack env (some (negsuc n)) v = (v, bad_request)
post_grants_ack env (some (pos seq)) v = acked v (ack env seq v.store)

-- `sayStatus`.
unfoldable pub say_status : SayError → ℕ
say_status command_refused = 403
say_status said_too_much = 429
say_status too_long = 413
say_status not_connected = 503
say_status send_failed = 503

abbrev said : Bucket × Option SayError × Option String → Bucket × Response × Option String
said (b, none, out) = (b, no_content, out)
said (b, some e, out) = (b, status (say_status e), out)

-- `postSay`; the last part is the line that went out.
unfoldable pub post_say :
    (String → String) → ℕ → Bool → Bool → Option String → Bucket → Bucket × Response × Option String
post_say lower at connected sends none b = (b, bad_request, none)
post_say lower at connected sends (some text) b =
    if text == "" then (b, bad_request, none) else said (say lower at connected sends text b)

abbrev death_status : Option Session.DieError → Response
death_status none = no_content
death_status (some Session.death_link_off) = no_content
death_status (some Session.died_too_much) = no_content
death_status (some Session.not_connected) = status 503
death_status (some Session.write_failed) = status 503

abbrev pub died_with :
    Server
    → Session.Client × List Session.Packet × Option Session.DieError
    → Server × Session.Client × List Session.Packet × Response
died_with v (c, sent, e) = (v, c, sent, death_status e)

-- `postDeath`; a death is its popfile and its wave.
unfoldable pub post_death :
    Game
    → ℕ
    → Bool
    → Option (String × ℕ)
    → Server
    → Session.Client
    → Server × Session.Client × List Session.Packet × Response
post_death g at sends none v c = (v, c, [], bad_request)
post_death g at sends (some (pop, wave)) v c =
    died_with (record_failure pop wave v)
      (Session.die at sends (death_cause g c.slot_name pop wave) c)
