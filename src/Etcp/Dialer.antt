-- ===== src/Etcp/Dialer.antt =====
-- The handshake and the redial of internal/etcp/dialer.go and recover.go.
--
-- What the environment does is an argument: the answers of the peer, the results of reads and writes,
-- and whether a context has ended.
pub mod Fatal
pub mod Start
use et_go.Prelude.{
  ℕ, ◌+◌, ◌*◌, List, [], ◌∷◌, Bool, true, false, not, ◌&&◌, ◌||◌, Option, none, some, Bytes, length,
  ltb, ◌==◌, if◌then◌else◌, ℤ, pos, negsuc,
}
use et_go.Protocol.{Packet}
use et_go.Wire.Stream.{WireErr, Outcome, ok, err, too_large, malformed}
use et_go.Seal
use et_go.Seal.{client_to_server, server_to_client}
use et_go.Etcp.Backoff.{Backoff, next_delay, millisecond}
use et_go.Etcp.Conn.{
  Conn, Err, session_ended, version_mismatch, integrity, replay_exceeded, rejected, wire,
  max_payload,
}
use et_go.Etcp.Conn

-- defaultKeepAlive, minKeepAlive, defaultReplayLimit and maxReplayLimit, the times in nanoseconds.
abbrev pub default_keep_alive : ℕ
default_keep_alive = 5000 * millisecond

abbrev pub min_keep_alive : ℕ
min_keep_alive = 100 * millisecond

abbrev pub max_replay_limit : ℕ
max_replay_limit = 64 * 1048576

-- The options of a `Dialer` that Dial checks; a negative number is refused like one out of range.
pub record Dialer : Type 0 where
  pub keep_alive : ℤ
  pub probe : Packet
  pub replay_limit : ℤ

-- Why Dial refuses to start.
pub data Refusal : Type 0 where
  bad_passkey probe_too_large bad_keep_alive bad_replay_limit : Refusal

abbrev is_bad_keep_alive : ℤ → Bool
is_bad_keep_alive (negsuc n) = true
is_bad_keep_alive (pos n) = ltb 0 n && ltb n min_keep_alive

abbrev pub is_bad_limit : ℤ → Bool
is_bad_limit (negsuc n) = true
is_bad_limit (pos n) = ltb max_replay_limit n

-- The checks of `Dial` before it dials.
unfoldable pub check_options : Bytes → Dialer → Option Refusal
check_options passkey d =
    if not (length passkey == 32)
    then some bad_passkey
    else if ltb max_payload (length d.probe.payload)
    then some probe_too_large
    else if is_bad_keep_alive d.keep_alive
    then some bad_keep_alive
    else if is_bad_limit d.replay_limit
    then some bad_replay_limit
    else none

-- `cmp.Or` on a number that is not negative.
abbrev pub or_default : ℤ → ℕ → ℕ
or_default (pos n) d = if n == 0 then d else n
or_default (negsuc n) d = d

-- `newConn`, with its two streams. `none` would be a panic of seal.New.
fresh_conn : Dialer → Seal.Stream → Seal.Stream → Conn
fresh_conn d out inward = record {
  probe = d.probe;
  ended = none;
  out = out;
  ring = record {
    first = 0;
    entries = [];
    bytes = 0;
    limit = or_default d.replay_limit max_replay_limit;
    held = false;
    hold = pos 0;
  };
  flushed = 0;
  unsent = 0;
  last_probe = negsuc 0;
  inward = inward;
  recv_seq = 0;
  pending = [];
  inbox = [];
  readers_done = false;
  wake = false;
  space = false;
}

with_inward : Dialer → Seal.Stream → Option Seal.Stream → Option Conn
with_inward d out none = none
with_inward d out (some inward) = some (fresh_conn d out inward)

with_streams : Dialer → Option Seal.Stream → Option Seal.Stream → Option Conn
with_streams d none inward = none
with_streams d (some out) inward = with_inward d out inward

unfoldable pub new_conn : Bytes → Dialer → Option Conn
unfolding fresh_conn with_inward with_streams
new_conn passkey d =
    with_streams d (Seal.new (some passkey) client_to_server)
      (Seal.new (some passkey) server_to_client)

-- `isFatal`.
unfoldable pub is_fatal : Err → Bool
is_fatal session_ended = true
is_fatal version_mismatch = true
is_fatal replay_exceeded = true
is_fatal rejected = true
is_fatal integrity = true
is_fatal e = false

-- `ConnectStatus`.
pub data Status : Type 0 where
  new_client returning_client invalid_key mismatched_protocol : Status
  unknown : ℕ → Status

-- What the handshake comes to: a new session, the recover exchange, or an error.
pub data Greeting : Type 0 where
  fresh recovering : Greeting
  turned_away : Err → Greeting

-- The switch in `handshake`.
answer_status : Bool → Status → Greeting
answer_status first new_client = if first then fresh else turned_away rejected
answer_status first returning_client = recovering
answer_status first invalid_key = turned_away (if first then rejected else session_ended)
answer_status first mismatched_protocol = turned_away version_mismatch
answer_status first (unknown n) = turned_away rejected

read_response : Bool → Outcome Status → Greeting
read_response first (err e) = turned_away (wire e)
read_response first (ok status) = answer_status first status

-- `handshake`, from the results of writing the request and reading the response.
unfoldable pub handshake : Bool → Option WireErr → Outcome Status → Greeting
unfolding answer_status read_response
handshake first (some e) resp = turned_away (wire e)
handshake first none resp = read_response first resp

-- The end of `connect` behind a handshake that failed with `e`: a bad message is an integrity failure,
-- and an ended context's cause comes before an error that decides nothing.
abbrev is_bad : Err → Bool
is_bad (wire too_large) = true
is_bad (wire malformed) = true
is_bad e = false

unfoldable pub connect_error : Option Err → Err → Err
connect_error ctx e =
    let e' = if is_bad e then integrity else e in
    elim ctx [ none ↦ e' | some cause ↦ if is_fatal e' then e' else cause ]

-- What `connect` returns: nil, or an error.
-- `dialled` is the dial's error, `ctx` the cause of the context where that has ended, `shaken` the
-- handshake's error, `stopped` that the context closed the link as the handshake finished, and
-- `deadline` the error of the last SetDeadline.
pub record Attempt : Type 0 where
  pub ctx : Option Err
  pub dialled : Option Err
  pub shaken : Option Err
  pub stopped : Bool
  pub deadline : Option Err

-- A context that has ended gives its cause; the dialer's own error stands otherwise.
or_else : Option Err → Err → Err
or_else none e = e
or_else (some cause) e = cause

or_error : Option Err → Option Err → Option Err
or_error (some e) next = some e
or_error none next = next

unfoldable pub connect : Attempt → Option Err
unfolding or_else or_error
connect a =
    let late = if a.stopped then a.ctx else none in
    let shaken = or_error a.shaken (or_error late a.deadline) in
    let after_dial : Option Err = elim shaken [
      | none ↦ none
      | some e ↦ some (connect_error a.ctx e)
    ] in
    elim a.dialled [ none ↦ after_dial | some e ↦ some (or_else a.ctx e) ]

-- `reconnect`, over the attempts that follow one another, each with the cause of the connection's end
-- if that came during the wait before it. `going_on` is that none of these attempts decided.
pub data Redial : Type 0 where
  restored going_on : Redial
  gave_up : Err → Redial

module _ (jittered : ℕ → ℕ) where
  -- The timer is armed only for a positive delay.
  unfoldable pub reconnect : List (Option Err × Attempt) → Backoff → Redial × Backoff
  reconnect [] b = (going_on, b)
  reconnect ((interrupt, a) ∷ rest) b =
      let (d, b') = next_delay jittered b in
      let more = reconnect rest b' in
      let after_error = λ (e : Err).
        let decided : Redial × Backoff = (gave_up e, b') in
        let tried : Redial × Backoff = elim a.ctx [
          | none ↦ if is_fatal e then decided else more
          | some c ↦ decided
        ] in
        tried in
      let attempt : Redial × Backoff = elim (connect a) [
        | none ↦ (restored, b')
        | some e ↦ after_error e
      ] in
      let waited : Redial × Backoff = elim interrupt [
        | none ↦ attempt
        | some cause ↦ (gave_up cause, b')
      ] in
      if ltb 0 d then waited else attempt
