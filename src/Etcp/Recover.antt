-- ===== src/Etcp/Recover.antt =====
-- The recover exchange of internal/etcp/recover.go.
--
-- The two goroutines of the exchange meet the environment in `Exchange`: what each WriteMessage
-- returned, and what each ReadMessage gave. `size` is proto.Size of a CatchupBuffer. The state is not
-- locked between `write_recover` and `finish_recover`, so each takes the state of its own moment.
pub mod Catchup
use et_go.Prelude.{
  ℕ, ◌+◌, ◌-◌, ◌^◌, List, Bool, true, false, ◌||◌, Option, none, some, Bytes, ltb, if◌then◌else◌, ℤ,
}
use et_go.Wire.Stream.{
  WireErr, Outcome, ok, err, too_large, malformed, io, conn_closed, max_message_size,
}
use et_go.Etcp.Ring.{next, since, bytes_between}
use et_go.Etcp.Conn.{Conn, Err, closed, wire, replay_exceeded, release}

abbrev pub max_int32 : ℕ
max_int32 = 2 ^ 31 - 1

-- `maxCatchupSize`.
abbrev pub max_catchup_size : ℕ
max_catchup_size = max_message_size

pub record Exchange : Type 0 where
  pub write_sequence : Option WireErr
  pub peer : Outcome ℤ
  pub size : List Bytes → ℕ
  pub write_catchup : List Bytes → Option WireErr
  pub theirs : Outcome (List Bytes)

-- A value or an error of the package.
pub data Result (A : Type 0) : Type 0 where
  done : A → Result A
  failed : Err → Result A

-- The steps of `writeRecover`, the last first: the catchup sent, its size checked, its entries found,
-- the peer's position read.
sent_catchup : ℕ → Option WireErr → Result ℕ
sent_catchup snap none = done snap
sent_catchup snap (some e) = failed (wire e)

send_catchup : Exchange → ℕ → Option (List Bytes) → Result ℕ
send_catchup x snap none = failed replay_exceeded
send_catchup x snap (some ours) =
    if ltb max_catchup_size (x.size ours)
    then failed replay_exceeded
    else sent_catchup snap (x.write_catchup ours)

answer_peer : Exchange → Outcome ℤ → Conn → Result ℕ
answer_peer x (err e) c = failed (wire e)
answer_peer x (ok peer) c = let snap = next c.ring in send_catchup x snap (since peer snap c.ring)

after_sequence : Exchange → Option WireErr → Conn → Result ℕ
after_sequence x (some e) c = failed (wire e)
after_sequence x none c = answer_peer x x.peer c

-- `writeRecover`: the sequence number that the new link starts from.
unfoldable pub write_recover : Exchange → Conn → Result ℕ
unfolding sent_catchup send_catchup answer_peer after_sequence
write_recover x c =
    if ltb max_int32 c.recv_seq then failed replay_exceeded else after_sequence x x.write_sequence c

-- The error of the reader, which reads the peer's two messages.
reader_error : Exchange → Option WireErr
reader_error x = elim x.peer [
  | err e ↦ some e
  | ok p ↦ elim x.theirs [ err e ↦ some e | ok b ↦ none ]
]

-- `readerErrWins`.
is_bad_message : WireErr → Bool
is_bad_message too_large = true
is_bad_message malformed = true
is_bad_message e = false

is_closed : Err → Bool
is_closed closed = true
is_closed (wire (io conn_closed)) = true
is_closed e = false

unfoldable pub reader_err_wins : Err → WireErr → Bool
unfolding is_bad_message is_closed
reader_err_wins e r = is_bad_message r || is_closed e

-- The error that `recover` reports, of the writer's and the reader's.
judge : Result ℕ → Option WireErr → Result ℕ
judge w none = w
judge (done snap) (some r) = failed (wire r)
judge (failed e) (some r) = if reader_err_wins e r then failed (wire r) else failed e

unfoldable pub exchange : Exchange → Conn → Result ℕ
unfolding judge reader_error
exchange x c = judge (write_recover x c) (reader_error x)

-- The end of a successful `recover`: the catchup counts as written, and is held from the peer's
-- position on.
unfoldable pub finish_recover : ℤ → ℕ → Conn → Conn
finish_recover peer snap c =
    let held = record c.ring { held = true; hold = peer } in
    let (c', room) = release (record c {
      unsent = c.unsent - bytes_between c.flushed snap c.ring;
      flushed = snap;
      ring = held;
    }) in
    record c' { space = c'.space || room }
