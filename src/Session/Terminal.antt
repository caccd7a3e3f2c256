-- ===== src/Session/Terminal.antt =====
-- internal/session/terminal.go: the loops of the terminal service.
--
-- A goroutine is a function of what its calls answered: the reads of the console, the packets of its
-- queue, and `answer n`, what the transport or the console answered to its n-th write. proto.Marshal and
-- proto.Unmarshal are arguments, none for an error. How a push meets the sender is in Session.Input.
pub mod Keyboard
pub mod Sent
pub mod Showing
use et_go.Prelude.{
  ℕ, zero, suc, ◌+◌, ◌*◌, ◌^◌, List, [], ◌∷◌, ◌++◌, Bool, true, false, Option, none, some, Bytes,
  if◌then◌else◌, length,
}
use et_go.Protocol.{Header, Packet, header_terminal_info, header_terminal_buffer}
use et_go.Session.Escape.{EscapeFilter, filter}
use et_go.Session.Input.{
  PendingInput, take_input, Size, LatestSize, set_size, take_size, terminal_info,
}

-- MaxInputPacket of session.go.
abbrev pub max_input_packet : ℕ
max_input_packet = 64 * 2 ^ 10

-- How a loop of the service returns: the cause of its context, the local escape, or an error of its own.
pub data LoopErr : Type 0 where
  context_cause : ℕ → LoopErr
  left_session input_closed encode_failed decode_failed : LoopErr
  read_failed write_failed send_failed : ℕ → LoopErr

-- What a call of Read gave: its bytes, and its error with the context's cause where that had ended.
pub data ReadErr : Type 0 where
  at_eof : ReadErr
  not_read : ℕ → ReadErr

pub record Read : Type 0 where
  pub data_read : Bytes
  pub failed : Option (ReadErr × Option ℕ)

unfoldable pub read_err : ReadErr × Option ℕ → LoopErr
read_err (e, some cause) = context_cause cause
read_err (at_eof, none) = input_closed
read_err (not_read e, none) = read_failed e

abbrev pub ReadLoop : Type 0
ReadLoop = List Bytes × Option LoopErr

-- The rest of the loop behind a read that is no escape.
after_read : Option (ReadErr × Option ℕ) → ReadLoop → ReadLoop
after_read none rest = rest
after_read (some e) rest = ([], some (read_err e))

pushed : Bytes → ReadLoop → ReadLoop
pushed b r = (b ∷ r.0, r.1)

-- `read` over its reads, with what it gave to pending.push; none is that it has not returned yet.
unfoldable pub read : List Read → EscapeFilter → ReadLoop
unfolding read_err after_read pushed
read [] f = ([], none)
read (record_read ∷ more) f =
    let src = record_read.data_read in
    let r = filter src f in
    let idle = read more f in
    let rest = read more r.filter_state in
    elim src [
      | [] ↦ after_read record_read.failed idle
      | _ ∷ _ ↦
          pushed r.out
            (if r.detach then ([], some left_session) else after_read record_read.failed rest)
    ]

-- What a write answered: nil, or an error with the context's cause where that had ended.
pub data Answer : Type 0 where
  accepted : Answer
  refused : ℕ → Option ℕ → Answer

unfoldable pub send_err : ℕ → Option ℕ → LoopErr
send_err e (some cause) = context_cause cause
send_err e none = send_failed e

-- What the sender has put on the transport, and how it stands.
pub record Sending : Type 0 where
  pub sent : List Packet
  pub failed : Option LoopErr
  pub pending : PendingInput

module _ (answer : ℕ → Answer) where
  answered : Answer → Packet → Sending → PendingInput → Sending
  answered (refused e over) packet rest p = record {
    sent = [];
    failed = some (send_err e over);
    pending = p;
  }
  answered accepted packet rest p = record rest { sent = packet ∷ rest.sent }

  -- `write`, as the n-th, and what the loop does behind one that succeeded.
  write : ℕ → Header → Option Bytes → Sending → PendingInput → Sending
  write n h none rest p = record { sent = []; failed = some encode_failed; pending = p }
  write n h (some b) rest p = answered (answer n) (record { header = h; payload = b }) rest p

  module _ (marshal_buffer : Bytes → Option Bytes) where
    -- The inner loop of `send`, on fuel, from the n-th write on.
    unfoldable pub send_pending : ℕ → ℕ → PendingInput → Sending
    unfolding send_err answered write
    send_pending zero n p = record { sent = []; failed = none; pending = p }
    send_pending (suc fuel) n p =
        let (chunk, p') = take_input max_input_packet p in
        let rest = send_pending fuel (n + 1) p' in
        elim chunk [
          | none ↦ record { sent = []; failed = none; pending = p' }
          | some b ↦ write n header_terminal_buffer (marshal_buffer b) rest p'
        ]

    -- One round of `send`, from the n-th write on: the window size if it changed, then the input. Fuel
    -- is one for each pending byte and one more.
    round_pending : ℕ → PendingInput → Sending
    round_pending n p = send_pending (length p.buf + 1) n p

    unfoldable pub send_round :
        (Size → Option Bytes) → ℕ → LatestSize → PendingInput → Sending × LatestSize
    unfolding send_pending round_pending write answered send_err
    send_round marshal_info n l p =
        let (size, l') = take_size l in
        elim size [
          | none ↦ (round_pending n p, l')
          | some s ↦ (
            write n header_terminal_info (marshal_info (terminal_info s)) (round_pending (n + 1) p)
                p,
            l',
          )
        ]

-- What the terminal has shown of the remote output, and how `output` returned; none is nil.
abbrev pub Output : Type 0
Output = List Bytes × Option LoopErr

unfoldable pub output_err : ℕ → Option ℕ → LoopErr
output_err e (some cause) = context_cause cause
output_err e none = write_failed e

module _ (answer : ℕ → Answer) (unmarshal : Bytes → Option Bytes) where
  shown_at : Answer → Bytes → Output → Output
  shown_at (refused e over) b rest = ([], some (output_err e over))
  shown_at accepted b rest = (b ∷ rest.0, rest.1)

  -- `output` over the packets of its queue, from the n-th write on.
  unfoldable pub output : ℕ → List Packet → Output
  unfolding output_err shown_at
  output n [] = ([], none)
  output n (p ∷ ps) =
      let rest = output (n + 1) ps in
      elim (unmarshal p.payload) [
        | none ↦ ([], some decode_failed)
        | some b ↦ shown_at (answer n) b rest
      ]

-- The first size that `start` sets; the zero size where the terminal gave none.
abbrev pub first_size : Option Size → LatestSize → LatestSize
first_size (some s) l = set_size s l
first_size none l = set_size (record { rows = 0; cols = 0; width = 0; height = 0 }) l
