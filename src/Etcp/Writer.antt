-- ===== src/Etcp/Writer.antt =====
-- The writer of internal/etcp/link.go: a batch of ring entries framed, sent in pieces, and settled.
pub mod Framing
pub mod Settle
pub mod Passing
use et_go.Prelude.{
  ℕ, zero, suc, ◌+◌, ◌-◌, ◌*◌, ◌/◌, ◌^◌, min, List, [], ◌∷◌, ◌++◌, Bool, true, false, ◌&&◌, ◌||◌,
  Option, none, some, Bytes, length, take, drop, ltb, leb, ◌==◌, if◌then◌else◌, ℤ, pos, negsuc,
  at_or_after,
}
use et_go.Wire.Stream.{IoErr, check_count, io}
use et_go.Wire.Frame.{append_frame}
use et_go.Seal.{overhead}
use et_go.Etcp.Ring.{next, append_range}
use et_go.Etcp.Conn.{Conn, Err, integrity, wire, fail, release}

abbrev pub write_buf_size : ℕ
write_buf_size = 64 * 2 ^ 10

abbrev pub max_batch_entries : ℕ
max_batch_entries = write_buf_size / (4 + 2 + overhead) + 1

abbrev pub progress_chunk : ℕ
progress_chunk = 4 * 2 ^ 10

-- A batch while it is framed: how many entries, their frames, their bytes without the lengths, and the
-- offset of the probe's frame. `corrupt` is that an entry does not fit a frame.
pub record Batch : Type 0 where
  pub sent : ℕ
  pub buf : Bytes
  pub size : ℕ
  pub probe_at : Option ℕ
  pub corrupt : Bool

abbrev pub no_entries : Batch
no_entries = record { sent = 0; buf = []; size = 0; probe_at = none; corrupt = false }

-- Whether a sequence number is the probe's.
abbrev pub is_probe : ℤ → ℕ → Bool
is_probe (pos m) n = m == n
is_probe (negsuc m) n = false

-- The loop over the batch's entries.
unfoldable pub frame_batch : ℕ → ℤ → List Bytes → Batch → Batch
frame_batch base probe [] b = b
frame_batch base probe (f ∷ fs) b =
    let at = if is_probe probe (base + b.sent) then some (length b.buf) else b.probe_at in
    let (buf, failed) = append_frame b.buf f in
    let more =
      frame_batch base probe fs
        (record b { sent = b.sent + 1; buf = buf; size = b.size + length f; probe_at = at }) in
    let framed : Batch = elim failed [
      | none ↦ more
      | some e ↦ record b { probe_at = at; corrupt = true }
    ] in
    if ltb 0 b.sent && ltb write_buf_size (length b.buf + 4 + length f) then b else framed

-- The entries that one pass takes.
unfoldable pub batch_entries : Conn → List Bytes
batch_entries c =
    append_range [] c.flushed (min (next c.ring) (c.flushed + max_batch_entries)) c.ring

-- `probeBehind`, where `last` is the last probe's sequence number when it is asked.
unfoldable pub probe_behind : ℤ → ℕ → Option ℕ → ℕ → Bool
probe_behind last end (some at) written = leb written at
probe_behind last end none written = at_or_after last end

-- What has become of a batch's bytes: the error, the token of `alive`, and what reached the socket.
pub record Sent : Type 0 where
  pub failed : Option IoErr
  pub alive : Bool
  pub on_wire : Bytes

-- The loop over pieces. The socket answers the Write at offset `n` as `socket n` says, and the other
-- goroutines' last probe is then `seen n`. The rounds stand for the pieces that may be left.
module _ (socket : ℕ → Bytes → ℕ × Option IoErr) (seen : ℕ → ℤ) (end : ℕ)
    (probe_at : Option ℕ) where
  unfoldable pub send_pieces : ℕ → Bytes → ℕ → Sent → Sent
  send_pieces zero buf written s = s
  send_pieces (suc rounds) buf written s =
      let piece = take progress_chunk (drop written buf) in
      let answer = socket written piece in
      let written' = written + length piece in
      let sent : Sent = record s {
        alive = s.alive || probe_behind (seen written') end probe_at written';
        on_wire = s.on_wire ++ piece;
      } in
      let more = send_pieces rounds buf written' sent in
      let outcome : Sent = elim (check_count (length piece) answer) [
        | none ↦ more
        | some e ↦ record s { failed = some e; on_wire = s.on_wire ++ take answer.0 piece }
      ] in
      if ltb written (length buf) then outcome else s

-- A batch of `sent` entries and `size` bytes is written: the last step of a pass.
unfoldable pub settle : ℕ → ℕ → Conn → Conn
settle sent size c =
    let (c', room) = release (record c { flushed = c.flushed + sent; unsent = c.unsent - size }) in
    record c' { space = c'.space || room }

-- The batch of one pass, framed.
unfoldable pub framed : Conn → Batch
framed c = frame_batch c.flushed c.last_probe (batch_entries c) no_entries

-- How a pass of writeLoop ends: nothing to write, an entry that fits no frame, a failed Write with what
-- had reached the socket, or a batch written and settled.
pub data Pass : Type 0 where
  nothing_new : Pass
  corrupt_ring : Conn → Pass
  write_broken : IoErr → Bytes → Pass
  passed : ℕ → Bytes → Conn → Pass

-- The body of the loop in writeLoop. The mutex is not held while the batch is written, so `later` is
-- the state when it is settled.
module _ (socket : ℕ → Bytes → ℕ × Option IoErr) (seen : ℕ → ℤ) where
  abbrev pub batch_sent : Conn → Sent
  batch_sent c =
      let b = framed c in
      send_pieces socket seen (c.flushed + b.sent) b.probe_at (suc (length b.buf)) b.buf 0
        (record { failed = none; alive = false; on_wire = [] })

  abbrev pub pass_end : Option IoErr → Conn → Conn → Pass
  pass_end (some e) c later = write_broken e (batch_sent c).on_wire
  pass_end none c later =
      let b = framed c in passed b.sent (batch_sent c).on_wire (settle b.sent b.size later)

  unfoldable pub write_pass : Conn → Conn → Pass
  write_pass c later = elim (batch_entries c) [
    | [] ↦ nothing_new
    | _ ∷ _ ↦
        if (framed c).corrupt
        then corrupt_ring (fail integrity later)
        else pass_end (batch_sent c).failed c later
  ]
