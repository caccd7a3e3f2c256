-- ===== src/Wire/Stream.antt =====
-- Go's `io.Reader` and `io.Writer` as internal/wire uses them, and the errors and limits of wire.go.
--
-- A reader is the bytes that it will still deliver and the error that follows them. `eof` is the
-- plain io.EOF, `wrapped_eof` an error that wraps it, `conn_closed` is net.ErrClosed or
-- io.ErrClosedPipe, and `fault n` is any other error.
use et_go.Prelude.{
  ℕ, ◌*◌, ◌^◌, [], Bool, true, false, Option, none, some, Bytes, length, take, drop, leb,
  if◌then◌else◌, ◌==◌,
}

pub data IoErr : Type 0 where
  eof wrapped_eof unexpected_eof short_write conn_closed : IoErr
  fault : ℕ → IoErr

-- What the functions of the package return. `clean_eof` is io.EOF as it is, `io e` an error that
-- wraps `e`.
pub data WireErr : Type 0 where
  too_large malformed short_packet marshal_failed clean_eof : WireErr
  io : IoErr → WireErr

pub data Outcome (A : Type 0) : Type 0 where
  ok : A → Outcome A
  err : WireErr → Outcome A

pub record Stream : Type 0 where
  pub bytes : Bytes
  pub ending : IoErr

-- `errors.Is(err, io.EOF)`.
abbrev pub is_eof : IoErr → Bool
is_eof eof = true
is_eof wrapped_eof = true
is_eof e = false

-- io.ReadFull gives io.ErrUnexpectedEOF for an unwrapped io.EOF behind at least one byte.
abbrev pub short_err : Bytes → IoErr → IoErr
short_err [] e = e
short_err b eof = unexpected_eof
short_err b e = e

pub record FullRead : Type 0 where
  pub got : Bytes
  pub failed : Option IoErr
  pub rest : Stream

-- `io.ReadFull(r, buf)` with `n = len(buf)`.
unfoldable pub read_full : ℕ → Stream → FullRead
read_full n s =
    if leb n (length s.bytes)
    then record { got = take n s.bytes; failed = none; rest = record s { bytes = drop n s.bytes } }
    else record {
      got = s.bytes;
      failed = some (short_err s.bytes s.ending);
      rest = record s { bytes = [] };
    }

-- One `Write` call: how many bytes the writer reports, and its error.
abbrev pub Writer : Type 0
Writer = Bytes → ℕ × Option IoErr

-- MaxMessageSize, MaxFrameSize and growChunk.
abbrev pub max_message_size : ℕ
max_message_size = 128 * 2 ^ 20

abbrev pub max_frame_size : ℕ
max_frame_size = 16 * 2 ^ 20

abbrev pub grow_chunk : ℕ
grow_chunk = 64 * 2 ^ 10

-- `headerErr`.
abbrev pub header_err : ℕ → IoErr → IoErr
header_err n e = if is_eof e then (if n == 0 then eof else unexpected_eof) else e

-- `bodyErr`.
abbrev pub body_err : IoErr → IoErr
body_err e = header_err 1 e

-- A short count without an error is io.ErrShortWrite.
abbrev pub check_count : ℕ → ℕ × Option IoErr → Option IoErr
check_count len (n, some e) = some e
check_count len (n, none) = if n == len then none else some short_write

-- `writeChecked`: the error of one Write of `buf`.
unfoldable pub write_checked : Writer → Bytes → Option IoErr
write_checked w buf = check_count (length buf) (w buf)
