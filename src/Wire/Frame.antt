-- ===== src/Wire/Frame.antt =====
-- internal/wire/frame.go: stream frames behind a 4-byte big-endian length.
pub mod Laws
use et_go.Prelude.{
  ℕ, ◌+◌, ◌*◌, ◌/◌, ◌%◌, ◌^◌, List, [], ◌∷◌, ◌++◌, Option, none, some, Bytes, length, ltb,
  if◌then◌else◌,
}
use et_go.Wire.Stream.{
  Stream, Writer, read_full, Outcome, ok, err, WireErr, too_large, clean_eof, io, IoErr, is_eof,
  header_err, write_checked, max_frame_size,
}
use et_go.Wire.Body.{BodyRead, read_body}

-- `binary.BigEndian.AppendUint32` and `binary.BigEndian.Uint32`.
unfoldable pub be32 : ℕ → Bytes
be32 n = (n / 2 ^ 24 % 256) ∷ (n / 2 ^ 16 % 256) ∷ (n / 2 ^ 8 % 256) ∷ (n % 256) ∷ []

unfoldable pub be32_value : Bytes → ℕ
be32_value (a ∷ b ∷ c ∷ d ∷ _) = a * 2 ^ 24 + b * 2 ^ 16 + c * 2 ^ 8 + d
be32_value _ = 0

-- `AppendFrame`.
unfoldable pub append_frame : Bytes → Bytes → Bytes × Option WireErr
append_frame dst frame =
    if ltb max_frame_size (length frame)
    then (dst, some too_large)
    else (dst ++ (be32 (length frame % 2 ^ 32) ++ frame), none)

-- `WriteFrame`: its error, and the Write calls that it makes.
abbrev pub written : Option IoErr → Option WireErr
written none = none
written (some e) = some (io e)

abbrev send_frame : Writer → Bytes × Option WireErr → Option WireErr × List Bytes
send_frame w (buf, some e) = (some e, [])
send_frame w (buf, none) = (written (write_checked w buf), buf ∷ [])

pub write_frame : Writer → Bytes → Option WireErr × List Bytes
write_frame w frame =
    if ltb max_frame_size (length frame)
    then (some too_large, [])
    else send_frame w (append_frame [] frame)

-- `ReadFrame`, where `room` is the capacity of buf once it holds the 4 bytes of the length.
abbrev pub length_failed : Bytes → IoErr → WireErr
length_failed got e = let e' = header_err (length got) e in if is_eof e' then clean_eof else io e'

unfoldable pub read_frame : ℕ → Stream → BodyRead
read_frame room s =
    let r = read_full 4 s in
    let n = be32_value r.got in
    let body : BodyRead =
      if ltb max_frame_size n
      then record { outcome = err too_large; rest = r.rest; capacity = room }
      else read_body room n r.rest in
    elim r.failed [
      | none ↦ body
      | some e ↦ record { outcome = err (length_failed r.got e); rest = r.rest; capacity = room }
    ]
