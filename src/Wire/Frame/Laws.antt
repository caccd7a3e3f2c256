-- ===== src/Wire/Frame/Laws.antt =====
-- What a reader makes of the frames that a writer sends.
use et_go.Prelude.{
  ℕ, ◌≤◌, ◌<◌, ◌^◌, ◌%◌, [], ◌∷◌, ◌++◌, ◌≡◌, refl, none, some, Bytes, length, take, drop, ltb,
  if◌then◌else◌, arith, length-append, take-append, drop-append, append_assoc, le→ltb,
}
use et_go.Wire.Stream.{
  Stream, Writer, WireErr, is_eof, short_err, wrapped_eof, short_write, conn_closed, fault,
  read_full, Outcome, ok, err, too_large, clean_eof, io, eof, unexpected_eof, max_frame_size,
  write_checked, IoErr,
}
use et_go.Wire.Body.Laws.{exact_read, read_body-exact}
use et_go.Wire.Frame.{
  length_failed, written, be32, be32_value, append_frame, read_frame, write_frame,
}

be32_value-be32 : (n : ℕ) → n < 2 ^ 32 → be32_value (be32 n) ≡ n
unfolding be32 be32_value
be32_value-be32 n h = omega arith

-- A frame that `AppendFrame` accepts, and what it appends.
pub append_frame-ok :
    (dst frame : Bytes)
    → length frame ≤ max_frame_size
    → append_frame dst frame ≡ (dst ++ (be32 (length frame) ++ frame), none)
unfolding append_frame
append_frame-ok dst frame h =
    let e : length frame % 2 ^ 32 ≡ length frame = omega arith in rw (le→ltb _ _ h, e)

read_full-be32 :
    (n : ℕ) (more : Bytes) (e : IoErr)
    → read_full 4 (record { bytes = be32 n ++ more; ending = e })
      ≡ record { got = be32 n; failed = none; rest = record { bytes = more; ending = e } }
unfolding read_full be32
read_full-be32 n more e = ground arith

-- `ReadFrame` on what `AppendFrame` put at the head of the stream returns the frame and leaves what
-- follows it, whatever the buffer it reads into.
pub read_frame-append_frame :
    (room : ℕ) (frame more : Bytes) (e : IoErr)
    → length frame ≤ max_frame_size
    → let r = read_frame room (record { bytes = (append_frame [] frame).0 ++ more; ending = e }) in
      (r.outcome ≡ ok frame) × (r.rest ≡ record { bytes = more; ending = e })
unfolding read_frame
read_frame-append_frame room frame more e h = ground (
  arith,
  append_frame-ok [] frame h,
  append_assoc (be32 (length frame)) frame more,
  read_full-be32 (length frame) (frame ++ more) e,
  be32_value-be32 (length frame) (omega arith),
  read_body-exact room (length frame) (record { bytes = frame ++ more; ending = e }),
  length-append frame more,
  take-append frame more,
  drop-append frame more,
)

-- The reference for `ReadFrame`, by what the stream holds.
abbrev cut_length : Bytes → IoErr → WireErr
cut_length [] e = if is_eof e then clean_eof else io e
cut_length b e = io (if is_eof e then unexpected_eof else e)

abbrev pub frame_read : Stream → Outcome Bytes × Stream
frame_read s =
    if ltb (length s.bytes) 4
    then (err (cut_length s.bytes s.ending), record s { bytes = [] })
    else if ltb max_frame_size (be32_value (take 4 s.bytes))
    then (err too_large, record s { bytes = drop 4 s.bytes })
    else exact_read [] (be32_value (take 4 s.bytes)) (record s { bytes = drop 4 s.bytes })

length_failed-short_err :
    (b : Bytes) (e : IoErr) → length b < 4 → length_failed b (short_err b e) ≡ cut_length b e
length_failed-short_err [] eof h = refl
length_failed-short_err [] wrapped_eof h = refl
length_failed-short_err [] unexpected_eof h = refl
length_failed-short_err [] short_write h = refl
length_failed-short_err [] conn_closed h = refl
length_failed-short_err [] (fault n) h = refl
length_failed-short_err (x ∷ b) eof h = ground arith
length_failed-short_err (x ∷ b) wrapped_eof h = ground arith
length_failed-short_err (x ∷ b) unexpected_eof h = refl
length_failed-short_err (x ∷ b) short_write h = refl
length_failed-short_err (x ∷ b) conn_closed h = refl
length_failed-short_err (x ∷ b) (fault n) h = refl

-- `ReadFrame` on any stream: an empty stream that ends is a plain io.EOF, one that ends within the
-- length is an error that wraps io.ErrUnexpectedEOF, a length above MaxFrameSize is refused with no
-- byte of the body taken, and otherwise exactly the body is read or its absence reported.
pub read_frame-cases :
    (room : ℕ) (s : Stream)
    → ◌≡◌ {A = Outcome Bytes × Stream}
        ((read_frame room s).outcome, (read_frame room s).rest)
        (frame_read s)
unfolding read_frame read_full
read_frame-cases room s = ground (
  arith,
  length_failed-short_err s.bytes s.ending,
  read_body-exact room (be32_value (take 4 s.bytes)) (record s { bytes = drop 4 s.bytes }),
)

-- `WriteFrame` refuses a frame above MaxFrameSize before any Write; every other frame goes out whole
-- behind its length in exactly one Write call, and the result is nil exactly when the writer reports
-- every byte and no error.
pub write_frame-cases :
    (w : Writer) (frame : Bytes)
    → let packed = be32 (length frame) ++ frame in
      write_frame w frame ≡ (
        if ltb max_frame_size (length frame)
        then (some too_large, [])
        else (written (write_checked w packed), packed ∷ []))
unfolding write_frame
write_frame-cases w frame = ground (arith, append_frame-ok [] frame)

pub length-be32 : (n : ℕ) → length (be32 n) ≡ 4
unfolding be32
length-be32 n = refl
