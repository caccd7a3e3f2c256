-- ===== src/Wire/Body/Laws.antt =====
-- What `read_body` reads, and the memory that it takes.
use et_go.Prelude.{
  ℕ, zero, suc, ◌+◌, ◌-◌, ◌*◌, ◌≤◌, ◌<◌, max, [], ◌++◌, ◌∷◌, ◌≡◌, refl, Bytes, length, take, drop,
  leb, if◌then◌else◌, arith, le→leb, length-append, length-take, length-drop, take_add, drop-drop,
  append_assoc, append-nil,
}
use et_go.Wire.Stream.{
  Stream, read_full, Outcome, ok, err, io, IoErr, body_err, short_err, eof, wrapped_eof,
  unexpected_eof, short_write, conn_closed, fault, grow_chunk,
}
use et_go.Wire.Body.{next_step, grown, read_loop, read_body}

-- The reference: `k` more bytes behind `got`, or the error of a stream that ends too early.
abbrev pub exact_read : Bytes → ℕ → Stream → Outcome Bytes × Stream
exact_read got k s =
    if leb k (length s.bytes)
    then (ok (got ++ take k s.bytes), record s { bytes = drop k s.bytes })
    else (err (io (body_err s.ending)), record s { bytes = [] })

body_err-short_err : (b : Bytes) (e : IoErr) → body_err (short_err b e) ≡ body_err e
body_err-short_err [] e = refl
body_err-short_err (x ∷ b) eof = refl
body_err-short_err (x ∷ b) wrapped_eof = refl
body_err-short_err (x ∷ b) unexpected_eof = refl
body_err-short_err (x ∷ b) short_write = refl
body_err-short_err (x ∷ b) conn_closed = refl
body_err-short_err (x ∷ b) (fault n) = refl

next_step_bounds : (n len : ℕ) → len < n → (len < next_step n len) × (next_step n len ≤ n)
unfolding next_step
next_step_bounds n len h = omega arith

exact_read-zero : (got : Bytes) (s : Stream) → exact_read got 0 s ≡ (ok got, s)
exact_read-zero got s = rw (le→leb 0 (length s.bytes) (omega arith), append-nil)

-- Reading `j` bytes and then `k` is reading `j + k`.
exact_read-add :
    (got : Bytes) (j k : ℕ) (s : Stream)
    → j ≤ length s.bytes
    → exact_read (got ++ take j s.bytes) k (record s { bytes = drop j s.bytes })
      ≡ exact_read got (j + k) s
exact_read-add got j k s h = ground (
  arith,
  length-drop j s.bytes,
  append_assoc got (take j s.bytes) (take k (drop j s.bytes)),
  take_add j k s.bytes,
  drop-drop k j s.bytes,
)

read_loop-exact :
    (rounds n : ℕ) (got : Bytes) (cap : ℕ) (s : Stream)
    → n ≤ length got + rounds
    → length got ≤ n
    → ◌≡◌ {A = Outcome Bytes × Stream}
        ((read_loop rounds n got cap s).outcome, (read_loop rounds n got cap s).rest)
        (exact_read got (n - length got) s)
unfolding read_loop read_full
read_loop-exact zero n got cap s h k =
    let e : n - length got ≡ 0 = omega arith in rw (e, exact_read-zero)
read_loop-exact (suc rounds) n got cap s h k =
    let next = next_step n (length got) in
    ground (
      arith,
      next_step_bounds n (length got),
      exact_read-zero got s,
      length-append got (take (next - length got) s.bytes),
      length-take (next - length got) s.bytes,
      body_err-short_err s.bytes s.ending,
      exact_read-add got (next - length got) (n - next) s,
      read_loop-exact rounds n (got ++ take (next - length got) s.bytes) (grown n cap next)
          (record s { bytes = drop (next - length got) s.bytes }),
    )

-- A read step fits the grown buffer, whose size stays in proportion to the bytes at hand.
pub grown_bounds :
    (n cap len : ℕ)
    → let next = next_step n len in
      (next ≤ grown n cap next)
      × (grown n cap next ≤ max cap (max n grow_chunk))
      × (grown n cap next ≤ max cap (max (2 * grow_chunk) (4 * len)))
unfolding grown next_step
grown_bounds n cap len = ground arith

read_loop-capacity :
    (rounds n : ℕ) (got : Bytes) (cap : ℕ) (s : Stream)
    → let r = read_loop rounds n got cap s in
      (length r.rest.bytes ≤ length s.bytes)
      × (r.capacity ≤ max cap (max n grow_chunk))
      × (r.capacity
          ≤ max cap
              (max (2 * grow_chunk) (4 * (length got + length s.bytes - length r.rest.bytes))))
unfolding read_loop read_full
read_loop-capacity zero n got cap s = omega arith
read_loop-capacity (suc rounds) n got cap s =
    let next = next_step n (length got) in
    ground (
      arith,
      grown_bounds n cap (length got),
      length-append got (take (next - length got) s.bytes),
      length-take (next - length got) s.bytes,
      length-drop (next - length got) s.bytes,
      read_loop-capacity rounds n (got ++ take (next - length got) s.bytes) (grown n cap next)
          (record s { bytes = drop (next - length got) s.bytes }),
    )

-- `readBody` returns exactly the next `n` bytes of the stream and takes no more of it; a stream that
-- ends before them is consumed, and its error is reported with any io.EOF turned into
-- io.ErrUnexpectedEOF. The capacity of the buffer it was given makes no difference.
pub read_body-exact :
    (cap n : ℕ) (s : Stream)
    → ◌≡◌ {A = Outcome Bytes × Stream}
        ((read_body cap n s).outcome, (read_body cap n s).rest)
        (exact_read [] n s)
unfolding read_body read_full
read_body-exact cap n s = ground (
  arith,
  read_loop-exact n n [] cap s (omega arith) (omega arith),
  body_err-short_err s.bytes s.ending,
)

-- Whatever length the peer declares, the buffer of `readBody` grows past the caller's capacity at
-- most to the larger of twice growChunk and four times the bytes that arrived, and never past the
-- larger of `n` and growChunk.
pub read_body-capacity :
    (cap n : ℕ) (s : Stream)
    → let r = read_body cap n s in
      (r.capacity ≤ max cap (max n grow_chunk))
      × (r.capacity ≤ max cap (max (2 * grow_chunk) (4 * (length s.bytes - length r.rest.bytes))))
unfolding read_body
read_body-capacity cap n s = ground (arith, read_loop-capacity n n [] cap s)
