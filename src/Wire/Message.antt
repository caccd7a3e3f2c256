-- ===== src/Wire/Message.antt =====
-- internal/wire/message.go: handshake messages behind an 8-byte little-endian length.
--
-- The protobuf library is not part of the program: it is the record `Proto`, and `ProtoLaws` is what
-- the code relies on.
pub mod Laws
use et_go.Prelude.{
  ℕ, zero, suc, ◌+◌, ◌-◌, ◌*◌, ◌/◌, ◌%◌, ◌^◌, ◌≡◌, List, [], ◌∷◌, ◌++◌, Option, none, some, Bytes,
  length, le_bytes, le_value, leb, ltb, ◌||◌, if◌then◌else◌,
}
use et_go.Wire.Stream.{
  Stream, Writer, read_full, Outcome, ok, err, WireErr, too_large, malformed, marshal_failed, io,
  IoErr, header_err, write_checked, max_message_size,
}
use et_go.Wire.Body.{read_body}
use et_go.Wire.Frame.{written}

-- `proto.Size`, `proto.Marshal` (`none` for its error) and `proto.Unmarshal`.
pub record Proto (M : Type 0) : Type 0 where
  pub size : M → ℕ
  pub marshal : M → Option Bytes
  pub unmarshal : Bytes → Option M

-- Size is the length of the encoding, and decoding an encoding gives the message back.
pub record ProtoLaws {M : Type 0} (p : Proto M) : Type 0 where
  pub exact_size : (m : M) (b : Bytes) → p.marshal m ≡ some b → p.size m ≡ length b
  pub decodes : (m : M) (b : Bytes) → p.marshal m ≡ some b → p.unmarshal b ≡ some m

module _ {M : Type 0} (p : Proto M) where
  -- The body behind its length, unless it is above the limit after all.
  abbrev pub send_body : Writer → Option Bytes → Option WireErr × List Bytes
  send_body w none = (some marshal_failed, [])
  send_body w (some body) =
      let buf = le_bytes 8 (length body % 2 ^ 64) ++ body in
      if ltb max_message_size (length body)
      then (some too_large, [])
      else (written (write_checked w buf), buf ∷ [])

  -- `WriteMessage`: its error, and the Write calls that it makes.
  unfoldable pub write_message : Writer → M → Option WireErr × List Bytes
  write_message w m =
      if ltb max_message_size (p.size m) then (some too_large, []) else send_body w (p.marshal m)

  abbrev pub decoded : Option M → Outcome M
  decoded none = err malformed
  decoded (some m) = ok m

  abbrev pub decode_body : Outcome Bytes → Outcome M
  decode_body (err e) = err e
  decode_body (ok body) = decoded (p.unmarshal body)

  -- `ReadMessage`, with what it leaves of the stream. A length of 2 ^ 63 or more is negative as an
  -- int64.
  unfoldable pub read_message : Stream → Outcome M × Stream
  read_message s =
      let r = read_full 8 s in
      let n = le_value r.got in
      let b = read_body 0 n r.rest in
      let body : Outcome M × Stream =
        if leb (2 ^ 63) n || ltb max_message_size n
        then (err too_large, r.rest)
        else (decode_body b.outcome, b.rest) in
      elim r.failed [ none ↦ body | some e ↦ (err (io (header_err (length r.got) e)), r.rest) ]
