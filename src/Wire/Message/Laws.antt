-- ===== src/Wire/Message/Laws.antt =====
-- What a peer makes of a handshake message.
use et_go.Prelude.{
  ℕ, ◌≤◌, ◌≡◌, refl, [], ◌∷◌, ◌++◌, none, some, Bytes, length, le_bytes, le_value,
  le_value-le_bytes, ltb, arith, take, drop, if◌then◌else◌, length-append, take-append, drop-append,
  append_assoc, Option-cases, inl, inr,
}
use et_go.Wire.Stream.{
  Stream, Writer, read_full, Outcome, ok, err, too_large, io, IoErr, short_err, body_err, eof,
  wrapped_eof, unexpected_eof, short_write, conn_closed, fault, header_err, write_checked,
  max_message_size,
}
use et_go.Wire.Body.Laws.{read_body-exact}
use et_go.Wire.Message.{Proto, ProtoLaws, decoded, write_message, read_message}

read_full-le_bytes :
    (n : ℕ) (more : Bytes) (e : IoErr)
    → read_full 8 (record { bytes = le_bytes 8 n ++ more; ending = e })
      ≡ record { got = le_bytes 8 n; failed = none; rest = record { bytes = more; ending = e } }
unfolding read_full le_bytes
read_full-le_bytes n more e = ground arith

header_err-short_err :
    (b : Bytes) (e : IoErr) → header_err (length b) (short_err b e) ≡ header_err (length b) e
header_err-short_err [] e = refl
header_err-short_err (x ∷ b) eof = ground arith
header_err-short_err (x ∷ b) wrapped_eof = ground arith
header_err-short_err (x ∷ b) unexpected_eof = refl
header_err-short_err (x ∷ b) short_write = refl
header_err-short_err (x ∷ b) conn_closed = refl
header_err-short_err (x ∷ b) (fault n) = refl

module _ {M : Type 0} (p : Proto M) where
  -- A writer that takes every byte it is given.
  abbrev pub Takes : Writer → Type 0
  Takes w = (b : Bytes) → w b ≡ (length b, none)

  -- What `WriteMessage` sends for a message whose encoding is within the limit: one Write of the
  -- length and the encoding.
  pub write_message-ok :
      (w : Writer) (m : M) (body : Bytes)
      → ProtoLaws p
      → Takes w
      → p.marshal m ≡ some body
      → length body ≤ max_message_size
      → write_message p w m ≡ (none, (le_bytes 8 (length body) ++ body) ∷ [])
  unfolding write_message write_checked
  write_message-ok w m body laws takes e h =
      ground (arith, laws.exact_size m body e, takes (le_bytes 8 (length body) ++ body))

  read_message-encoded :
      (m : M) (body more : Bytes) (e : IoErr)
      → p.unmarshal body ≡ some m
      → length body ≤ max_message_size
      → read_message p (record { bytes = le_bytes 8 (length body) ++ (body ++ more); ending = e })
        ≡ (ok m, record { bytes = more; ending = e })
  unfolding read_message
  read_message-encoded m body more e d h = ground (
    arith,
    read_full-le_bytes (length body) (body ++ more) e,
    le_value-le_bytes 8 (length body) (omega arith),
    read_body-exact 0 (length body) (record { bytes = body ++ more; ending = e }),
    length-append body more,
    take-append body more,
    drop-append body more,
  )

  -- A message that went out whole was encoded, within the limit.
  write_message-sent :
      (w : Writer) (m : M) (sent : Bytes)
      → write_message p w m ≡ (none, sent ∷ [])
      → (body : Bytes) × (p.marshal m ≡ some body)
        × (sent ≡ le_bytes 8 (length body) ++ body)
        × (length body ≤ max_message_size)
  unfolding write_message
  write_message-sent w m sent h = elim (Option-cases (p.marshal m)) [
    | inl e ↦ absurd (ground arith)
    | inr (body, e) ↦ (body, e, ground arith, ground arith)
  ]

  -- When the message encoding keeps its laws and `WriteMessage` returned nil, `ReadMessage` on what it
  -- sent returns the message and leaves what follows it.
  pub read_message-write_message :
      (w : Writer) (m : M) (sent more : Bytes) (e : IoErr)
      → ProtoLaws p
      → write_message p w m ≡ (none, sent ∷ [])
      → read_message p (record { bytes = sent ++ more; ending = e })
        ≡ (ok m, record { bytes = more; ending = e })
  read_message-write_message w m sent more e laws h =
      let (body, encoded, layout, fits) = write_message-sent w m sent h in
      rw (layout, append_assoc)
        (read_message-encoded m body more e (laws.decodes m body encoded) fits)

  -- The reference for `ReadMessage`: no byte, a cut length, a length above MaxMessageSize or negative
  -- as an int64, a cut body, and a body that decodes or does not.
  abbrev pub message_read : Stream → Outcome M × Stream
  message_read s =
      let n = le_value (take 8 s.bytes) in
      let rest : Stream = record s { bytes = drop 8 s.bytes } in
      if ltb (length s.bytes) 8
      then (err (io (header_err (length s.bytes) s.ending)), record s { bytes = [] })
      else if ltb max_message_size n
      then (err too_large, rest)
      else if ltb (length rest.bytes) n
      then (err (io (body_err s.ending)), record s { bytes = [] })
      else (decoded p (p.unmarshal (take n rest.bytes)), record s { bytes = drop n rest.bytes })

  -- `ReadMessage` on any stream: one that ends within the length gives the error of the length, a
  -- negative length or one above MaxMessageSize is refused with no byte of the body taken, and
  -- otherwise exactly the body is read and decoded, or its absence or its decoding error reported.
  pub read_message-cases : (s : Stream) → read_message p s ≡ message_read s
  unfolding read_message read_full
  read_message-cases s = ground (
    arith,
    header_err-short_err s.bytes s.ending,
    read_body-exact 0 (le_value (take 8 s.bytes)) (record s { bytes = drop 8 s.bytes }),
  )
