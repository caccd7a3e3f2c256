-- ===== src/Etcp/IdleConn/Fresh.antt =====
-- What Write sends, and the deadlines around it.
use et_go.Prelude.{
  ℕ, zero, suc, ◌+◌, ◌≤◌, ◌<◌, ◌≡◌, ◌⊎◌, inl, inr, refl, sym, ap, ◌∙◌, List, [], ◌∷◌, ◌++◌, Option,
  none, some, Bytes, length, take, drop, ltb, ltb→lt, ltb→le, arith, Bool-cases, Option-cases,
  append_assoc, append-nil, length-append, take-take, take-append-drop, length-take, length-drop,
}
use et_go.Etcp.IdleConn.{
  Effect, set_read_deadline, set_write_deadline, wrote, read_some, Written, idle_chunk,
  sent_effects, after_write, write_from, write,
}

-- The bytes on the wire.
abbrev pub wire_bytes : List Effect → Bytes
wire_bytes [] = []
wire_bytes (wrote b ∷ es) = b ++ wire_bytes es
wire_bytes (set_read_deadline ∷ es) = wire_bytes es
wire_bytes (set_write_deadline ∷ es) = wire_bytes es
wire_bytes (read_some n ∷ es) = wire_bytes es

-- Every Write has a fresh deadline before it, is within idleChunk, and, where it made progress, is
-- followed by a fresh deadline of the reader.
abbrev pub Fresh : List Effect → Type 0
Fresh [] = Unit
Fresh (set_write_deadline ∷ (wrote [] ∷ es)) = Fresh es
Fresh (set_write_deadline ∷ (wrote (c ∷ b) ∷ (set_read_deadline ∷ es))) =
    (length (c ∷ b) ≤ idle_chunk) × Fresh es
Fresh _ = ⊥

-- What io.Writer asks of a connection: no more than the piece, all of it where there is no error.
pub record IsWriter (conn : ℕ → Bytes → ℕ × Option ℕ) : Type 0 where
  pub within : (i : ℕ) (b : Bytes) → (conn i b).0 ≤ length b
  pub whole : (i : ℕ) (b : Bytes) → (conn i b).1 ≡ none → (conn i b).0 ≡ length b

-- A Write returned: its count is that of the bytes on the wire, which are a front of the input, all of it
-- exactly where there is no error.
pub record Sends (p : Bytes) (w : Written) : Type 0 where
  pub left : Bytes
  pub split : p ≡ wire_bytes w.effects ++ left
  pub counted : w.count ≡ length (wire_bytes w.effects)
  pub done : ((w.failed ≡ none) × (left ≡ [])) ⊎ ((e : ℕ) × (w.failed ≡ some e))
  pub fresh : Fresh w.effects

sent-wire :
    (m : ℕ) (piece : Bytes) (es : List Effect)
    → wire_bytes (sent_effects m piece ++ es) ≡ take m piece ++ wire_bytes es
sent-wire zero piece es = refl
sent-wire (suc m) piece es = refl

sent-Fresh :
    (m : ℕ) (piece : Bytes) (es : List Effect)
    → m ≤ length piece
    → length piece ≤ idle_chunk
    → Fresh es
    → Fresh (sent_effects m piece ++ es)
sent-Fresh zero piece es h most f = f
sent-Fresh (suc m) [] es h most f = absurd (omega (arith, h))
sent-Fresh (suc m) (c ∷ piece) es h most f = (omega (arith, most, length-take m piece), f)

no_bytes : (p : Bytes) → length p ≤ 0 → p ≡ []
no_bytes [] h = refl
no_bytes (c ∷ p) h = absurd (omega (arith, h))

wire_one : (m : ℕ) (piece : Bytes) → wire_bytes (sent_effects m piece) ≡ take m piece
wire_one zero piece = refl
wire_one (suc m) piece = append-nil (take (suc m) piece)

front_split :
    (m : ℕ) (p : Bytes)
    → m ≤ length (take idle_chunk p)
    → p ≡ take m (take idle_chunk p) ++ drop m p
front_split m p h =
    let small : m ≤ idle_chunk = omega (arith, h, length-take idle_chunk p) in
    sym (ap (λ x. x ++ drop m p) (take-take m idle_chunk p small) ∙ take-append-drop m p)

sent_alone-Fresh :
    (m : ℕ) (piece : Bytes)
    → m ≤ length piece
    → length piece ≤ idle_chunk
    → Fresh (sent_effects m piece)
sent_alone-Fresh zero piece h most = tt
sent_alone-Fresh (suc m) [] h most = absurd (omega (arith, h))
sent_alone-Fresh (suc m) (c ∷ piece) h most = (omega (arith, most, length-take m piece), tt)

module _ (deadline : ℕ → Option ℕ) (conn : ℕ → Bytes → ℕ × Option ℕ)
    (is_writer : IsWriter conn) where
  after_write-Sends :
      (i : ℕ) (p : Bytes) (answer : ℕ × Option ℕ) (rest : Written)
      → answer.0 ≤ length (take idle_chunk p)
      → (answer.1 ≡ none → Sends (drop answer.0 p) rest)
      → Sends p (after_write answer (take idle_chunk p) rest)
  unfolding after_write
  after_write-Sends i p (m, some e) rest within sends =
      let piece = take idle_chunk p in
      let bytes : wire_bytes (sent_effects m piece) ≡ take m piece = wire_one m piece in
      let most : length piece ≤ idle_chunk = omega (arith, length-take idle_chunk p) in
      record {
        left = drop m p;
        split = rw bytes (front_split m p within);
        counted = rw bytes (omega (arith, length-take m piece, within));
        done = inr (e, refl);
        fresh = sent_alone-Fresh m piece within most;
      }
  after_write-Sends i p (m, none) rest within sends =
      let piece = take idle_chunk p in
      let s = sends refl in
      let bytes = sent-wire m piece rest.effects in
      let most : length piece ≤ idle_chunk = omega (arith, length-take idle_chunk p) in
      record {
        left = s.left;
        split = rw bytes (
            front_split m p within
            ∙ (ap (λ x. take m piece ++ x) s.split
                ∙ sym (append_assoc (take m piece) (wire_bytes rest.effects) s.left)));
        counted = rw bytes (
            omega (
              arith,
              s.counted,
              within,
              length-take m piece,
              length-append (take m piece) (wire_bytes rest.effects),
            ));
        done = s.done;
        fresh = sent-Fresh m piece rest.effects within most s.fresh;
      }

  write_from-Sends :
      (fuel i : ℕ) (p : Bytes) → length p < fuel → Sends p (write_from deadline conn fuel i p)
  unfolding write_from
  write_from-Sends zero i p h = absurd (omega (arith, h))
  write_from-Sends (suc fuel) i p h = elim (Bool-cases (ltb 0 (length p))) [
    | inr nothing ↦ rw nothing (record {
      left = p;
      split = refl;
      counted = refl;
      done = inl (refl, no_bytes p (ltb→le _ _ nothing));
      fresh = tt;
    })
    | inl some_left ↦ elim (Option-cases (deadline i)) [
      | inr (e, d) ↦
          rw (some_left, d, write_from)
            (record { left = p; split = refl; counted = refl; done = inr (e, refl); fresh = tt })
      | inl d ↦
          let answer = conn i (take idle_chunk p) in
          let more : answer.1 ≡ none
              → Sends (drop answer.0 p) (write_from deadline conn fuel (i + 1) (drop answer.0 p)) =
            λ ok. write_from-Sends fuel (i + 1) (drop answer.0 p) (
              omega (
                arith,
                h,
                is_writer.whole i (take idle_chunk p) ok,
                ltb→lt _ _ some_left,
                length-take idle_chunk p,
                length-drop answer.0 p,
              )) in
          rw (some_left, d, write_from)
            (after_write-Sends i p answer (write_from deadline conn fuel (i + 1) (drop answer.0 p))
              (is_writer.within i (take idle_chunk p)) more)
    ]
  ]

-- Over a connection that keeps io.Writer's contract a Write always returns. Its count is that of the
-- bytes that went out, a front of the input, and all of it exactly where it gives no error. Each of its
-- Writes is within idleChunk and has a fresh deadline, and each that made progress renews the reader's.
pub write-Sends :
    (deadline : ℕ → Option ℕ) (conn : ℕ → Bytes → ℕ × Option ℕ) (p : Bytes)
    → IsWriter conn
    → Sends p (write deadline conn p)
write-Sends deadline conn p w = write_from-Sends deadline conn w (length p + 1) 0 p (omega arith)
