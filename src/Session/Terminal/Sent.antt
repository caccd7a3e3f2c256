-- ===== src/Session/Terminal/Sent.antt =====
-- What the sender puts on the transport.
use et_go.Prelude.{
  ℕ, zero, suc, ◌+◌, ◌≤◌, ◌<◌, min, List, [], ◌∷◌, ◌++◌, ◌≡◌, ◌⊎◌, inl, inr, refl, sym, ap, true,
  false, Option, none, some, Bytes, arith, append_assoc, length-append, concat, length, take, drop,
  length-take, take-append-drop, Option-cases, Bool-cases,
}
use et_go.Protocol.{Packet, header_terminal_info, header_terminal_buffer}
use et_go.Session.Input.{PendingInput, take_input, Size, LatestSize, terminal_info}
use et_go.Session.Terminal.{
  Answer, accepted, refused, Sending, encode_failed, send_err, answered, write, send_pending,
  send_round, round_pending, max_input_packet,
}

-- Chunks of input and the packets that carry them.
abbrev pub Carries : (Bytes → Option Bytes) → List Bytes → List Packet → Type 0
Carries marshal [] [] = Unit
Carries marshal (b ∷ bs) (p ∷ ps) =
    (p.header ≡ header_terminal_buffer)
    × (marshal b ≡ some p.payload)
    × (0 < length b)
    × (length b ≤ max_input_packet)
    × Carries marshal bs ps
Carries marshal [] (p ∷ ps) = ⊥
Carries marshal (b ∷ bs) [] = ⊥

-- One chunk of the input.
abbrev pub IsChunk : Bytes → Type 0
IsChunk b = (0 < length b) × (length b ≤ max_input_packet)

-- How sending from the n-th write on ends: all is sent, or one chunk is lost as it was not encoded or as
-- its write, the first behind those of the packets sent, was refused.
abbrev pub Ends : (ℕ → Answer) → (Bytes → Option Bytes) → ℕ → Bytes → Sending → Type 0
Ends answer marshal n lost r =
    ((r.failed ≡ none) × (lost ≡ []) × (r.pending.buf ≡ []))
    ⊎ ((IsChunk lost × (marshal lost ≡ none) × (r.failed ≡ some encode_failed))
        ⊎ (IsChunk lost
            × ((q : Bytes) × (e : ℕ) × (over : Option ℕ) × (marshal lost ≡ some q)
                × (answer (n + length r.sent) ≡ refused e over)
                × (r.failed ≡ some (send_err e over)))))

-- The packets carry chunks of the input in order; with the chunk that was lost, if any, and what still
-- waits they are the whole input.
abbrev pub Delivers : (ℕ → Answer) → (Bytes → Option Bytes) → ℕ → Bytes → Sending → Type 0
Delivers answer marshal n buf r =
    (chunks : List Bytes) × (lost : Bytes) × Carries marshal chunks r.sent
    × (buf ≡ concat chunks ++ (lost ++ r.pending.buf))
    × Ends answer marshal n lost r

-- A round with a new window size: the size goes first, and nothing goes where it cannot be sent.
abbrev pub SizeFirst :
    (ℕ → Answer) → (Bytes → Option Bytes) → Option Bytes → ℕ → PendingInput → Sending → Type 0
SizeFirst answer marshal info n p r =
    ((q : Bytes) × (rest : Sending) × (info ≡ some q)
      × (answer n ≡ accepted)
      × (r.sent ≡ record { header = header_terminal_info; payload = q } ∷ rest.sent)
      × (r.failed ≡ rest.failed)
      × (r.pending ≡ rest.pending)
      × Delivers answer marshal (n + 1) p.buf rest)
    ⊎ ((r.sent ≡ [])
        × (r.pending ≡ p)
        × (((info ≡ none) × (r.failed ≡ some encode_failed))
            ⊎ ((e : ℕ) × (over : Option ℕ) × (answer n ≡ refused e over)
                × (r.failed ≡ some (send_err e over)))))

positive : (n : ℕ) → (n ≡ 0) ⊎ ((m : ℕ) × (n ≡ suc m))
positive zero = inl refl
positive (suc m) = inr (m, refl)

no_length : (b : Bytes) → length b ≡ 0 → b ≡ []
no_length [] h = refl
no_length (c ∷ b) h = absurd (omega (arith, h))

pub Answer-cases :
    (a : Answer) → (a ≡ accepted) ⊎ ((e : ℕ) × (over : Option ℕ) × (a ≡ refused e over))
Answer-cases accepted = inl refl
Answer-cases (refused e over) = inr (e, over, refl)

take_input-cases :
    (p : PendingInput)
    → ((take_input max_input_packet p ≡ (none, p)) × (p.buf ≡ []))
      ⊎ ((b : Bytes) × (p' : PendingInput) × (take_input max_input_packet p ≡ (some b, p'))
          × (p.buf ≡ b ++ p'.buf)
          × (0 < length b)
          × (length b ≤ max_input_packet))
unfolding take_input
take_input-cases p = elim (positive (min max_input_packet (length p.buf))) [
  | inl e ↦ inl (rw (e, take_input) refl, no_length p.buf (omega (arith, e)))
  | inr (m, e) ↦
      let front : length (take (suc m) p.buf) ≡ suc m =
        omega (arith, e, length-take (suc m) p.buf) in
      inr (
        take (suc m) p.buf,
        record p { buf = drop (suc m) p.buf; stalled = false; space = true },
        rw (e, take_input) refl,
        sym (take-append-drop (suc m) p.buf),
        omega (arith, front),
        omega (arith, front, e),
      )
]

module _ (answer : ℕ → Answer) (marshal : Bytes → Option Bytes) where
  -- The writes behind the first.
  behind :
      (n : ℕ) (lost : Bytes) (p : Packet) (rest : Sending)
      → Ends answer marshal (n + 1) lost rest
      → Ends answer marshal n lost (record rest { sent = p ∷ rest.sent })
  behind n lost p rest ends =
      let same : n + suc (length rest.sent) ≡ n + 1 + length rest.sent = omega arith in rw same ends

  send_pending-none :
      (fuel n : ℕ) (p p' : PendingInput)
      → take_input max_input_packet p ≡ (none, p')
      → send_pending answer marshal (suc fuel) n p
        ≡ record { sent = []; failed = none; pending = p' }
  unfolding send_pending
  send_pending-none fuel n p p' e = ground (arith, e)

  send_pending-some :
      (fuel n : ℕ) (p p' : PendingInput) (b : Bytes)
      → take_input max_input_packet p ≡ (some b, p')
      → send_pending answer marshal (suc fuel) n p
        ≡ write answer n header_terminal_buffer
            (marshal b)
            (send_pending answer marshal fuel (n + 1) p')
            p'
  unfolding send_pending
  send_pending-some fuel n p p' b e = ground (arith, e)

  -- A write of a chunk and what is delivered behind it.
  write-Delivers :
      (n : ℕ) (b buf : Bytes) (rest : Sending) (p : PendingInput)
      → buf ≡ b ++ p.buf
      → 0 < length b
      → length b ≤ max_input_packet
      → Delivers answer marshal (n + 1) p.buf rest
      → Delivers answer marshal n buf (write answer n header_terminal_buffer (marshal b) rest p)
  unfolding write answered
  write-Delivers n b buf rest p whole some_b most (chunks, lost, carries, split, ends) =
      elim (Option-cases (marshal b)) [
        | inl e ↦ rw (e, write) ([], b, tt, whole, inr (inl ((some_b, most), e, refl)))
        | inr (q, e) ↦ elim (Answer-cases (answer n)) [
          | inl a ↦
              rw (e, write, a)
                (
                  b ∷ chunks,
                  lost,
                  (refl, e, some_b, most, carries),
                  ground (
                    arith,
                    whole,
                    split,
                    append_assoc b (concat chunks) (lost ++ rest.pending.buf),
                  ),
                  behind n lost (record { header = header_terminal_buffer; payload = q }) rest ends,
                )
          | inr (x, over, a) ↦
              rw (e, write, a)
                (
                  [],
                  b,
                  tt,
                  whole,
                  inr (inr ((some_b, most), (q, x, over, e, ground (arith, a), refl))),
                )
        ]
      ]

  send_pending-Delivers :
      (fuel n : ℕ) (p : PendingInput)
      → length p.buf < fuel
      → Delivers answer marshal n p.buf (send_pending answer marshal fuel n p)
  send_pending-Delivers zero n p h = absurd (omega (arith, h))
  send_pending-Delivers (suc fuel) n p h = elim (take_input-cases p) [
    | inl (e, empty) ↦
        rw (send_pending-none fuel n p p e) ([], [], tt, refl, inl (refl, refl, empty))
    | inr (b, p', e, whole, some_b, most) ↦ rw (send_pending-some fuel n p p' b e) (
        write-Delivers n b p.buf (send_pending answer marshal fuel (n + 1) p') p' whole some_b most
          (send_pending-Delivers fuel (n + 1) p'
            (omega (arith, h, some_b, ap length whole, length-append b p'.buf))))
  ]

  write-SizeFirst :
      (n : ℕ) (info : Option Bytes) (rest : Sending) (p : PendingInput)
      → Delivers answer marshal (n + 1) p.buf rest
      → SizeFirst answer marshal info n p (write answer n header_terminal_info info rest p)
  unfolding write answered
  write-SizeFirst n none rest p d = inr (refl, refl, inl (refl, refl))
  write-SizeFirst n (some q) rest p d = elim (Answer-cases (answer n)) [
    | inl a ↦ rw (a, write) (inl (q, rest, refl, refl, refl, refl, refl, d))
    | inr (x, over, a) ↦ rw (a, write) (inr (refl, refl, inr (x, over, refl, refl)))
  ]

-- A round of the sender ends, whatever the transport answers. It takes the window size; where that was
-- new it goes first, as TERMINAL_INFO, and where that fails no input is taken. The TERMINAL_BUFFER packets
-- carry the pending input in order, none empty and none above MaxInputPacket. A round without an error
-- leaves nothing pending; one with an error that took input loses exactly one chunk, of at most
-- MaxInputPacket bytes, whose write or encoding failed, and keeps the rest.
pub send_round-Delivers :
    (answer : ℕ → Answer) (marshal : Bytes → Option Bytes) (marshal_info : Size → Option Bytes)
    (n : ℕ) (l : LatestSize) (p : PendingInput)
    → let r = send_round answer marshal marshal_info n l p in
      (r.1.dirty ≡ false)
      × (((l.dirty ≡ false) × Delivers answer marshal n p.buf r.0)
          ⊎ ((l.dirty ≡ true)
              × SizeFirst answer marshal (marshal_info (terminal_info l.sz)) n p r.0))
unfolding send_round round_pending
send_round-Delivers answer marshal marshal_info n l p = elim (Bool-cases l.dirty) [
  | inl e ↦ rw e (
    refl,
    inr (
      refl,
      write-SizeFirst answer marshal n (marshal_info (terminal_info l.sz)) _ p
          (send_pending-Delivers answer marshal (length p.buf + 1) (n + 1) p (omega arith)),
    ),
  )
  | inr e ↦
      rw e (
        refl,
        inl (refl, send_pending-Delivers answer marshal (length p.buf + 1) n p (omega arith)),
      )
]
