-- ===== src/Etcp/Writer/Settle.antt =====
-- What reaches the socket, and the state behind a batch that was written.
use et_go.Prelude.{
  ℕ, zero, suc, ◌+◌, ◌-◌, ◌≤◌, ◌<◌, ◌≡◌, ◌||◌, refl, ap, ◌∙◌, List, [], ◌++◌, false, Option, none,
  some, Bytes, total, length, take, drop, ltb, ℤ, arith, append_assoc, append-nil, Bool-cases,
  Option-cases, inl, inr, take_add, take_all, take-length-take, sym, ltb→le, ltb→lt, length-take,
  length-drop, total-append, drop-drop, take-append-drop,
}
use et_go.Wire.Stream.{IoErr, check_count}
use et_go.Etcp.Conn.{Conn, release}
use et_go.Etcp.Conn.Invariant.{IsConn, release-IsConn, signalled}
use et_go.Etcp.Writer.{Sent, send_pieces, progress_chunk, probe_behind, settle}

-- The piece at `written`, and the bytes up to its end.
piece_end :
    (n written : ℕ) (buf : Bytes)
    → take written buf ++ take n (drop written buf)
      ≡ take (written + length (take n (drop written buf))) buf
piece_end n written buf =
    ap (λ p. take written buf ++ p) (sym (take-length-take n (drop written buf)))
    ∙ take_add written (length (take n (drop written buf))) buf

-- The bytes behind a piece that went out in part.
cut_front :
    (written n k : ℕ) (buf out : Bytes)
    → out ≡ take written buf
    → let piece = take n (drop written buf) in
      (out ++ take k piece) ++ (drop k piece ++ drop n (drop written buf)) ≡ buf
cut_front written n k buf out e =
    let piece = take n (drop written buf) in
    let behind = drop n (drop written buf) in
    ground (
      arith,
      append_assoc out (take k piece) (drop k piece ++ behind),
      append_assoc (take k piece) (drop k piece) behind,
      take-append-drop k piece,
      take-append-drop n (drop written buf),
      take-append-drop written buf,
    )

module _ (socket : ℕ → Bytes → ℕ × Option IoErr) (seen : ℕ → ℤ) (end : ℕ)
    (probe_at : Option ℕ) where
  -- What is on the wire is a front of the batch, and all of it where no Write failed.
  abbrev pub IsFront : Bytes → Sent → Type 0
  IsFront buf r = (rest : Bytes) × (r.on_wire ++ rest ≡ buf) × (r.failed ≡ none → rest ≡ [])

  send_pieces-go :
      (rounds : ℕ) (buf : Bytes) (written : ℕ) (s : Sent)
      → written < length buf
      → let piece = take progress_chunk (drop written buf) in
        let written' = written + length piece in
        check_count (length piece) (socket written piece) ≡ none
        → send_pieces socket seen end probe_at (suc rounds) buf written s
          ≡ send_pieces socket seen end probe_at rounds buf written' (record s {
            alive = s.alive || probe_behind (seen written') end probe_at written';
            on_wire = s.on_wire ++ piece;
          })
  unfolding send_pieces
  send_pieces-go rounds buf written s h e = ground (arith, e)

  send_pieces-stop :
      (rounds : ℕ) (buf : Bytes) (written : ℕ) (s : Sent) (x : IoErr)
      → written < length buf
      → let piece = take progress_chunk (drop written buf) in
        check_count (length piece) (socket written piece) ≡ some x
        → send_pieces socket seen end probe_at (suc rounds) buf written s
          ≡ record s { failed = some x; on_wire = s.on_wire ++ take (socket written piece).0 piece }
  unfolding send_pieces
  send_pieces-stop rounds buf written s x h e = ground (arith, e)

  send_pieces-IsFront :
      (rounds : ℕ) (buf : Bytes) (written : ℕ) (s : Sent)
      → length buf < rounds + written
      → s.on_wire ≡ take written buf
      → s.failed ≡ none
      → IsFront buf (send_pieces socket seen end probe_at rounds buf written s)
  send_pieces-IsFront zero buf written s h e f =
      unfold send_pieces in
      ([], ground (arith, e, append-nil s.on_wire, take_all written buf (omega arith)), λ _. refl)
  send_pieces-IsFront (suc rounds) buf written s h e f =
      elim (Bool-cases (ltb written (length buf))) [
        | inr done ↦
            unfold send_pieces in
            rw done (
              [],
              ground (arith, e, append-nil s.on_wire, take_all written buf (ltb→le _ _ done)),
              λ _. refl,
            )
        | inl more ↦
            let piece = take progress_chunk (drop written buf) in
            let answer = socket written piece in
            elim (Option-cases (check_count (length piece) answer)) [
              | inl good ↦ rw (send_pieces-go rounds buf written s (ltb→lt _ _ more) good) (
                  send_pieces-IsFront rounds buf (written + length piece) _
                    (omega (
                      arith,
                      ltb→lt _ _ more,
                      length-take progress_chunk (drop written buf),
                      length-drop written buf,
                    ))
                    (rw e (piece_end progress_chunk written buf)) f)
              | inr (x, bad) ↦ rw (send_pieces-stop rounds buf written s x (ltb→lt _ _ more) bad) (
                drop answer.0 piece ++ drop progress_chunk (drop written buf),
                cut_front written progress_chunk answer.0 buf s.on_wire e,
                λ n. absurd (ground arith),
              )
            ]
      ]

  -- The loop over pieces puts the batch on the wire in order, each byte once: a front of it when a
  -- Write fails or falls short, and the whole batch when it ends without an error.
  pub send_pieces-wire :
      (buf : Bytes)
      → IsFront buf (
          send_pieces socket seen end probe_at
            (suc (length buf))
            buf
            0
            (record { failed = none; alive = false; on_wire = [] }))
  send_pieces-wire buf = send_pieces-IsFront (suc (length buf)) buf 0 _ (omega arith) refl refl

-- From a state in step with the history, settling a batch of the next `sent` packets, whose size is
-- theirs, takes them off the backlog and leaves the state in step.
pub settle-IsConn :
    {start : Bytes} {h : List Bytes} (sent size : ℕ) (c : Conn)
    → IsConn start h c
    → c.flushed + sent ≤ length h
    → size ≡ total (take sent (drop c.flushed h))
    → IsConn start h (settle sent size c)
unfolding settle
settle-IsConn {start} {h} sent size c i fits e =
    let c₁ : Conn = record c { flushed = c.flushed + sent; unsent = c.unsent - size } in
    let backlog : c.unsent - size ≡ total (drop (c.flushed + sent) h) = ground (
      arith,
      i.backlog,
      e,
      take-append-drop sent (drop c.flushed h),
      total-append (take sent (drop c.flushed h)) (drop sent (drop c.flushed h)),
      drop-drop sent c.flushed h,
    ) in
    let from_first : c.ring.first ≤ c.flushed + sent = omega (arith, i.from_first) in
    signalled (release c₁).0 (release c₁).0.wake _
      (release-IsConn c₁ i.window from_first fits backlog i.counted i.probed)

pub settle-flushed : (sent size : ℕ) (c : Conn) → (settle sent size c).flushed ≡ c.flushed + sent
unfolding settle release
settle-flushed sent size c = refl

pub settle-unsent : (sent size : ℕ) (c : Conn) → (settle sent size c).unsent ≡ c.unsent - size
unfolding settle release
settle-unsent sent size c = refl
