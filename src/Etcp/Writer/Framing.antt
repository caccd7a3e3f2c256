-- ===== src/Etcp/Writer/Framing.antt =====
-- What a pass frames, and what of it reaches the socket.
use et_go.Prelude.{
  ℕ, suc, ◌+◌, ◌-◌, ◌≤◌, ◌<◌, ◌≡◌, ◌≢◌, ◌⊎◌, Bool-cases, inl, inr, refl, sym, ap, ◌∙◌, List, [],
  ◌∷◌, ◌++◌, Bool, false, ◌&&◌, Option, some, Bytes, All, total, length, take, ltb, if◌then◌else◌,
  ℤ, arith, append_assoc, append-nil, length-append,
}
use et_go.Wire.Stream.{max_frame_size}
use et_go.Wire.Frame.{be32}
use et_go.Wire.Frame.Laws.{append_frame-ok, length-be32}
use native.Mathlib.Decide.{dec_lt}
use et_go.Etcp.Writer.{Batch, no_entries, frame_batch, write_buf_size, is_probe}

-- The frames of some packets, one after the other.
abbrev pub frames : List Bytes → Bytes
frames [] = []
frames (f ∷ fs) = (be32 (length f) ++ f) ++ frames fs

-- What a batch that began as `b` has become, at its end, with `fs` to come.
record Framed (fs : List Bytes) (b : Batch) (r : Batch) : Type 0 where
  more : b.sent ≤ r.sent
  within : r.sent ≤ b.sent + length fs
  bytes : r.buf ≡ b.buf ++ frames (take (r.sent - b.sent) fs)
  sized : r.size ≡ b.size + total (take (r.sent - b.sent) fs)
  sound : r.corrupt ≡ b.corrupt
  some_progress : fs ≡ [] ⊎ (0 < r.sent)
  fits : (b.sent ≡ r.sent) ⊎ ((length r.buf ≤ write_buf_size) ⊎ (r.sent ≡ 1))

pub length-frame : (f : Bytes) → length (be32 (length f) ++ f) ≡ 4 + length f
length-frame f = omega (arith, length-append {0} (be32 (length f)) f, length-be32 (length f))

Framed-stop : (fs : List Bytes) (b : Batch) → fs ≡ [] ⊎ (0 < b.sent) → Framed fs b b
Framed-stop fs b h =
    let e : b.sent - b.sent ≡ 0 = omega arith in
    record {
      more = omega arith;
      within = omega arith;
      bytes = rw (e, append-nil);
      sized = rw e (omega arith);
      sound = refl;
      some_progress = h;
      fits = inl refl;
    }

-- One more entry in front of what the rest of the loop does.
Framed-step :
    (f : Bytes) (fs : List Bytes) (b r : Batch) (at : Option ℕ)
    → (0 < b.sent → length b.buf + 4 + length f ≤ write_buf_size)
    → Framed fs
        (record b {
          sent = b.sent + 1;
          buf = b.buf ++ (be32 (length f) ++ f);
          size = b.size + length f;
          probe_at = at;
        })
        r
    → Framed (f ∷ fs) b r
Framed-step f fs b r at h w =
    let e : r.sent - b.sent ≡ suc (r.sent - (b.sent + 1)) = omega (arith, w.more) in
    let tail = frames (take (r.sent - (b.sent + 1)) fs) in
    record {
      more = omega (arith, w.more);
      within = omega (arith, w.within);
      bytes = rw e (w.bytes ∙ append_assoc b.buf (be32 (length f) ++ f) tail);
      sized = rw e (omega (arith, w.sized));
      sound = w.sound;
      some_progress = inr (omega (arith, w.more));
      fits = elim w.fits [
        | inr good ↦ inr good
        | inl same ↦
            let z : r.sent - (b.sent + 1) ≡ 0 = omega (arith, same) in
            let all : r.buf ≡ b.buf ++ (be32 (length f) ++ f) = w.bytes ∙ rw (z, append-nil) in
            elim (dec_lt 0 b.sent) [
              | yes later ↦ inr (
                  inl (
                    rw all (
                      omega (
                        arith,
                        h later,
                        length-frame f,
                        length-append {0} b.buf (be32 (length f) ++ f),
                      ))))
              | no first ↦ inr (inr (omega (arith, same)))
            ]
      ];
    }

abbrev is_full : Batch → Bytes → Bool
is_full b f = ltb 0 b.sent && ltb write_buf_size (length b.buf + 4 + length f)

-- The batch with one more entry.
abbrev with_entry : ℕ → ℤ → Bytes → Batch → Batch
with_entry base probe f b = record b {
  sent = b.sent + 1;
  buf = b.buf ++ (be32 (length f) ++ f);
  size = b.size + length f;
  probe_at = if is_probe probe (base + b.sent) then some (length b.buf) else b.probe_at;
}

frame_batch-go :
    (base : ℕ) (probe : ℤ) (f : Bytes) (fs : List Bytes) (b : Batch)
    → length f ≤ max_frame_size
    → is_full b f ≡ false
    → frame_batch base probe (f ∷ fs) b ≡ frame_batch base probe fs (with_entry base probe f b)
unfolding frame_batch
frame_batch-go base probe f fs b small e = ground (arith, append_frame-ok b.buf f small)

frame_batch-Framed :
    (base : ℕ) (probe : ℤ) (fs : List Bytes) (b : Batch)
    → All (λ f. length f ≤ max_frame_size) fs
    → Framed fs b (frame_batch base probe fs b)
frame_batch-Framed base probe [] b h = unfold frame_batch in Framed-stop [] b (inl refl)
frame_batch-Framed base probe (f ∷ fs) b (small, rest) = elim (Bool-cases (is_full b f)) [
  | inl full ↦ unfold frame_batch in rw full (Framed-stop (f ∷ fs) b (inr (ground arith)))
  | inr go ↦
      let b' = with_entry base probe f b in
      rw (frame_batch-go base probe f fs b small go) (
        Framed-step f fs b (frame_batch base probe fs b') b'.probe_at (λ h. ground arith)
          (frame_batch-Framed base probe fs b' rest))
]

-- When each entry fits a frame, one pass frames a front of the entries it took, in order: at least one, if there is any, and no more
-- than fit writeBufSize together, unless it is a single one. Its size is that of those entries.
pub frame_batch-frames :
    (base : ℕ) (probe : ℤ) (fs : List Bytes)
    → All (λ f. length f ≤ max_frame_size) fs
    → let b = frame_batch base probe fs no_entries in
      (b.buf ≡ frames (take b.sent fs))
      × (b.size ≡ total (take b.sent fs))
      × (b.sent ≤ length fs)
      × (fs ≢ [] → 0 < b.sent)
      × ((length b.buf ≤ write_buf_size) ⊎ (b.sent ≡ 1))
      × (b.corrupt ≡ false)
frame_batch-frames base probe fs h =
    let w = frame_batch-Framed base probe fs no_entries h in
    let b = frame_batch base probe fs no_entries in
    let e : b.sent - 0 ≡ b.sent = omega arith in
    let sized : b.size ≡ 0 + total (take b.sent fs) = rw e at w.sized in
    (
      rw e at w.bytes,
      omega (arith, sized),
      omega (arith, w.within),
      λ some_entry. elim w.some_progress [ inl z ↦ absurd (some_entry z) | inr p ↦ p ],
      elim w.fits [
        | inl z ↦ inl (rw ((rw e at w.bytes) ∙ ap (λ n. frames (take n fs)) (sym z)) (omega arith))
        | inr p ↦ p
      ],
      w.sound,
    )
