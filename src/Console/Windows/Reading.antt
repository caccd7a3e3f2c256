-- ===== src/Console/Windows/Reading.antt =====
-- What Read gives.
use et_go.Prelude.{
  ℕ, zero, suc, ◌+◌, ◌≤◌, ◌<◌, ◌≡◌, ◌⊎◌, inl, inr, refl, sym, ap, ◌∙◌, min, List, [], ◌∷◌, ◌++◌,
  Bool, true, false, Option, none, some, Bytes, length, take, drop, ltb, ltb→lt, ◌==◌, arith,
  Bool-cases, ==_iff, append-nil, length-take, length-drop, take-append-drop, drop-drop, drop_all,
  drop-nil, ltb→le,
}
use et_go.Console.Utf16.{decode_units}
use et_go.Console.Utf16.Decoding.{decode_units-append}
use et_go.Console.Windows.{
  Reader, ConsoleRead, got, Returned, advance, give, decoded, after_read, read,
}

-- The bytes that are decoded and not given yet.
abbrev pub unread : Reader → Bytes
unread s = drop s.pending_off s.pending

-- What is pending has a part that is not given, or is reset.
abbrev pub IsReader : Reader → Type 0
IsReader s = ((s.pending ≡ []) × (s.pending_off ≡ 0)) ⊎ (s.pending_off < length s.pending)

abbrev pub units_of : List ConsoleRead → List ℕ
units_of [] = []
units_of (r ∷ rs) = r.units ++ units_of rs

-- A Read that gave `b`: with what it has made of console reads, it gives the decoded input in order.
abbrev pub Gives : ℕ → Reader → Bytes → List ConsoleRead → Returned → Type 0
Gives most s b rs r =
    (made : List ConsoleRead) × (rs ≡ made ++ r.later)
    × (unread s ++ (decode_units s.high (units_of made)).0 ≡ b ++ unread r.reader)
    × (r.reader.high ≡ (decode_units s.high (units_of made)).1)
    × IsReader r.reader
    × (length b ≤ most)
    × ((most ≡ 0) ⊎ (0 < length b))

ne_lt : (a b : ℕ) → (a == b) ≡ false → a ≤ b → a < b
ne_lt a b e h = grind (arith, e, h)

advance-unread :
    (n : ℕ) (s : Reader)
    → n ≤ length (unread s)
    → s.pending_off < length s.pending
    → (unread (advance n s) ≡ drop n (unread s))
      × ((advance n s).high ≡ s.high)
      × IsReader (advance n s)
advance-unread n s h some_left = elim (Bool-cases ((s.pending_off + n) == length s.pending)) [
  | inl e ↦
      let full : n ≡ length (unread s) = omega (
        arith,
        (==_iff (s.pending_off + n) (length s.pending)).0 e,
        length-drop s.pending_off s.pending,
      ) in
      rw e (sym (drop_all n (unread s) (omega (arith, full))), refl, inl (refl, refl))
  | inr e ↦ rw e (
    sym (drop-drop n s.pending_off s.pending),
    refl,
    inr (
        ne_lt (s.pending_off + n) (length s.pending) e
          (omega (arith, h, some_left, length-drop s.pending_off s.pending))),
  )
]

no_length : (b : Bytes) → length b ≡ 0 → b ≡ []
no_length [] h = refl
no_length (c ∷ b) h = absurd (omega (arith, h))

has_unread :
    (s : Reader) → IsReader s → ltb 0 (length s.pending) ≡ true → s.pending_off < length s.pending
has_unread s (inl (none_left, reset)) h = absurd (grind (arith, h, none_left))
has_unread s (inr some_left) h = some_left

give-Gives :
    (k : ℕ) (rs : List ConsoleRead) (s : Reader) (b : Bytes)
    → s.pending_off < length s.pending
    → (give (suc k) rs s).result ≡ got b
    → Gives (suc k) s b rs (give (suc k) rs s)
unfolding decode_units
give-Gives k rs s b h e =
    let n = min (suc k) (length (unread s)) in
    let front : b ≡ take n (unread s) = ground (arith, e) in
    let (next, high, inv) = advance-unread n s (omega arith) h in
    let size : length b ≡ n = ap length front ∙ length-take n (unread s) ∙ omega arith in
    (
      [],
      refl,
      rw (front, next) (append-nil (unread s) ∙ sym (take-append-drop n (unread s))),
      high,
      inv,
      omega (arith, size),
      inr (omega (arith, size, h, length-drop s.pending_off s.pending)),
    )

nothing_pending :
    (s : Reader)
    → IsReader s
    → ltb 0 (length s.pending) ≡ false
    → (s.pending ≡ []) × (s.pending_off ≡ 0)
nothing_pending s (inl nothing) h = nothing
nothing_pending s (inr some_left) h = absurd (omega (arith, some_left, ltb→le _ _ h))

decoded-IsReader : (units : List ℕ) (s : Reader) → s.pending_off ≡ 0 → IsReader (decoded units s)
decoded-IsReader units s h = elim (Bool-cases (ltb 0 (length (decoded units s).pending))) [
  | inl e ↦ inr (omega (arith, h, ltb→lt _ _ e))
  | inr e ↦ inl (no_length _ (omega (arith, ltb→le _ _ e)), h)
]

-- Behind a console read that is decoded.
more-Gives :
    (k : ℕ) (units : List ℕ) (failed : Option ℕ) (closing closing_next : Bool)
    (rs : List ConsoleRead) (s : Reader) (b : Bytes) (rest : Returned)
    → s.pending ≡ []
    → s.pending_off ≡ 0
    → (after_read closing failed s rs rest).result ≡ got b
    → (rest.result ≡ got b → Gives k (decoded units s) b rs rest)
    → Gives k s b
        (record { units = units; failed = failed; closing = closing; closing_next = closing_next }
          ∷ rs)
        (after_read closing failed s rs rest)
unfolding after_read
more-Gives k units failed true next rs s b rest empty reset e g = absurd (ground (arith, e))
more-Gives k units (some x) false next rs s b rest empty reset e g = absurd (ground (arith, e))
more-Gives k units none false next rs s b rest empty reset e g =
    let (made, front, gives, high, inv, most, some_b) = g e in
    let whole = decode_units-append units (units_of made) s.high in
    let start : unread s ≡ [] = rw (empty, drop-nil s.pending_off) refl in
    let pending : unread (decoded units s) ≡ (decode_units s.high units).0 = rw reset refl in
    (
      record { units = units; failed = none; closing = false; closing_next = next } ∷ made,
      ground (arith, front),
      ground (arith, start, whole, pending, gives),
      ground (arith, whole, high),
      inv,
      most,
      some_b,
    )

-- A Read that gives bytes gives, in order, what the console has given: with the console reads that it
-- made, what was pending and what is decoded are the bytes given and what is pending behind them. It
-- gives at most what there is room for, and some byte unless there is no room.
pub read-Gives :
    (most : ℕ) (closing : Bool) (rs : List ConsoleRead) (s : Reader) (b : Bytes)
    → IsReader s
    → (read most closing rs s).result ≡ got b
    → Gives most s b rs (read most closing rs s)
unfolding read after_read
read-Gives most true rs s b inv e = absurd (ground (arith, e))
read-Gives zero false rs s b inv e =
    let nothing : b ≡ [] = ground (arith, e) in
    (
      [],
      refl,
      unfold decode_units in rw nothing (append-nil (unread s)),
      unfold decode_units in refl,
      inv,
      rw nothing (omega arith),
      inl refl,
    )
read-Gives (suc k) false [] s b inv e = elim (Bool-cases (ltb 0 (length s.pending))) [
  | inl some_left ↦
      rw some_left (give-Gives k [] s b (has_unread s inv some_left) (ground (arith, e, some_left)))
  | inr no_left ↦ absurd (ground (arith, e, no_left))
]
read-Gives (suc k) false (r ∷ rs) s b inv e = elim (Bool-cases (ltb 0 (length s.pending))) [
  | inl some_left ↦
      rw some_left
        (give-Gives k (r ∷ rs) s b (has_unread s inv some_left) (ground (arith, e, some_left)))
  | inr no_left ↦
      let (empty, reset) = nothing_pending s inv no_left in
      rw no_left (
        more-Gives (suc k) r.units r.failed r.closing r.closing_next rs s b _ empty reset
          (ground (arith, e, no_left))
          (λ h.
            read-Gives (suc k) r.closing_next rs (decoded r.units s) b
              (decoded-IsReader r.units s reset) h))
]
