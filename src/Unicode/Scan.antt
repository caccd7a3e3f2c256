-- ===== src/Unicode/Scan.antt =====
-- A whole input cut into runes, up to a sequence that more bytes could still complete.
use et_go.Prelude.{
  ℕ, zero, suc, ◌≤◌, ◌<◌, ◌≡◌, refl, ◌∙◌, inl, inr, List, [], ◌∷◌, ◌++◌, true, false, Bytes, length,
  drop, All, arith, if◌then◌else◌, Bool-cases, length-drop, drop-append_le, drop-append,
}
use et_go.Unicode.{decode_rune, full_rune, utf8_rune, utf8_runes}
use et_go.Unicode.Runes.{full_rune-Settled, IsScalar, decode_rune-utf8_rune}

-- The runes of the first `n` sequences, and the bytes behind them.
abbrev pub scan_for : ℕ → Bytes → List ℕ × Bytes
scan_for zero p = ([], p)
scan_for (suc n) p =
    let (r, size) = decode_rune p in
    let rest = scan_for n (drop size p) in if full_rune p then (r ∷ rest.0, rest.1) else ([], p)

-- One sequence for each byte is enough.
pub scan : Bytes → List ℕ × Bytes
scan p = scan_for (length p) p

-- A step of the scan takes at least a byte.
pub drop_shorter : (p : Bytes) → full_rune p ≡ true → length (drop (decode_rune p).1 p) < length p
drop_shorter p h = omega (
  arith,
  length-drop (decode_rune p).1 p,
  (full_rune-Settled p [] h).2,
  (full_rune-Settled p [] h).3,
)

empty_not_full : full_rune [] ≡ false
unfolding full_rune
empty_not_full = refl

scan_for_same : (m n : ℕ) (p : Bytes) → length p ≤ m → length p ≤ n → scan_for m p ≡ scan_for n p
scan_for_same zero zero p a b = refl
scan_for_same zero (suc n) [] a b = rw empty_not_full refl
scan_for_same zero (suc n) (x ∷ p) a b = absurd (omega arith)
scan_for_same (suc m) zero [] a b = rw empty_not_full refl
scan_for_same (suc m) zero (x ∷ p) a b = absurd (omega arith)
scan_for_same (suc m) (suc n) p a b = elim (Bool-cases (full_rune p)) [
  | inr e ↦ rw e refl
  | inl e ↦
      let less = drop_shorter p e in
      let rest = drop (decode_rune p).1 p in
      let same = scan_for_same m n rest (omega (arith, less, a)) (omega (arith, less, b)) in
      rw same refl
]

pub scan_for_enough : (n : ℕ) (p : Bytes) → length p ≤ n → scan_for n p ≡ scan p
unfolding scan
scan_for_enough n p h = scan_for_same n (length p) p h (omega arith)

pub scan-go :
    (p : Bytes)
    → full_rune p ≡ true
    → let rest = scan (drop (decode_rune p).1 p) in scan p ≡ ((decode_rune p).0 ∷ rest.0, rest.1)
scan-go [] h = absurd (ground (arith, h, empty_not_full))
scan-go (b ∷ p) h =
    let less = drop_shorter (b ∷ p) h in
    let there =
      scan_for_enough (length p) (drop (decode_rune (b ∷ p)).1 (b ∷ p)) (omega (arith, less)) in
    unfold scan in ground (arith, h, there)

pub scan-stop : (p : Bytes) → full_rune p ≡ false → scan p ≡ ([], p)
unfolding scan
scan-stop [] h = refl
scan-stop (b ∷ p) h = rw h refl

-- What follows an input is scanned behind the bytes that were left of it.
scan-append_within :
    (n : ℕ) (p q : Bytes)
    → length p ≤ n
    → let a = scan p in let b = scan (a.1 ++ q) in scan (p ++ q) ≡ (a.0 ++ b.0, b.1)
scan-append_within zero [] q h = rw (scan-stop [] empty_not_full) refl
scan-append_within zero (b ∷ p) q h = absurd (omega arith)
scan-append_within (suc n) p q h = elim (Bool-cases (full_rune p)) [
  | inr e ↦ rw (scan-stop p e) refl
  | inl e ↦
      let size = (decode_rune p).1 in
      let settled = full_rune-Settled p q e in
      let less = drop_shorter p e in
      ground (
        arith,
        settled,
        scan-go p e,
        scan-go (p ++ q) settled.0,
        drop-append_le size p q settled.3,
        scan-append_within n (drop size p) q (omega (arith, less, h)),
      )
]

pub scan-append :
    (p q : Bytes) → let a = scan p in let b = scan (a.1 ++ q) in scan (p ++ q) ≡ (a.0 ++ b.0, b.1)
scan-append p q = scan-append_within (length p) p q (omega arith)

-- What a scan leaves may still be completed.
scan-held_within : (n : ℕ) (p : Bytes) → length p ≤ n → full_rune (scan p).1 ≡ false
scan-held_within zero [] h = rw (scan-stop [] empty_not_full) empty_not_full
scan-held_within zero (b ∷ p) h = absurd (omega arith)
scan-held_within (suc n) p h = elim (Bool-cases (full_rune p)) [
  | inr e ↦ rw (scan-stop p e) e
  | inl e ↦
      rw (scan-go p e)
        (scan-held_within n (drop (decode_rune p).1 p) (omega (arith, drop_shorter p e, h)))
]

pub scan-held : (p : Bytes) → full_rune (scan p).1 ≡ false
scan-held p = scan-held_within (length p) p (omega arith)

-- The UTF-8 of scalar values scans to them, with nothing left.
pub scan-utf8_runes : (rs : List ℕ) → All IsScalar rs → scan (utf8_runes rs) ≡ (rs, [])
scan-utf8_runes [] h = scan-stop [] empty_not_full
scan-utf8_runes (r ∷ rs) (h, hs) =
    let (full, decoded) = decode_rune-utf8_rune r (utf8_runes rs) h in
    let behind : drop (decode_rune (utf8_runes (r ∷ rs))).1 (utf8_runes (r ∷ rs)) ≡ utf8_runes rs =
      rw decoded (drop-append (utf8_rune r) (utf8_runes rs)) in
    scan-go (utf8_runes (r ∷ rs)) full ∙ rw (behind, decoded, scan-utf8_runes rs hs) refl
