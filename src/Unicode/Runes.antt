-- ===== src/Unicode/Runes.antt =====
-- One rune at a time.
use et_go.Prelude.{ℕ, suc, ◌≤◌, ◌<◌, ◌≡◌, ◌⊎◌, [], ◌∷◌, ◌++◌, true, false, Bytes, length, arith}
use et_go.Unicode.{
  utf8_rune, lead, Lead, ascii, invalid, two, three, four, decode_lead, full_lead, decode_rune,
  full_rune,
}

-- A Unicode scalar value.
abbrev pub IsScalar : ℕ → Type 0
IsScalar r = (r < 55296) ⊎ ((57344 ≤ r) × (r ≤ 1114111))

full_lead-short : (l : Lead) (rest : Bytes) → full_lead l rest ≡ false → suc (length rest) ≤ 3
unfolding full_lead
full_lead-short ascii rest h = absurd (ground (arith, h))
full_lead-short invalid rest h = absurd (ground (arith, h))
full_lead-short two [] h = omega arith
full_lead-short two (c ∷ rest) h = absurd (ground (arith, h))
full_lead-short (three lo hi) [] h = omega arith
full_lead-short (three lo hi) (c ∷ []) h = omega arith
full_lead-short (three lo hi) (c ∷ (d ∷ rest)) h = absurd (ground (arith, h))
full_lead-short (four lo hi) [] h = omega arith
full_lead-short (four lo hi) (c ∷ []) h = omega arith
full_lead-short (four lo hi) (c ∷ (d ∷ [])) h = omega arith
full_lead-short (four lo hi) (c ∷ (d ∷ (e ∷ rest))) h = absurd (ground (arith, h))

-- A sequence that may still be completed has at most three bytes.
pub full_rune-short : (p : Bytes) → full_rune p ≡ false → length p ≤ 3
unfolding full_rune
full_rune-short [] h = omega arith
full_rune-short (b ∷ rest) h = full_lead-short (lead b) rest h

abbrev SettledLead : Lead → ℕ → Bytes → Bytes → Type 0
SettledLead l b rest q =
    (full_lead l (rest ++ q) ≡ true)
    × (decode_lead l b (rest ++ q) ≡ decode_lead l b rest)
    × (0 < (decode_lead l b rest).1)
    × ((decode_lead l b rest).1 ≤ suc (length rest))

full_lead-Settled :
    (l : Lead) (b : ℕ) (rest q : Bytes) → full_lead l rest ≡ true → SettledLead l b rest q
unfolding full_lead decode_lead
full_lead-Settled ascii b rest q h = ground arith
full_lead-Settled invalid b rest q h = ground arith
full_lead-Settled two b [] q h = absurd (ground (arith, h))
full_lead-Settled two b (c ∷ rest) q h = ground arith
full_lead-Settled (three lo hi) b [] q h = absurd (ground (arith, h))
full_lead-Settled (three lo hi) b (c ∷ []) [] h = ground (arith, h)
full_lead-Settled (three lo hi) b (c ∷ []) (d ∷ q) h = ground (arith, h)
full_lead-Settled (three lo hi) b (c ∷ (d ∷ rest)) q h = ground arith
full_lead-Settled (four lo hi) b [] q h = absurd (ground (arith, h))
full_lead-Settled (four lo hi) b (c ∷ []) [] h = ground (arith, h)
full_lead-Settled (four lo hi) b (c ∷ []) (d ∷ []) h = ground (arith, h)
full_lead-Settled (four lo hi) b (c ∷ []) (d ∷ (e ∷ q)) h = ground (arith, h)
full_lead-Settled (four lo hi) b (c ∷ (d ∷ [])) [] h = ground (arith, h)
full_lead-Settled (four lo hi) b (c ∷ (d ∷ [])) (e ∷ q) h = ground (arith, h)
full_lead-Settled (four lo hi) b (c ∷ (d ∷ (e ∷ rest))) q h = ground arith

-- What is full decodes to at least one of its bytes, and the same whatever follows it.
abbrev pub Settled : Bytes → Bytes → Type 0
Settled p q =
    (full_rune (p ++ q) ≡ true)
    × (decode_rune (p ++ q) ≡ decode_rune p)
    × (0 < (decode_rune p).1)
    × ((decode_rune p).1 ≤ length p)

pub full_rune-Settled : (p q : Bytes) → full_rune p ≡ true → Settled p q
unfolding full_rune decode_rune
full_rune-Settled [] q h = absurd (ground (arith, h))
full_rune-Settled (b ∷ rest) q h = full_lead-Settled (lead b) b rest q h

-- A scalar value's UTF-8 decodes to it, whatever follows.
pub decode_rune-utf8_rune :
    (r : ℕ) (rest : Bytes)
    → IsScalar r
    → (full_rune (utf8_rune r ++ rest) ≡ true)
      × (decode_rune (utf8_rune r ++ rest) ≡ (r, length (utf8_rune r)))
unfolding utf8_rune full_rune decode_rune lead decode_lead full_lead
decode_rune-utf8_rune r rest h = ground (arith, h)
