-- ===== src/Console/Utf16/Decoding.antt =====
-- The decoder over cut input, and against the encoder.
use et_go.Prelude.{
  ℕ, zero, suc, ◌-◌, ◌≤◌, ◌<◌, ◌≡◌, ◌≢◌, refl, inl, inr, List, [], ◌∷◌, ◌++◌, true, false, Option,
  none, some, Bytes, length, get_elem?, All, concat, arith, leb, Bool-cases, leb→le, leb→lt,
  append_assoc, append-nil,
}
use et_go.Unicode.{utf8_rune, utf8_runes, utf16_rune, utf16_runes, decode_pair}
use et_go.Unicode.Runes.{IsScalar}
use et_go.Unicode.Scan.{scan-utf8_runes}
use et_go.Console.Utf16.{decode_next, decode_units, chunk_len, splits_pair, is_pair}
use et_go.Console.Utf16.Encoding.{encode_all, encode_all-encoded}

-- A character whose units come in two console reads is decoded as if they had come in one.
pub decode_units-append :
    (us vs : List ℕ) (high : ℕ)
    → let a = decode_units high us in
      let b = decode_units a.1 vs in decode_units high (us ++ vs) ≡ (a.0 ++ b.0, b.1)
unfolding decode_units
decode_units-append [] vs high = refl
decode_units-append (u ∷ us) vs high = ground (
  arith,
  decode_units-append us vs (decode_next high u).1,
  append_assoc (decode_next high u).0 (decode_units (decode_next high u).1 us).0
      (decode_units (decode_units (decode_next high u).1 us).1 vs).0,
)

-- The reads of a console, one after the other.
abbrev pub decode_all : ℕ → List (List ℕ) → Bytes × ℕ
decode_all high [] = ([], high)
decode_all high (us ∷ reads) =
    let one = decode_units high us in let rest = decode_all one.1 reads in (one.0 ++ rest.0, rest.1)

decode_all-concat :
    (reads : List (List ℕ)) (high : ℕ) → decode_all high reads ≡ decode_units high (concat reads)
decode_all-concat [] high = unfold decode_units in refl
decode_all-concat (us ∷ reads) high = ground (
  arith,
  decode_units-append us (concat reads) high,
  decode_all-concat reads (decode_units high us).1,
)

decode_rune_units : (r : ℕ) → IsScalar r → decode_units 0 (utf16_rune r) ≡ (utf8_rune r, 0)
unfolding decode_units decode_next utf16_rune decode_pair
decode_rune_units r h = ground (arith, h, append-nil (utf8_rune r))

decode_units-runes :
    (rs : List ℕ) → All IsScalar rs → decode_units 0 (utf16_runes rs) ≡ (utf8_runes rs, 0)
decode_units-runes [] h = unfold decode_units in refl
decode_units-runes (r ∷ rs) (h, hs) = ground (
  arith,
  decode_units-append (utf16_rune r) (utf16_runes rs) 0,
  decode_rune_units r h,
  decode_units-runes rs hs,
)

-- Text in UTF-8 that goes through the encoder and comes back through the decoder is unchanged, however
-- it is cut into writes and its units into reads, and neither side holds anything back at its end.
pub decode_all-encode_all :
    (rs : List ℕ) (writes : List Bytes) (reads : List (List ℕ))
    → All IsScalar rs
    → concat writes ≡ utf8_runes rs
    → concat reads ≡ (encode_all [] writes).0
    → (decode_all 0 reads ≡ (concat writes, 0)) × ((encode_all [] writes).1 ≡ [])
decode_all-encode_all rs writes reads scalar text units = ground (
  arith,
  units,
  text,
  encode_all-encoded writes,
  scan-utf8_runes rs scalar,
  decode_all-concat reads 0,
  decode_units-runes rs scalar,
)

no_two_pairs : (x y z : Option ℕ) → is_pair y z ≡ true → is_pair x y ≡ false
no_two_pairs none y z h = refl
no_two_pairs (some a) none z h = refl
no_two_pairs (some a) (some b) none h = absurd (ground (arith, h))
no_two_pairs (some a) (some b) (some c) h = ground (arith, h)

past_end : (n : ℕ) (us : List ℕ) → length us ≤ n → get_elem? us n ≡ none
past_end n [] h = refl
past_end zero (u ∷ us) h = absurd (omega arith)
past_end (suc n) (u ∷ us) h = past_end n us (omega arith)

whole_pair : (x : Option ℕ) → is_pair x none ≡ false
whole_pair none = refl
whole_pair (some a) = refl

not_empty : (us : List ℕ) → us ≢ [] → 0 < length us
not_empty [] h = absurd (h refl)
not_empty (u ∷ us) h = omega arith

-- A chunk of the output is not empty, within the limit and within the units, and does not end between
-- the halves of a pair.
pub chunk_len-bounds :
    (units : List ℕ) (limit : ℕ)
    → 2 ≤ limit
    → units ≢ []
    → (n : ℕ) × (chunk_len units limit ≡ some n)
      × (0 < n)
      × (n ≤ limit)
      × (n ≤ length units)
      × (splits_pair units n ≡ false)
unfolding chunk_len
chunk_len-bounds units limit h ne = elim (Bool-cases (leb (length units) limit)) [
  | inl all ↦ (
    length units,
    ground (arith, all, h),
    not_empty units ne,
    leb→le _ _ all,
    omega arith,
    rw (past_end (length units) units (omega arith)) (whole_pair _),
  )
  | inr more ↦ elim (Bool-cases (splits_pair units limit)) [
    | inl pair ↦ (
      limit - 1,
      ground (arith, more, h, pair),
      omega (arith, h),
      omega arith,
      omega (arith, leb→lt _ _ more),
      no_two_pairs (get_elem? units (limit - 1 - 1)) (get_elem? units (limit - 1))
          (get_elem? units limit) pair,
    )
    | inr apart ↦ (
      limit,
      ground (arith, more, h, apart),
      omega (arith, h),
      omega arith,
      omega (arith, leb→lt _ _ more),
      apart,
    )
  ]
]
