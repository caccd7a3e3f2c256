-- ===== src/Console/Utf16/Encoding.antt =====
-- The encoder over cut input.
use et_go.Prelude.{
  ℕ, zero, suc, ◌+◌, ◌-◌, ◌≤◌, ◌<◌, ◌≡◌, refl, ap, sym, ◌∙◌, inl, inr, List, [], ◌∷◌, ◌++◌, true,
  false, Bytes, length, take, drop, arith, Bool-cases, append_assoc, append-nil, length-drop,
  length-take, length-append, drop-append_le, drop-append_ge, drop-drop, concat, take_all,
  take-append-drop, ltb, drop_all, ltb→lt, ltb→le,
}
use et_go.Unicode.{decode_rune, full_rune, utf16_rune, utf16_runes}
use et_go.Unicode.Runes.{full_rune-Settled, full_rune-short}
use et_go.Unicode.Scan.{scan, scan-go, scan-stop, scan-append, scan-held, drop_shorter}
use et_go.Console.Utf16.{
  encode_rest, encode_joined, encode_bytes, finish_encode, Joined, keeps_waiting, has_used,
  after_units,
}

-- What a whole input comes to: the units of its runes, and the bytes of a sequence that is not full.
abbrev pub encoded : Bytes → List ℕ × Bytes
encoded p = (utf16_runes (scan p).0, (scan p).1)

empty_not_full : full_rune [] ≡ false
unfolding full_rune
empty_not_full = refl

encode_rest-scan : (n : ℕ) (p : Bytes) → length p ≤ n → encode_rest n p ≡ encoded p
unfolding encode_rest
encode_rest-scan zero [] h = rw (scan-stop [] empty_not_full) refl
encode_rest-scan zero (b ∷ p) h = absurd (omega arith)
encode_rest-scan (suc n) [] h = rw (scan-stop [] empty_not_full) refl
encode_rest-scan (suc n) (b ∷ p) h = elim (Bool-cases (full_rune (b ∷ p))) [
  | inr e ↦ ground (arith, e, scan-stop (b ∷ p) e, take_all 4 (b ∷ p), full_rune-short (b ∷ p) e)
  | inl e ↦ ground (
    arith,
    e,
    scan-go (b ∷ p) e,
    encode_rest-scan n (drop (decode_rune (b ∷ p)).1 (b ∷ p))
        (omega (arith, drop_shorter (b ∷ p) e, h)),
  )
]

-- What the first loop leads to, with units before it.
finish-after_units :
    (n : ℕ) (p : Bytes) (us : List ℕ) (j : Joined)
    → let r = finish_encode n p j in finish_encode n p (after_units us j) ≡ (us ++ r.0, r.1)
unfolding finish_encode
finish-after_units n p us (keeps_waiting vs c) = refl
finish-after_units n p us (has_used vs used) =
    ground (arith, append_assoc us vs (encode_rest (length p) (drop (used - n) p)).0)

module _ (carry p : Bytes) where
  abbrev joined : Bytes
  joined = carry ++ take 4 p

  -- Before the end of the carry, what the loop looks at is a front of what is left.
  looks_at :
      (used : ℕ) → used < length carry → drop used (carry ++ p) ≡ drop used joined ++ drop 4 p
  looks_at used h =
      ap (drop used) (
        ap (λ x. carry ++ x) (sym (take-append-drop 4 p))
        ∙ sym (append_assoc carry (take 4 p) (drop 4 p)))
      ∙ drop-append_le used joined (drop 4 p) (omega (arith, h, length-append {0} carry (take 4 p)))

  -- The second loop, behind the carry.
  behind_carry :
      (used : ℕ)
      → length carry ≤ used
      → finish_encode (length carry) p (has_used [] used) ≡ encoded (drop used (carry ++ p))
  unfolding finish_encode
  behind_carry used h = rw (drop-append_ge used carry p h) (
      encode_rest-scan (length p) (drop (used - length carry) p)
        (omega (arith, length-drop (used - length carry) p)))

  -- A sequence that the loop cannot finish is all that is left.
  waits_for_more :
      (used : ℕ)
      → used < length carry
      → full_rune (drop used joined) ≡ false
      → ([], take 4 (drop used joined)) ≡ encoded (drop used (carry ++ p))
  waits_for_more used h e =
      let x = drop used joined in
      let short = full_rune-short x e in
      let none_behind : drop 4 p ≡ [] = drop_all 4 p (
        omega (
          arith,
          h,
          short,
          length-drop used joined,
          length-append {0} carry (take 4 p),
          length-take 4 p,
        )) in
      let all : drop used (carry ++ p) ≡ x = looks_at used h ∙ rw none_behind (append-nil x) in
      rw (all, take_all 4 x (omega (arith, short)), scan-stop x e) refl

  encode_joined-go :
      (rounds used : ℕ)
      → ltb used (length carry) ≡ true
      → full_rune (drop used joined) ≡ true
      → let (r, size) = decode_rune (drop used joined) in
        encode_joined (suc rounds) (length carry) joined used
        ≡ after_units (utf16_rune r) (encode_joined rounds (length carry) joined (used + size))
  unfolding encode_joined
  encode_joined-go rounds used h e = ground (arith, h, e)

  encode_joined-scan :
      (rounds used : ℕ)
      → length carry ≤ rounds + used
      → finish_encode (length carry) p (encode_joined rounds (length carry) joined used)
        ≡ encoded (drop used (carry ++ p))
  encode_joined-scan zero used h = unfold encode_joined in behind_carry used (omega (arith, h))
  encode_joined-scan (suc rounds) used h = elim (Bool-cases (ltb used (length carry))) [
    | inr past ↦
        unfold encode_joined in rw past (behind_carry used (ltb→le used (length carry) past))
    | inl inside ↦
        let x = drop used joined in
        let at = looks_at used (ltb→lt used (length carry) inside) in
        elim (Bool-cases (full_rune x)) [
          | inr e ↦
              unfold encode_joined finish_encode in
              rw (inside, e) (waits_for_more used (ltb→lt used (length carry) inside) e)
          | inl e ↦
              let size = (decode_rune x).1 in
              let settled = full_rune-Settled x (drop 4 p) e in
              let more = encode_joined-scan rounds (used + size) (omega (arith, h, settled.2)) in
              let full : full_rune (drop used (carry ++ p)) ≡ true = rw at settled.0 in
              let same : decode_rune (drop used (carry ++ p)) ≡ decode_rune x = rw at settled.1 in
              let rest = drop-drop size used (carry ++ p) in
              let go = scan-go (drop used (carry ++ p)) full in
              let step = encode_joined-go rounds used inside e in
              ap (finish_encode (length carry) p) step
              ∙ finish-after_units (length carry) p (utf16_rune (decode_rune x).0)
                  (encode_joined rounds (length carry) joined (used + size))
              ∙ ground (arith, more, go, same, rest)
        ]
  ]

-- One call, with the bytes that earlier calls left, takes a whole sequence as it comes.
encode_bytes-scan :
    (carry p : Bytes) → full_rune carry ≡ false → encode_bytes carry p ≡ encoded (carry ++ p)
unfolding encode_bytes
encode_bytes-scan [] p h = encode_rest-scan (length p) p (omega arith)
encode_bytes-scan (c ∷ carry) p h =
    encode_joined-scan (c ∷ carry) p (length (c ∷ carry)) 0 (omega arith)

-- The calls of the encoder, one after the other.
abbrev pub encode_all : Bytes → List Bytes → List ℕ × Bytes
encode_all carry [] = ([], carry)
encode_all carry (p ∷ ps) =
    let one = encode_bytes carry p in let rest = encode_all one.1 ps in (one.0 ++ rest.0, rest.1)

utf16_runes-append : (rs qs : List ℕ) → utf16_runes (rs ++ qs) ≡ utf16_runes rs ++ utf16_runes qs
utf16_runes-append [] qs = refl
utf16_runes-append (r ∷ rs) qs =
    ap (λ x. utf16_rune r ++ x) (utf16_runes-append rs qs)
    ∙ sym (append_assoc (utf16_rune r) (utf16_runes rs) (utf16_runes qs))

encode_all-scan :
    (ps : List Bytes) (carry : Bytes)
    → full_rune carry ≡ false
    → encode_all carry ps ≡ encoded (carry ++ concat ps)
encode_all-scan [] carry h = rw (append-nil carry, scan-stop carry h) refl
encode_all-scan (p ∷ ps) carry h =
    let left = (scan (carry ++ p)).1 in
    ground (
      arith,
      encode_bytes-scan carry p h,
      encode_all-scan ps left (scan-held (carry ++ p)),
      scan-append (carry ++ p) (concat ps),
      append_assoc carry p (concat ps),
      utf16_runes-append (scan (carry ++ p)).0 (scan (left ++ concat ps)).0,
    )

-- However the remote output is cut into writes, the encoder gives the units of the runes of the whole
-- output, invalid bytes as U+FFFD one by one, and holds back exactly an unfinished last sequence.
pub encode_all-encoded : (ps : List Bytes) → encode_all [] ps ≡ encoded (concat ps)
encode_all-encoded ps = encode_all-scan ps [] empty_not_full
