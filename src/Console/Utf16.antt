-- ===== src/Console/Utf16.antt =====
-- internal/console/utf16.go: UTF-16 console units to UTF-8 and back, over any cuts of the input.
pub mod Decoding
pub mod Encoding
use et_go.Prelude.{
  ℕ, zero, suc, ◌+◌, ◌-◌, List, [], ◌∷◌, ◌++◌, Bool, true, false, ◌&&◌, Option, none, some, Bytes,
  length, take, drop, get_elem?, ltb, leb, ◌==◌, if◌then◌else◌,
}
use et_go.Unicode.{utf8_rune, rune_error, decode_pair, decode_rune, full_rune, utf16_rune, within}

-- `isHighSurrogate` and `isLowSurrogate`.
abbrev pub is_high_surrogate : ℕ → Bool
is_high_surrogate u = leb 55296 u && ltb u 56320

abbrev pub is_low_surrogate : ℕ → Bool
is_low_surrogate u = leb 56320 u && ltb u 57344

-- The switch in utf16Decoder.append: what it appends, and the high surrogate that is pending, 0 if none.
abbrev pub decode_unit : ℕ → Bytes × ℕ
decode_unit u =
    if is_high_surrogate u
    then ([], u)
    else if is_low_surrogate u
    then (utf8_rune rune_error, 0)
    else (utf8_rune u, 0)

-- The body of its loop, with `high` pending.
unfoldable pub decode_next : ℕ → ℕ → Bytes × ℕ
decode_next high u =
    if high == 0
    then decode_unit u
    else if is_low_surrogate u
    then (utf8_rune (decode_pair high u), 0)
    else (utf8_rune rune_error ++ (decode_unit u).0, (decode_unit u).1)

-- `utf16Decoder.append`: what is appended, and what is pending then.
unfoldable pub decode_units : ℕ → List ℕ → Bytes × ℕ
decode_units high [] = ([], high)
decode_units high (u ∷ us) =
    let one = decode_next high u in let rest = decode_units one.1 us in (one.0 ++ rest.0, rest.1)

-- The second loop of utf8Encoder.append, with a round for each byte: the units, and the new carry.
unfoldable pub encode_rest : ℕ → Bytes → List ℕ × Bytes
encode_rest zero p = ([], p)
encode_rest (suc n) [] = ([], [])
encode_rest (suc n) (b ∷ p) =
    let (r, size) = decode_rune (b ∷ p) in
    let rest = encode_rest n (drop size (b ∷ p)) in
    if full_rune (b ∷ p) then (utf16_rune r ++ rest.0, rest.1) else ([], take 4 (b ∷ p))

-- What the first loop comes to, over the carry joined with some of `p`: it keeps waiting with a new
-- carry, or has used some bytes.
pub data Joined : Type 0 where
  keeps_waiting : List ℕ → Bytes → Joined
  has_used : List ℕ → ℕ → Joined

abbrev pub after_units : List ℕ → Joined → Joined
after_units us (keeps_waiting vs c) = keeps_waiting (us ++ vs) c
after_units us (has_used vs used) = has_used (us ++ vs) used

-- The loop while `used` is below the carry's length `n`.
unfoldable pub encode_joined : ℕ → ℕ → Bytes → ℕ → Joined
encode_joined zero n joined used = has_used [] used
encode_joined (suc rounds) n joined used =
    let p = drop used joined in
    let (r, size) = decode_rune p in
    let more = after_units (utf16_rune r) (encode_joined rounds n joined (used + size)) in
    if ltb used n
    then if full_rune p then more else keeps_waiting [] (take 4 p)
    else has_used [] used

finish_encode : ℕ → Bytes → Joined → List ℕ × Bytes
finish_encode n p (keeps_waiting us c) = (us, c)
finish_encode n p (has_used us used) =
    let rest = encode_rest (length p) (drop (used - n) p) in (us ++ rest.0, rest.1)

-- `utf8Encoder.append` with a carry: the units appended, and the new carry.
unfoldable pub encode_bytes : Bytes → Bytes → List ℕ × Bytes
unfolding finish_encode
encode_bytes [] p = encode_rest (length p) p
encode_bytes (c ∷ carry) p =
    let n = length (c ∷ carry) in finish_encode n p (encode_joined n n ((c ∷ carry) ++ take 4 p) 0)

-- Whether a cut at `n` falls between the two halves of a pair.
abbrev pub is_pair : Option ℕ → Option ℕ → Bool
is_pair (some a) (some b) = is_high_surrogate a && is_low_surrogate b
is_pair _ _ = false

abbrev pub splits_pair : List ℕ → ℕ → Bool
splits_pair units n = is_pair (get_elem? units (n - 1)) (get_elem? units n)

-- `chunkLen`; `none` is its panic.
unfoldable pub chunk_len : List ℕ → ℕ → Option ℕ
chunk_len units limit =
    if ltb limit 2
    then none
    else if leb (length units) limit
    then some (length units)
    else if splits_pair units limit
    then some (limit - 1)
    else some limit
