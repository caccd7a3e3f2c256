-- ===== src/Unicode.antt =====
-- Go's unicode/utf8 and unicode/utf16, as far as the program uses them.
pub mod Runes
pub mod Scan
use et_go.Prelude.{
  ℕ, zero, suc, ◌+◌, ◌-◌, ◌*◌, ◌/◌, ◌%◌, List, [], ◌∷◌, ◌++◌, Bool, true, false, not, ◌&&◌, ◌||◌,
  Bytes, length, drop, ltb, leb, ◌==◌, if◌then◌else◌,
}

-- `utf8.RuneError`, which is also the replacement character of utf16.
abbrev pub rune_error : ℕ
rune_error = 65533

abbrev pub within : ℕ → ℕ → ℕ → Bool
within lo hi c = leb lo c && leb c hi

-- `utf8.AppendRune`: what it appends.
unfoldable pub utf8_rune : ℕ → Bytes
utf8_rune r =
    if ltb r 128
    then r ∷ []
    else if ltb r 2048
    then (192 + r / 64) ∷ (128 + r % 64) ∷ []
    else if within 55296 57343 r || ltb 1114111 r
    then 239 ∷ 191 ∷ 189 ∷ []
    else if ltb r 65536
    then (224 + r / 4096) ∷ (128 + (r / 64) % 64) ∷ (128 + r % 64) ∷ []
    else (240 + r / 262144) ∷ (128 + (r / 4096) % 64) ∷ (128 + (r / 64) % 64) ∷ (128 + r % 64) ∷ []

-- What a first byte begins, with the range of the second byte where a sequence has more than two.
pub data Lead : Type 0 where
  ascii invalid two : Lead
  three four : ℕ → ℕ → Lead

unfoldable pub lead : ℕ → Lead
lead b =
    if ltb b 128
    then ascii
    else if ltb b 194
    then invalid
    else if ltb b 224
    then two
    else if b == 224
    then three 160 191
    else if b == 237
    then three 128 159
    else if ltb b 240
    then three 128 191
    else if b == 240
    then four 144 191
    else if ltb b 244
    then four 128 191
    else if b == 244
    then four 128 143
    else invalid

-- `utf8.DecodeRune`: the rune and its size; one byte of an invalid or short sequence is RuneError.
abbrev pub bad_rune : ℕ × ℕ
bad_rune = (rune_error, 1)

decode_lead : Lead → ℕ → Bytes → ℕ × ℕ
decode_lead ascii b rest = (b, 1)
decode_lead invalid b rest = bad_rune
decode_lead two b (c ∷ rest) = if within 128 191 c then (b % 32 * 64 + c % 64, 2) else bad_rune
decode_lead (three lo hi) b (c ∷ (d ∷ rest)) =
    if within lo hi c && within 128 191 d
    then (b % 16 * 4096 + c % 64 * 64 + d % 64, 3)
    else bad_rune
decode_lead (four lo hi) b (c ∷ (d ∷ (e ∷ rest))) =
    if within lo hi c && (within 128 191 d && within 128 191 e)
    then (b % 8 * 262144 + c % 64 * 4096 + d % 64 * 64 + e % 64, 4)
    else bad_rune
decode_lead x b rest = bad_rune

unfoldable pub decode_rune : Bytes → ℕ × ℕ
unfolding decode_lead
decode_rune [] = (rune_error, 0)
decode_rune (b ∷ rest) = decode_lead (lead b) b rest

-- `utf8.FullRune`: false for an input that more bytes could still complete.
full_lead : Lead → Bytes → Bool
full_lead two [] = false
full_lead (three lo hi) [] = false
full_lead (three lo hi) (c ∷ []) = not (within lo hi c)
full_lead (four lo hi) [] = false
full_lead (four lo hi) (c ∷ []) = not (within lo hi c)
full_lead (four lo hi) (c ∷ (d ∷ [])) = not (within lo hi c) || not (within 128 191 d)
full_lead x rest = true

unfoldable pub full_rune : Bytes → Bool
unfolding full_lead
full_rune [] = false
full_rune (b ∷ rest) = full_lead (lead b) rest

-- `utf16.AppendRune` and `utf16.DecodeRune`.
unfoldable pub utf16_rune : ℕ → List ℕ
utf16_rune r =
    if ltb r 55296 || within 57344 65535 r
    then r ∷ []
    else if within 65536 1114111 r
    then (55296 + (r - 65536) / 1024 % 1024) ∷ (56320 + (r - 65536) % 1024) ∷ []
    else rune_error ∷ []

unfoldable pub decode_pair : ℕ → ℕ → ℕ
decode_pair a b =
    if within 55296 56319 a && within 56320 57343 b
    then (a - 55296) * 1024 + (b - 56320) + 65536
    else rune_error

abbrev pub utf8_runes : List ℕ → Bytes
utf8_runes [] = []
utf8_runes (r ∷ rs) = utf8_rune r ++ utf8_runes rs

abbrev pub utf16_runes : List ℕ → List ℕ
utf16_runes [] = []
utf16_runes (r ∷ rs) = utf16_rune r ++ utf16_runes rs

-- The runes that a `range` over a string gives: one byte of an invalid or short sequence is RuneError.
unfoldable pub runes_for : ℕ → Bytes → List ℕ
runes_for zero s = []
runes_for (suc n) [] = []
runes_for (suc n) (b ∷ s) =
    let (r, size) = decode_rune (b ∷ s) in r ∷ runes_for n (drop size (b ∷ s))

unfoldable pub runes : Bytes → List ℕ
runes s = runes_for (length s) s

-- `unicode.IsSpace` and `unicode.IsControl`.
unfoldable pub is_space : ℕ → Bool
is_space r =
    within 9 13 r
    || (r == 32
        || (r == 133
            || (r == 160
                || (r == 5760
                    || (within 8192 8202 r
                        || (within 8232 8233 r || (r == 8239 || (r == 8287 || r == 12288))))))))

unfoldable pub is_control : ℕ → Bool
is_control r = leb r 31 || within 127 159 r
