-- ===== src/Strings.antt =====
-- Go's bytes and strings, as far as the program uses them, on byte strings.
pub mod Laws
pub mod Infix
use Prim.Native.Char.{code}
use Prim.Native.String.{String}
use et_go.Prelude.{
  ℕ, zero, suc, ◌+◌, ◌-◌, ◌*◌, ◌/◌, ◌%◌, ◌^◌, List, [], ◌∷◌, ◌++◌, Bool, true, false, not, ◌&&◌,
  ◌||◌, Option, none, some, Bytes, length, ltb, leb, ◌==◌, if◌then◌else◌, ℤ, pos, negsuc,
}

-- The bytes of an ASCII text of the source.
abbrev pub codes : String → Bytes
codes String.[] = []
codes (String.◌∷◌ c s) = code c ∷ codes s

-- What follows a prefix, as bytes.CutPrefix gives it.
unfoldable pub cut_prefix : Bytes → Bytes → Option Bytes
cut_prefix [] b = some b
cut_prefix (m ∷ ms) [] = none
cut_prefix (m ∷ ms) (c ∷ b) = let rest = cut_prefix ms b in if m == c then rest else none

-- What follows the first instance of a separator, as bytes.Cut gives it.
unfoldable pub cut : Bytes → Bytes → Option Bytes
cut sep [] = cut_prefix sep []
cut sep (c ∷ b) =
    let later = cut sep b in elim (cut_prefix sep (c ∷ b)) [ some rest ↦ some rest | none ↦ later ]

-- `strings.Contains`.
abbrev pub is_some : Option Bytes → Bool
is_some none = false
is_some (some x) = true

abbrev pub contains : Bytes → Bytes → Bool
contains s sep = is_some (cut sep s)

-- `strings.HasPrefix`.
abbrev pub has_prefix : Bytes → Bytes → Bool
has_prefix s prefix = is_some (cut_prefix prefix s)

-- `strings.IndexByte`, as a test.
unfoldable pub has_byte : Bytes → ℕ → Bool
has_byte [] c = false
has_byte (b ∷ s) c = b == c || has_byte s c

-- `strings.Count` of one byte.
unfoldable pub count_byte : Bytes → ℕ → ℕ
count_byte [] c = 0
count_byte (b ∷ s) c = (if b == c then 1 else 0) + count_byte s c

-- `strings.Cut` at one byte: what is before and after it.
abbrev pub behind_byte : ℕ → Option (Bytes × Bytes) → Option (Bytes × Bytes)
behind_byte b none = none
behind_byte b (some (before, after)) = some (b ∷ before, after)

unfoldable pub cut_byte : ℕ → Bytes → Option (Bytes × Bytes)
cut_byte c [] = none
cut_byte c (b ∷ s) =
    let later = behind_byte b (cut_byte c s) in if b == c then some ([], s) else later

-- `strings.CutLast` at one byte.
abbrev pub or_here : ℕ → ℕ → Bytes → Option (Bytes × Bytes) → Option (Bytes × Bytes)
or_here c b s (some cut) = behind_byte b (some cut)
or_here c b s none = if b == c then some ([], s) else none

unfoldable pub cut_last_byte : ℕ → Bytes → Option (Bytes × Bytes)
cut_last_byte c [] = none
cut_last_byte c (b ∷ s) = or_here c b s (cut_last_byte c s)

-- The decimal digits of `strconv.Atoi`, behind the digits that have the value `n`.
unfoldable pub digits : ℕ → Bytes → Option ℕ
digits n [] = some n
digits n (b ∷ s) =
    let more = digits (n * 10 + (b - 48)) s in if leb 48 b && leb b 57 then more else none

-- `strconv.Atoi`, where int has 64 bits; `none` is any error.
abbrev pub in_range : Option ℕ → Option ℤ
in_range none = none
in_range (some n) = if ltb n (2 ^ 63) then some (pos n) else none

-- A minus sign allows one value more.
abbrev pub negated : Option ℕ → Option ℤ
negated none = none
negated (some zero) = some (pos 0)
negated (some (suc n)) = if ltb n (2 ^ 63) then some (negsuc n) else none

abbrev pub unsigned : Bytes → Option ℕ
unsigned [] = none
unsigned (b ∷ s) = digits 0 (b ∷ s)

unfoldable pub atoi : Bytes → Option ℤ
atoi [] = none
atoi (b ∷ s) =
    if b == 45
    then negated (unsigned s)
    else if b == 43
    then in_range (unsigned s)
    else in_range (unsigned (b ∷ s))

-- `strconv.Itoa` of a number that is not negative, over at most `k` digits behind the first.
unfoldable pub itoa_digits : ℕ → ℕ → Bytes
itoa_digits zero n = (48 + n % 10) ∷ []
itoa_digits (suc k) n =
    let front = itoa_digits k (n / 10) in
    if ltb n 10 then (48 + n) ∷ [] else front ++ ((48 + n % 10) ∷ [])

-- Twenty digits hold any int.
unfoldable pub itoa : ℕ → Bytes
itoa n = itoa_digits 19 n

-- Equality of two strings.
unfoldable pub equal : Bytes → Bytes → Bool
equal [] [] = true
equal (a ∷ s) (b ∷ t) = a == b && equal s t
equal _ _ = false

-- What is before the first instance of a separator, all of it without one.
unfoldable pub before : Bytes → Bytes → Bytes
before sep [] = []
before sep (b ∷ s) =
    let rest = b ∷ before sep s in if is_some (cut_prefix sep (b ∷ s)) then [] else rest

-- `bytes.TrimSpace`, by the UTF-8 of the spaces of Unicode.
abbrev pub spaces : List Bytes
spaces =
    (9 ∷ [])
    ∷ (10 ∷ [])
    ∷ (11 ∷ [])
    ∷ (12 ∷ [])
    ∷ (13 ∷ [])
    ∷ (32 ∷ [])
    ∷ (194 ∷ 133 ∷ [])
    ∷ (194 ∷ 160 ∷ [])
    ∷ (225 ∷ 154 ∷ 128 ∷ [])
    ∷ (226 ∷ 128 ∷ 128 ∷ [])
    ∷ (226 ∷ 128 ∷ 129 ∷ [])
    ∷ (226 ∷ 128 ∷ 130 ∷ [])
    ∷ (226 ∷ 128 ∷ 131 ∷ [])
    ∷ (226 ∷ 128 ∷ 132 ∷ [])
    ∷ (226 ∷ 128 ∷ 133 ∷ [])
    ∷ (226 ∷ 128 ∷ 134 ∷ [])
    ∷ (226 ∷ 128 ∷ 135 ∷ [])
    ∷ (226 ∷ 128 ∷ 136 ∷ [])
    ∷ (226 ∷ 128 ∷ 137 ∷ [])
    ∷ (226 ∷ 128 ∷ 138 ∷ [])
    ∷ (226 ∷ 128 ∷ 168 ∷ [])
    ∷ (226 ∷ 128 ∷ 169 ∷ [])
    ∷ (226 ∷ 128 ∷ 175 ∷ [])
    ∷ (226 ∷ 129 ∷ 159 ∷ [])
    ∷ (227 ∷ 128 ∷ 128 ∷ [])
    ∷ []

-- What is behind a space in front, for the first of some spaces that fits.
unfoldable pub cut_space : List Bytes → Bytes → Option Bytes
cut_space [] s = none
cut_space (sp ∷ sps) s = elim (cut_prefix sp s) [ none ↦ cut_space sps s | some rest ↦ some rest ]

-- Spaces cut from the front, with a round for each byte.
unfoldable pub trim_front : List Bytes → ℕ → Bytes → Bytes
trim_front sps zero s = s
trim_front sps (suc n) s = elim (cut_space sps s) [ none ↦ s | some rest ↦ trim_front sps n rest ]

abbrev pub reversed : Bytes → Bytes
reversed [] = []
reversed (b ∷ s) = reversed s ++ (b ∷ [])

abbrev pub reversed_all : List Bytes → List Bytes
reversed_all [] = []
reversed_all (s ∷ ss) = reversed s ∷ reversed_all ss

unfoldable pub trim_space : Bytes → Bytes
trim_space s =
    let t = trim_front spaces (length s) s in
    reversed (trim_front (reversed_all spaces) (length s) (reversed t))

-- `bytes.Lines`: each line with its newline.
abbrev pub onto_line : ℕ → List Bytes → List Bytes
onto_line b [] = (b ∷ []) ∷ []
onto_line b (l ∷ ls) = (b ∷ l) ∷ ls

unfoldable pub lines : Bytes → List Bytes
lines [] = []
lines (b ∷ s) = let rest = lines s in if b == 10 then (b ∷ []) ∷ rest else onto_line b rest
