-- ===== src/Strings/Laws.antt =====
-- Cutting byte strings, and numbers in decimal.
use et_go.Prelude.{
  ℕ, zero, suc, ◌+◌, ◌-◌, ◌*◌, ◌/◌, ◌%◌, ◌^◌, ◌≤◌, ◌<◌, ◌≡◌, refl, ap, ◌⊎◌, inl, inr, [], ◌∷◌, ◌++◌,
  true, false, ◌||◌, none, some, Bytes, arith, ltb, Option-cases, Bool-cases, pos,
}
use et_go.Strings.{
  cut_prefix, cut, has_byte, count_byte, cut_byte, cut_last_byte, digits, atoi, itoa, itoa_digits,
  equal,
}

pub cut_prefix-whole : (m b rest : Bytes) → cut_prefix m b ≡ some rest → b ≡ m ++ rest
unfolding cut_prefix
cut_prefix-whole [] b rest e = ground (arith, e)
cut_prefix-whole (m ∷ ms) [] rest e = absurd (ground (arith, e))
cut_prefix-whole (m ∷ ms) (c ∷ b) rest e = ground (arith, e, cut_prefix-whole ms b rest)

-- What follows a separator lies behind it.
pub cut-whole :
    (m b rest : Bytes) → cut m b ≡ some rest → (before : Bytes) × (b ≡ before ++ (m ++ rest))
unfolding cut
cut-whole m [] rest e = ([], cut_prefix-whole m [] rest e)
cut-whole m (c ∷ b) rest e = elim (Option-cases (cut_prefix m (c ∷ b))) [
  | inr (x, f) ↦ ([], cut_prefix-whole m (c ∷ b) rest (ground (arith, e, f)))
  | inl f ↦
      let (before, whole) = cut-whole m b rest (ground (arith, e, f)) in
      (c ∷ before, ap (λ x. c ∷ x) whole)
]

-- A cut at the first instance.
pub cut_byte-append :
    (c : ℕ) (a b : Bytes) → has_byte a c ≡ false → cut_byte c (a ++ (c ∷ b)) ≡ some (a, b)
unfolding cut_byte has_byte
cut_byte-append c [] b h = ground arith
cut_byte-append c (x ∷ a) b h = ground (arith, h, cut_byte-append c a b)

pub cut_byte-none : (c : ℕ) (s : Bytes) → has_byte s c ≡ false → cut_byte c s ≡ none
unfolding cut_byte has_byte
cut_byte-none c [] h = refl
cut_byte-none c (x ∷ s) h = ground (arith, h, cut_byte-none c s)

-- A cut at the last instance.
pub cut_last_byte-none : (c : ℕ) (s : Bytes) → has_byte s c ≡ false → cut_last_byte c s ≡ none
unfolding cut_last_byte has_byte
cut_last_byte-none c [] h = refl
cut_last_byte-none c (x ∷ s) h = ground (arith, h, cut_last_byte-none c s)

pub cut_last_byte-append :
    (c : ℕ) (a b : Bytes) → has_byte b c ≡ false → cut_last_byte c (a ++ (c ∷ b)) ≡ some (a, b)
unfolding cut_last_byte
cut_last_byte-append c [] b h = ground (arith, cut_last_byte-none c b h)
cut_last_byte-append c (x ∷ a) b h = ground (arith, cut_last_byte-append c a b h)

pub count_byte-none : (c : ℕ) (s : Bytes) → has_byte s c ≡ false → count_byte s c ≡ 0
unfolding count_byte has_byte
count_byte-none c [] h = refl
count_byte-none c (x ∷ s) h = ground (arith, h, count_byte-none c s)

pub count_byte-append :
    (c : ℕ) (a b : Bytes) → count_byte (a ++ b) c ≡ count_byte a c + count_byte b c
unfolding count_byte
count_byte-append c [] b = omega arith
count_byte-append c (x ∷ a) b = ground (arith, count_byte-append c a b)

pub has_byte-append : (c : ℕ) (a b : Bytes) → has_byte (a ++ b) c ≡ (has_byte a c || has_byte b c)
unfolding has_byte
has_byte-append c [] b = refl
has_byte-append c (x ∷ a) b = ground (arith, has_byte-append c a b)

digits-append : (m v : ℕ) (a b : Bytes) → digits m a ≡ some v → digits m (a ++ b) ≡ digits v b
unfolding digits
digits-append m v [] b h = ground (arith, h)
digits-append m v (x ∷ a) b h = ground (arith, h, digits-append (m * 10 + (x - 48)) v a b)

digits-itoa_digits : (k n : ℕ) → n < 10 ^ suc k → digits 0 (itoa_digits k n) ≡ some n
unfolding digits itoa_digits
digits-itoa_digits zero n h = ground (arith, h)
digits-itoa_digits (suc k) n h = ground (
  arith,
  digits-itoa_digits k (n / 10) (omega (arith, h)),
  digits-append 0 (n / 10) (itoa_digits k (n / 10)) ((48 + n % 10) ∷ []),
)

-- The first byte of a number in decimal is a digit.
abbrev pub FirstDigit : Bytes → Type 0
FirstDigit t = (b : ℕ) × (s : Bytes) × (t ≡ b ∷ s) × (48 ≤ b) × (b ≤ 57)

itoa_digits-first : (k n : ℕ) → FirstDigit (itoa_digits k n)
unfolding itoa_digits
itoa_digits-first zero n = (_, _, refl, omega arith, omega arith)
itoa_digits-first (suc k) n =
    let (b, s, e, lo, hi) = itoa_digits-first k (n / 10) in
    elim (Bool-cases (ltb n 10)) [
      | inl small ↦ (48 + n, [], ground (arith, small), omega arith, ground (arith, small))
      | inr big ↦ (b, s ++ ((48 + n % 10) ∷ []), ground (arith, big, e), lo, hi)
    ]

-- A number in decimal reads back.
pub atoi-itoa : (n : ℕ) → n < 2 ^ 63 → atoi (itoa n) ≡ some (pos n)
unfolding atoi itoa
atoi-itoa n h =
    let (b, s, e, lo, hi) = itoa_digits-first 19 n in
    let value : digits 0 (b ∷ s) ≡ some n = rw⁻¹ e (digits-itoa_digits 19 n (omega (arith, h))) in
    rw e (ground (arith, lo, hi, value, h))

pub itoa-FirstDigit : (n : ℕ) → FirstDigit (itoa n)
unfolding itoa
itoa-FirstDigit n = itoa_digits-first 19 n

-- A number in decimal holds digits only.
itoa_digits-has_byte : (c k n : ℕ) → (c < 48) ⊎ (57 < c) → has_byte (itoa_digits k n) c ≡ false
unfolding itoa_digits has_byte
itoa_digits-has_byte c zero n h = ground (arith, h)
itoa_digits-has_byte c (suc k) n h = ground (
  arith,
  h,
  itoa_digits-has_byte c k (n / 10) h,
  has_byte-append c (itoa_digits k (n / 10)) ((48 + n % 10) ∷ []),
)

pub itoa-has_byte : (c n : ℕ) → (c < 48) ⊎ (57 < c) → has_byte (itoa n) c ≡ false
unfolding itoa
itoa-has_byte c n h = itoa_digits-has_byte c 19 n h

pub equal-path : (s t : Bytes) → equal s t ≡ true → s ≡ t
unfolding equal
equal-path [] [] h = refl
equal-path [] (b ∷ t) h = absurd (ground (arith, h))
equal-path (a ∷ s) [] h = absurd (ground (arith, h))
equal-path (a ∷ s) (b ∷ t) h = ground (arith, h, equal-path s t)

pub equal_refl : (s : Bytes) → equal s s ≡ true
unfolding equal
equal_refl [] = refl
equal_refl (a ∷ s) = ground (arith, equal_refl s)
