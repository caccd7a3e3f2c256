-- ===== src/Cmd/Destination/Printing.antt =====
-- A destination written out reads back, and what is read is sound.
use et_go.Prelude.{
  ℕ, zero, suc, ◌≤◌, ◌≡◌, ◌≢◌, refl, ◌∙◌, inl, inr, [], ◌∷◌, ◌++◌, false, Option, none, some, Bytes,
  ◌==◌, if◌then◌else◌, arith, ℤ, pos, negsuc, Bool-cases, append-nil,
}
use et_go.Strings.{
  contains, has_prefix, has_byte, itoa, atoi, count_byte, cut_last_byte, cut_prefix,
}
use et_go.Strings.Laws.{
  cut_byte-append, cut_byte-none, cut_last_byte-none, cut_last_byte-append, count_byte-none,
  count_byte-append, has_byte-append, atoi-itoa, itoa-has_byte, itoa-FirstDigit,
}
use et_go.Cmd.Destination.{
  Destination, Result, ok, usage, dash, scheme, parse_destination, port_text, behind_bracket,
  bracketed, unbracketed, plain_host, host_port, checked_port, port_number, with_port, with_host,
  with_user,
}

-- What every destination that is read has.
abbrev pub Sound : Result Destination → Type 0
Sound (usage e) = Unit
Sound (ok d) =
    (d.host ≢ [])
    × (has_prefix d.host dash ≡ false)
    × (has_prefix d.user dash ≡ false)
    × (d.port ≤ 65535)

with_port-Sound :
    (user : Bytes) (c : ℕ) (host : Bytes)
    → has_prefix (c ∷ host) dash ≡ false
    → has_prefix user dash ≡ false
    → (r : Result ℕ) → ((n : ℕ) → r ≡ ok n → n ≤ 65535)
    → Sound (with_port user (c ∷ host) r)
unfolding with_port
with_port-Sound user c host h u (usage e) k = tt
with_port-Sound user c host h u (ok n) k = ((λ e. cc), h, u, k n refl)

checked_port-range : (z : Option ℤ) (n : ℕ) → checked_port z ≡ ok n → n ≤ 65535
unfolding checked_port
checked_port-range none n h = absurd (ground (arith, h))
checked_port-range (some (negsuc m)) n h = absurd (ground (arith, h))
checked_port-range (some (pos m)) n h = ground (arith, h)

port_number-range : (text : Bytes) (n : ℕ) → port_number text ≡ ok n → n ≤ 65535
unfolding port_number
port_number-range [] n h = ground (arith, h)
port_number-range (c ∷ text) n h = checked_port-range (atoi (c ∷ text)) n h

with_host-Sound :
    (user : Bytes)
    → has_prefix user dash ≡ false
    → (r : Result (Bytes × Bytes)) → Sound (with_host user r)
unfolding with_host
with_host-Sound user u (usage e) = tt
with_host-Sound user u (ok ([], text)) = tt
with_host-Sound user u (ok (c ∷ host, text)) = elim (Bool-cases (has_prefix (c ∷ host) dash)) [
  | inl e ↦ rw e tt
  | inr e ↦ rw e (with_port-Sound user c host e u (port_number text) (port_number-range text))
]

no_user : has_prefix [] dash ≡ false
unfolding cut_prefix
no_user = refl

with_user-Sound : (s : Bytes) (o : Option (Bytes × Bytes)) → Sound (with_user s o)
unfolding with_user
with_user-Sound s none = with_host-Sound [] no_user (host_port s)
with_user-Sound s (some ([], after)) = tt
with_user-Sound s (some (c ∷ user, after)) = elim (Bool-cases (has_prefix (c ∷ user) dash)) [
  | inl e ↦ rw e tt
  | inr e ↦ rw e (with_host-Sound (c ∷ user) e (host_port after))
]

-- A destination that is read has a host, neither its host nor its user can be taken for an option, and
-- its port is within 65535.
pub parse_destination-Sound : (s : Bytes) → Sound (parse_destination s)
unfolding parse_destination
parse_destination-Sound s = elim (Bool-cases (contains s scheme)) [
  | inl e ↦ rw e tt
  | inr e ↦ rw e (with_user-Sound s (cut_last_byte 64 s))
]

-- A destination written out, a host with a colon in brackets.
abbrev user_text : Bytes → Bytes → Bytes
user_text [] s = s
user_text (c ∷ user) s = (c ∷ user) ++ (64 ∷ s)

abbrev port_suffix : ℕ → Bytes
port_suffix zero = []
port_suffix (suc n) = 58 ∷ itoa (suc n)

abbrev port_digits : ℕ → Bytes
port_digits zero = []
port_digits (suc n) = itoa (suc n)

abbrev host_text : Bytes → Bytes → Bytes
host_text host s = if has_byte host 58 then 91 ∷ (host ++ (93 ∷ s)) else host ++ s

abbrev pub print_destination : Destination → Bytes
print_destination d = user_text d.user (host_text d.host (port_suffix d.port))

-- What can be written out: a sound destination whose host has no '@' or ']' and no '[' in front, and
-- which is no URI.
abbrev pub Printable : Destination → Type 0
Printable d =
    Sound (ok d)
    × (has_byte d.host 64 ≡ false)
    × (has_byte d.host 93 ≡ false)
    × (has_prefix d.host (91 ∷ []) ≡ false)
    × (contains (print_destination d) scheme ≡ false)

suffix-has_byte : (n : ℕ) → has_byte (port_suffix n) 64 ≡ false
unfolding has_byte
suffix-has_byte zero = refl
suffix-has_byte (suc n) = ground (arith, itoa-has_byte 64 (suc n) (inr (omega arith)))

port_number-digits : (n : ℕ) → n ≤ 65535 → port_number (port_digits n) ≡ ok n
unfolding port_number checked_port
port_number-digits zero h = refl
port_number-digits (suc n) h =
    let (b, s, e, lo, hi) = itoa-FirstDigit (suc n) in
    ground (arith, e, h, atoi-itoa (suc n) (omega (arith, h)))

port_text-suffix : (host : Bytes) (n : ℕ) → port_text host (itoa (suc n)) ≡ ok (host, itoa (suc n))
unfolding port_text
port_text-suffix host n = let (b, s, e, lo, hi) = itoa-FirstDigit (suc n) in rw e refl

behind_bracket-suffix :
    (host : Bytes) (n : ℕ) → behind_bracket host (port_suffix n) ≡ ok (host, port_digits n)
unfolding behind_bracket
behind_bracket-suffix host zero = refl
behind_bracket-suffix host (suc n) = ground (arith, port_text-suffix host n)

plain_host-suffix :
    (host : Bytes) (n : ℕ)
    → has_byte host 58 ≡ false
    → plain_host (host ++ port_suffix n) ≡ ok (host, port_digits n)
unfolding plain_host unbracketed count_byte
plain_host-suffix host zero h =
    ground (arith, append-nil host, count_byte-none 58 host h, cut_byte-none 58 host h)
plain_host-suffix host (suc n) h = ground (
  arith,
  count_byte-append 58 host (port_suffix (suc n)),
  count_byte-none 58 host h,
  count_byte-none 58 (itoa (suc n)) (itoa-has_byte 58 (suc n) (inr (omega arith))),
  cut_byte-append 58 host (itoa (suc n)) h,
  port_text-suffix host n,
)

host_port-text :
    (host : Bytes) (n : ℕ)
    → host ≢ []
    → has_byte host 93 ≡ false
    → has_prefix host (91 ∷ []) ≡ false
    → host_port (host_text host (port_suffix n)) ≡ ok (host, port_digits n)
unfolding host_port bracketed cut_prefix
host_port-text [] n ne b f = absurd (ne refl)
host_port-text (c ∷ host) n ne b f = elim (Bool-cases (has_byte (c ∷ host) 58)) [
  | inl colon ↦
      rw colon
        (rw (cut_byte-append 93 (c ∷ host) (port_suffix n) b) (behind_bracket-suffix (c ∷ host) n))
  | inr plain ↦
      let other : (c == 91) ≡ false = ground (arith, f) in
      rw (plain, other) (plain_host-suffix (c ∷ host) n plain)
]

host_text-has_byte :
    (host : Bytes) (n : ℕ)
    → has_byte host 64 ≡ false
    → has_byte (host_text host (port_suffix n)) 64 ≡ false
unfolding has_byte
host_text-has_byte host n h = ground (
  arith,
  h,
  suffix-has_byte n,
  has_byte-append 64 host (port_suffix n),
  has_byte-append 64 host (93 ∷ port_suffix n),
)

with_host-text :
    (user host : Bytes) (n : ℕ)
    → host ≢ []
    → has_prefix host dash ≡ false
    → n ≤ 65535
    → with_host user (ok (host, port_digits n)) ≡ ok (record { user = user; host = host; port = n })
unfolding with_host with_port
with_host-text user [] n ne h le = absurd (ne refl)
with_host-text user (c ∷ host) n ne h le = rw (h, port_number-digits n le) refl

with_user-text :
    (user t : Bytes) (r : Result (Bytes × Bytes)) (s : Bytes)
    → has_byte t 64 ≡ false
    → has_prefix user dash ≡ false
    → host_port t ≡ r
    → s ≡ user_text user t
    → with_user s (cut_last_byte 64 s) ≡ with_host user r
unfolding with_user
with_user-text [] t r s a u h e = rw (e, cut_last_byte-none 64 t a, h) refl
with_user-text (c ∷ user) t r s a u h e = rw (e, cut_last_byte-append 64 (c ∷ user) t a, u, h) refl

-- A destination that is written out reads back: the user before the last '@', a host with a colon in
-- brackets, and the port, if any, behind a colon.
pub parse_destination-print_destination :
    (d : Destination) → Printable d → parse_destination (print_destination d) ≡ ok d
unfolding parse_destination
parse_destination-print_destination d
      ((ne, host_dash, user_dash, range), at, bracket, open_bracket, no_uri) =
    rw no_uri (
      with_user-text d.user (host_text d.host (port_suffix d.port)) _ (print_destination d)
        (host_text-has_byte d.host d.port at) user_dash
        (host_port-text d.host d.port ne bracket open_bracket) refl
      ∙ with_host-text d.user d.host d.port ne host_dash range)
