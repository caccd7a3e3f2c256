-- ===== src/Bootstrap/Start/Secret.antt =====
-- What an error quotes of the captured output.
use et_go.Prelude.{
  List, if◌then◌else◌, ℕ, zero, suc, ◌+◌, ◌-◌, ◌≤◌, ◌≡◌, ◌⊎◌, inl, inr, refl, ap, sym, ◌∙◌, [], ◌∷◌,
  ◌++◌, true, false, Option, none, some, Bytes, length, take, drop, All, leb, leb→le, arith,
  append_assoc, append-nil, length-append, length-drop, take-append-drop, ◌==◌, Bool-cases,
}
use et_go.Strings.{contains, before, trim_space, cut, cut_prefix}
use et_go.Strings.Infix.{
  IsInfix, IsInfix-trans, contains-IsInfix, trim_space-IsInfix, before-IsInfix,
}
use et_go.Bootstrap.Parse.{
  Parsed, no_marker, malformed_id, malformed_passkey, parsed, marker, parse_credentials, is_alnum,
}
use et_go.Unicode.{within}
use et_go.Bootstrap.Command.{Config}
use et_go.Bootstrap.Start.{
  CappedBuffer, pieces_from, contains_piece, skip_to_rune, dots, excerpt, excerpt_len, min_piece,
  Ssh, Failure, no_credentials, finish, by_output, checked, start, captured, run, answered,
}

skip_to_rune-suffix : (s : Bytes) → (a : Bytes) × (s ≡ a ++ skip_to_rune s)
unfolding skip_to_rune
skip_to_rune-suffix [] = ([], refl)
skip_to_rune-suffix (b ∷ s) = elim (Bool-cases (within 128 191 b)) [
  | inr e ↦ rw (e, skip_to_rune) ([], refl)
  | inl e ↦
      let (a, whole) = skip_to_rune-suffix s in rw (e, skip_to_rune) (b ∷ a, ap (λ x. b ∷ x) whole)
]

-- What an error quotes: a part of what was before the marker, with dots in front where it was cut.
abbrev pub Quotes : Bytes → Bytes → Type 0
Quotes out e =
    (part : Bytes) × IsInfix part (before marker out)
    × (length part ≤ excerpt_len)
    × ((e ≡ part) ⊎ (e ≡ dots ++ part))

excerpt-Quotes : (out : Bytes) → Quotes out (excerpt out)
unfolding excerpt
excerpt-Quotes out =
    let b = trim_space (before marker out) in
    let trimmed = trim_space-IsInfix (before marker out) in
    let over = length b - excerpt_len in
    elim (Bool-cases (leb (length b) excerpt_len)) [
      | inl e ↦ rw e (b, trimmed, leb→le _ _ e, inl refl)
      | inr e ↦
          let last = skip_to_rune (drop over b) in
          let (a, whole) = skip_to_rune-suffix (drop over b) in
          let size : length last ≤ excerpt_len =
            omega (arith, ap length whole, length-append {0} a last, length-drop over b) in
          let part : IsInfix last b = (
            take over b ++ a,
            [],
            sym (take-append-drop over b)
                ∙ ap (λ x. take over b ++ x) whole
                ∙ ground (arith, append_assoc (take over b) a last, append-nil last),
          ) in
          rw e (last, IsInfix-trans last b (before marker out) part trimmed, size, inr refl)
    ]

-- A piece of letters and digits is in a text with dots in front only if it is in the text.
contains-dots :
    (c : ℕ) (p s : Bytes)
    → is_alnum c ≡ true
    → contains s (c ∷ p) ≡ false
    → contains (dots ++ s) (c ∷ p) ≡ false
unfolding is_alnum cut cut_prefix
contains-dots c p s a h =
    let other : (c == 46) ≡ false = ground (arith, a) in ground (arith, other, h)

-- Where no piece was found, every window of the secret is absent.
pieces_from-absent :
    (n i : ℕ) (secret out : Bytes)
    → length secret ≤ n
    → pieces_from n secret out ≡ false
    → i + min_piece ≤ length secret
    → contains out (take min_piece (drop i secret)) ≡ false
unfolding pieces_from
pieces_from-absent zero i secret out a h w = absurd (omega (arith, a, w))
pieces_from-absent (suc n) zero secret out a h w = ground (arith, h, w)
pieces_from-absent (suc n) (suc i) [] out a h w = absurd (omega (arith, w))
pieces_from-absent (suc n) (suc i) (c ∷ secret) out a h w =
    let enough : leb min_piece (length (c ∷ secret)) ≡ true = ground (arith, w) in
    let rest : pieces_from n secret out ≡ false = ground (arith, h, enough) in
    pieces_from-absent n i secret out (omega (arith, a)) rest (omega (arith, w))

piece_first :
    (i : ℕ) (s : Bytes)
    → All (λ c. is_alnum c ≡ true) s
    → i + min_piece ≤ length s
    → (c : ℕ) × (p : Bytes) × (take min_piece (drop i s) ≡ c ∷ p) × (is_alnum c ≡ true)
piece_first i [] a w = absurd (omega (arith, w))
piece_first zero (c ∷ s) (a, more) w = (c, take 3 s, refl, a)
piece_first (suc i) (c ∷ s) (a, more) w = piece_first i s more (omega (arith, w))

-- What `Run` quotes, if anything, when there are no credentials.
abbrev shown_of : Bytes → CappedBuffer → Option Bytes
shown_of passkey out = if contains_piece out.buf passkey then none else some (excerpt out.buf)

finish-shown :
    (problem : Parsed) (s : Ssh) (out : CappedBuffer) (passkey : Bytes) (f : Failure)
    → finish problem s out passkey ≡ no_credentials f
    → f.shown ≡ shown_of passkey out
unfolding finish
finish-shown problem s out passkey f h = ground (arith, h)

by_output-shown :
    (problem : Parsed) (s : Ssh) (out : CappedBuffer) (passkey : Bytes) (f : Failure)
    → by_output problem s out passkey ≡ no_credentials f
    → f.shown ≡ shown_of passkey out
unfolding by_output
by_output-shown (parsed c) s out passkey f h =
    ground (arith, h, finish-shown (parsed c) s out passkey f)
by_output-shown no_marker s out passkey f h = finish-shown no_marker s out passkey f h
by_output-shown malformed_id s out passkey f h = finish-shown malformed_id s out passkey f h
by_output-shown malformed_passkey s out passkey f h =
    finish-shown malformed_passkey s out passkey f h

start-shown :
    (cfg : Config) (s : Ssh) (passkey : Bytes) (f : Failure)
    → start cfg s passkey ≡ no_credentials f
    → f.shown ≡ shown_of passkey (captured s)
unfolding start checked
start-shown cfg s passkey f h =
    ground (arith, h, by_output-shown (parse_credentials (captured s).buf) s (captured s) passkey f)

start-secret :
    (cfg : Config) (s : Ssh) (passkey : Bytes) (f : Failure) (e : Bytes) (i : ℕ)
    → start cfg s passkey ≡ no_credentials f
    → f.shown ≡ some e
    → All (λ c. is_alnum c ≡ true) passkey
    → i + min_piece ≤ length passkey
    → (contains e (take min_piece (drop i passkey)) ≡ false) × Quotes (captured s).buf e
start-secret cfg s passkey f e i h shown letters w =
    let out = (captured s).buf in
    let shows = start-shown cfg s passkey f h in
    let found : contains_piece out passkey ≡ false = ground (arith, shows, shown) in
    let same : e ≡ excerpt out = ground (arith, shows, shown, found) in
    let (part, inside, size, form) = excerpt-Quotes out in
    let (c, p, piece, alnum) = piece_first i passkey letters w in
    let (behind, whole) = before-IsInfix marker out in
    let part_of : IsInfix part out =
      IsInfix-trans part (before marker out) out inside ([], behind, whole) in
    let absent : contains out (c ∷ p) ≡ false = rw⁻¹ piece (
      pieces_from-absent (length passkey) i passkey out (omega arith)
        (unfold contains_piece in found) w) in
    let held : contains part (c ∷ p) ≡ false = contains-IsInfix (c ∷ p) part out part_of absent in
    (
      rw (piece, same)
          (elim form [
            | inl plain ↦ rw plain held
            | inr dotted ↦ rw dotted (contains-dots c p part alnum held)
          ]),
      rw same (part, inside, size, form),
    )

-- An error of `Run` about missing credentials never gives the generated passkey away: what it quotes,
-- if anything, holds no four bytes of a passkey of letters and digits, and is, behind any dots, at most
-- 512 bytes from before the first marker.
pub run-secret :
    (ssh : List Bytes → Ssh) (cfg : Config) (id passkey : Bytes) (f : Failure) (e : Bytes) (i : ℕ)
    → run ssh cfg id passkey ≡ no_credentials f
    → f.shown ≡ some e
    → All (λ c. is_alnum c ≡ true) passkey
    → i + min_piece ≤ length passkey
    → (contains e (take min_piece (drop i passkey)) ≡ false)
      × Quotes (captured (answered ssh cfg id passkey)).buf e
run-secret ssh cfg id passkey f e i h shown letters w =
    start-secret cfg (answered ssh cfg id passkey) passkey f e i h shown letters w
