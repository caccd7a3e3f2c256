-- ===== src/Bootstrap/Parse/Exact.antt =====
-- Which outputs carry credentials.
use et_go.Prelude.{
  ◌≡◌, ◌↔◌, inl, inr, refl, ap, ◌∙◌, sym, [], ◌∷◌, ◌++◌, true, false, some, Bytes, length, drop,
  All, arith, Bool-cases, Option-cases, drop-append,
}
use et_go.Strings.{cut}
use et_go.Strings.Laws.{cut-whole}
use et_go.Bootstrap.Parse.{
  id_len, passkey_len, marker, slash, Credentials, parsed, is_alnum, alnum_run, parse_credentials,
  take_passkey, take_slash, take_id, parse_rest,
}

-- Whether the run of letters and digits ends where `b` begins.
abbrev pub Ends : Bytes → Type 0
Ends [] = Unit
Ends (c ∷ b) = is_alnum c ≡ false

abbrev Letters : Bytes → Type 0
Letters b = All (λ c. is_alnum c ≡ true) b

-- A run is the longest front of letters and digits.
alnum_run-Letters :
    (b : Bytes) → (rest : Bytes) × (alnum_run b ++ rest ≡ b) × Letters (alnum_run b) × Ends rest
unfolding alnum_run
alnum_run-Letters [] = ([], refl, tt, tt)
alnum_run-Letters (c ∷ b) = elim (Bool-cases (is_alnum c)) [
  | inl e ↦
      let (rest, whole, letters, ends) = alnum_run-Letters b in
      rw e (rest, ap (λ x. c ∷ x) whole, (e, letters), ends)
  | inr e ↦ rw e (c ∷ b, refl, tt, e)
]

alnum_run-append : (a b : Bytes) → Letters a → Ends b → alnum_run (a ++ b) ≡ a
unfolding alnum_run
alnum_run-append [] [] l e = refl
alnum_run-append [] (c ∷ b) l e = ground arith
alnum_run-append (c ∷ a) b (l, ls) e = ground (arith, l, alnum_run-append a b ls e)

-- The output names `c` behind its first marker: 16 letters and digits, a slash, and 32 letters and
-- digits at which the run ends.
abbrev pub Names : Credentials → Bytes → Type 0
Names c out =
    (before after : Bytes) × (out ≡ before ++ (marker ++ (c.id ++ (slash ∷ (c.passkey ++ after)))))
    × (cut marker out ≡ some (c.id ++ (slash ∷ (c.passkey ++ after))))
    × (length c.id ≡ id_len)
    × (length c.passkey ≡ passkey_len)
    × Letters c.id
    × Letters c.passkey
    × Ends after

slash-Ends : (b : Bytes) → Ends (slash ∷ b)
unfolding is_alnum
slash-Ends b = refl

take_passkey-exact :
    (id rest : Bytes) (c : Credentials)
    → take_passkey id rest ≡ parsed c
    → (after : Bytes) × (id ≡ c.id)
      × (rest ≡ c.passkey ++ after)
      × (length c.passkey ≡ passkey_len)
      × Letters c.passkey
      × Ends after
unfolding take_passkey
take_passkey-exact id rest c e =
    let (after, whole, letters, ends) = alnum_run-Letters rest in
    let run : alnum_run rest ≡ c.passkey = ground (arith, e) in
    (
      after,
      ground (arith, e),
      ground (arith, run, whole),
      ground (arith, e),
      rw⁻¹ run letters,
      ends,
    )

take_slash-exact :
    (id rest : Bytes) (c : Credentials)
    → take_slash id rest ≡ parsed c
    → (after : Bytes) × (id ≡ c.id)
      × (rest ≡ slash ∷ (c.passkey ++ after))
      × (length c.passkey ≡ passkey_len)
      × Letters c.passkey
      × Ends after
unfolding take_slash
take_slash-exact id [] c e = absurd (ground (arith, e))
take_slash-exact id (x ∷ rest) c e =
    let at : x ≡ slash = ground (arith, e) in
    let (after, same, whole, size, letters, ends) =
      take_passkey-exact id rest c (ground (arith, e)) in
    (after, same, ground (arith, at, whole), size, letters, ends)

take_id-exact :
    (rest : Bytes) (c : Credentials)
    → take_id rest ≡ parsed c
    → (after : Bytes) × (rest ≡ c.id ++ (slash ∷ (c.passkey ++ after)))
      × (length c.id ≡ id_len)
      × (length c.passkey ≡ passkey_len)
      × Letters c.id
      × Letters c.passkey
      × Ends after
unfolding take_id
take_id-exact rest c e =
    let (tail, split, letters, _) = alnum_run-Letters rest in
    let run = alnum_run rest in
    let behind : drop (length run) rest ≡ tail =
      ap (drop (length run)) (sym split) ∙ drop-append run tail in
    let size : length run ≡ id_len = ground (arith, e) in
    let went_on : take_slash run tail ≡ parsed c = ground (arith, e, behind) in
    let (after, same, whole, passkey_size, passkey_letters, ends) =
      take_slash-exact run tail c went_on in
    (
      after,
      ground (arith, split, same, whole),
      ground (arith, size, same),
      passkey_size,
      rw⁻¹ same letters,
      passkey_letters,
      ends,
    )

take_id_complete :
    (c : Credentials) (after : Bytes)
    → length c.id ≡ id_len
    → length c.passkey ≡ passkey_len
    → Letters c.id
    → Letters c.passkey
    → Ends after
    → take_id (c.id ++ (slash ∷ (c.passkey ++ after))) ≡ parsed c
unfolding take_id take_slash take_passkey
take_id_complete c after a b l k e = ground (
  arith,
  a,
  b,
  alnum_run-append c.id (slash ∷ (c.passkey ++ after)) l (slash-Ends (c.passkey ++ after)),
  drop-append c.id (slash ∷ (c.passkey ++ after)),
  alnum_run-append c.passkey after k e,
)

-- `parseCredentials` gives credentials exactly for an output that names them behind its first marker:
-- an id of 16 and a passkey of 32 letters and digits, a slash between them, and no letter or digit
-- behind.
pub parse_credentials-exact :
    (out : Bytes) (c : Credentials) → (parse_credentials out ≡ parsed c) ↔ Names c out
unfolding parse_credentials parse_rest
parse_credentials-exact out c = (
  λ e. elim (Option-cases (cut marker out)) [
    | inl f ↦ absurd (ground (arith, e, f))
    | inr (rest, f) ↦
        let (after, whole, a, b, l, k, z) = take_id-exact rest c (ground (arith, e, f)) in
        let found = f ∙ ap some whole in
        let (before, all) = cut-whole marker out _ found in
        (before, after, all, found, a, b, l, k, z)
  ],
  λ n. rw n.3 (take_id_complete c n.1 n.4 n.5 n.6 n.7 n.8),
)
