-- ===== src/Bootstrap/Parse.antt =====
-- internal/bootstrap/parse.go: the credentials in the output of etterminal.
pub mod Exact
use et_go.Prelude.{
  ℕ, List, [], ◌∷◌, Bool, true, false, ◌&&◌, ◌||◌, not, Option, none, some, Bytes, length, drop,
  leb, ◌==◌, if◌then◌else◌,
}
use et_go.Strings.{cut}

-- idLen and passkeyLen of internal/bootstrap/placeholder.go.
abbrev pub id_len : ℕ
id_len = 16

abbrev pub passkey_len : ℕ
passkey_len = 32

-- The bytes of "IDPASSKEY:", and '/'.
abbrev pub marker : Bytes
marker = 73 ∷ 68 ∷ 80 ∷ 65 ∷ 83 ∷ 83 ∷ 75 ∷ 69 ∷ 89 ∷ 58 ∷ []

abbrev pub slash : ℕ
slash = 47

pub record Credentials : Type 0 where
  pub id : Bytes
  pub passkey : Bytes

-- The three ways to ErrNoCredentials, or the credentials.
pub data Parsed : Type 0 where
  no_marker malformed_id malformed_passkey : Parsed
  parsed : Credentials → Parsed

-- `isAlnum`.
unfoldable pub is_alnum : ℕ → Bool
is_alnum c = (leb 48 c && leb c 57) || ((leb 97 c && leb c 122) || (leb 65 c && leb c 90))

-- `alnumRun`.
unfoldable pub alnum_run : Bytes → Bytes
alnum_run [] = []
alnum_run (c ∷ b) = let run = c ∷ alnum_run b in if is_alnum c then run else []

-- The steps of `parseCredentials`, the last first.
take_passkey : Bytes → Bytes → Parsed
take_passkey id rest =
    let passkey = alnum_run rest in
    if length passkey == passkey_len
    then parsed (record { id = id; passkey = passkey })
    else malformed_passkey

-- By what follows the id.
take_slash : Bytes → Bytes → Parsed
take_slash id [] = malformed_id
take_slash id (c ∷ rest) = if c == slash then take_passkey id rest else malformed_id

take_id : Bytes → Parsed
take_id rest =
    let id = alnum_run rest in
    let n = length id in if n == id_len then take_slash id (drop n rest) else malformed_id

parse_rest : Option Bytes → Parsed
parse_rest none = no_marker
parse_rest (some rest) = take_id rest

-- `parseCredentials`.
unfoldable pub parse_credentials : Bytes → Parsed
unfolding take_passkey take_slash take_id parse_rest
parse_credentials out = parse_rest (cut marker out)
