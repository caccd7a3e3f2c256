-- ===== src/Bootstrap/Tests/Shown.antt =====
-- Two passkeys that look alike.
use et_go.Prelude.{◌≡◌, refl, [], ◌∷◌, true, Bytes, pos, ℤ, negsuc, ◌++◌}
use et_go.Strings.{codes, itoa}
use et_go.Protocol.Redact.{TerminalUserInfo}
use et_go.Seal
use et_go.Bootstrap.Credentials.{Credentials, new_credentials, format_credentials}

abbrev quoted : Bytes → Bytes
quoted b = 34 ∷ (b ++ (34 ∷ []))

abbrev decimal : ℤ → Bytes
decimal (pos n) = itoa n
decimal (negsuc n) = []

abbrev as_json : Bytes → Bytes → Bytes
as_json id passkey = id ++ passkey

abbrev info : TerminalUserInfo
info = record { id = codes "a"; passkey = codes "b"; uid = pos 1; gid = pos 2; fd = pos 3 }

abbrev one : Credentials
one = new_credentials (codes "a") (codes "b")

abbrev other : Credentials
other = new_credentials (codes "a") (codes "c")

abbrev stream : Seal.Stream
stream = record { key = 1 ∷ []; nonce = 5 ∷ 1 ∷ [] }

abbrev later : Seal.Stream
later = record { key = 2 ∷ []; nonce = 9 ∷ 1 ∷ [] }

shown :
    format_credentials quoted 118 true one
    ≡ codes "bootstrap.Credentials{ID:\"a\", Passkey:\"REDACTED\"}"
unfolding new_credentials format_credentials
shown = refl
