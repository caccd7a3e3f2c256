-- ===== src/Bootstrap/Credentials.antt =====
-- internal/bootstrap/credentials.go: the session's id and passkey, and how they are shown.
--
-- `quote` is fmt's %q, and `json` what json.Marshal makes of the two fields.
pub mod Alike
use et_go.Prelude.{
  ℕ, List, [], ◌∷◌, ◌++◌, Bool, true, false, ◌&&◌, ◌==◌, Option, none, some, Bytes, if◌then◌else◌,
}
use et_go.Strings.{codes}
use et_go.Protocol.Redact.{LogGroup, log_text, redacted}

-- `Credentials`; none is a nil pointer.
pub record Credentials : Type 0 where
  pub id : Bytes
  pub passkey : Option Bytes

unfoldable pub new_credentials : Bytes → Bytes → Credentials
new_credentials id passkey = record { id = id; passkey = some passkey }

-- `Passkey`.
unfoldable pub passkey_of : Credentials → Bytes
passkey_of c = elim c.passkey [ none ↦ [] | some p ↦ p ]

-- `String`.
unfoldable pub string_of : Credentials → Bytes
string_of c = codes "{ID:" ++ (c.id ++ (codes " Passkey:" ++ (redacted ++ codes "}")))

-- `Format`, with its verb and whether the flag '#' is set.
unfoldable pub format_credentials : (Bytes → Bytes) → ℕ → Bool → Credentials → Bytes
unfolding string_of
format_credentials quote verb sharp c =
    if verb == b'v' && sharp
    then codes "bootstrap.Credentials{ID:"
      ++ (quote c.id ++ (codes ", Passkey:" ++ (quote redacted ++ codes "}")))
    else string_of c

-- `MarshalJSON`, `MarshalText` and `LogValue`.
unfoldable pub marshal_json : (Bytes → Bytes → Bytes) → Credentials → Bytes
marshal_json json c = json c.id redacted

unfoldable pub marshal_text : Credentials → Bytes
unfolding string_of
marshal_text c = string_of c

unfoldable pub log_credentials : Credentials → LogGroup
log_credentials c = (codes "id", log_text c.id) ∷ (codes "passkey", log_text redacted) ∷ []
