-- ===== src/Seal/Shown.antt =====
-- internal/seal/seal.go: how a Stream is formatted and logged. `none` is the zero value.
use et_go.Prelude.{ℕ, [], ◌∷◌, ◌++◌, Option, none, some, Bytes, ℤ, pos}
use et_go.Strings.{codes}
use et_go.Protocol.Redact.{LogGroup, log_text, log_int, redacted}
use et_go.Seal.{Stream}

-- The last byte of the nonce.
abbrev pub last_byte : Bytes → ℕ
last_byte [] = 0
last_byte (b ∷ []) = b
last_byte (b ∷ c ∷ bs) = last_byte (c ∷ bs)

-- `Stream.Format`.
unfoldable pub format_stream : (ℤ → Bytes) → Option Stream → Bytes
format_stream decimal none = codes "seal.Stream{}"
format_stream decimal (some s) =
    codes "seal.Stream{dir:" ++ (decimal (pos (last_byte s.nonce)) ++ codes " key:REDACTED}")

-- `Stream.LogValue`.
unfoldable pub log_stream : Option Stream → LogGroup
log_stream none = []
log_stream (some s) =
    (codes "dir", log_int (pos (last_byte s.nonce))) ∷ (codes "key", log_text redacted) ∷ []
