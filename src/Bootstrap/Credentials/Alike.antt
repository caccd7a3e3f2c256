-- ===== src/Bootstrap/Credentials/Alike.antt =====
-- Nothing that is shown tells two secrets apart.
use et_go.Prelude.{ℕ, ◌≡◌, refl, Bool, some, Bytes, ℤ}
use et_go.Protocol.Redact.{TerminalUserInfo, format_info, log_info}
use et_go.Seal
use et_go.Seal.Shown.{last_byte, format_stream, log_stream}
use et_go.Bootstrap.Credentials.{
  new_credentials, passkey_of, format_credentials, marshal_json, marshal_text, log_credentials,
}

-- The message that carries the passkey, with another one.
abbrev pub with_passkey : Bytes → TerminalUserInfo → TerminalUserInfo
with_passkey passkey x = record x { passkey = passkey }

-- The passkey is given back by `Passkey` alone: every text, encoding and log entry of two credentials
-- with one id is the same whatever their passkeys, for every verb and flag; so are those of a
-- TerminalUserInfo with another passkey, and those of two streams of one direction, whatever their
-- keys and however far their counters are.
pub shown-alike :
    (quote : Bytes → Bytes) (decimal : ℤ → Bytes) (json : Bytes → Bytes → Bytes) (verb : ℕ)
    (sharp : Bool) (id p q : Bytes) (x : TerminalUserInfo) (s t : Seal.Stream)
    → last_byte s.nonce ≡ last_byte t.nonce
    → let c = new_credentials id p in
      let d = new_credentials id q in
      (passkey_of c ≡ p)
      × (format_credentials quote verb sharp c ≡ format_credentials quote verb sharp d)
      × (marshal_json json c ≡ marshal_json json d)
      × (marshal_text c ≡ marshal_text d)
      × (log_credentials c ≡ log_credentials d)
      × (format_info quote decimal (some x) ≡ format_info quote decimal (some (with_passkey q x)))
      × (log_info (some x) ≡ log_info (some (with_passkey q x)))
      × (format_stream decimal (some s) ≡ format_stream decimal (some t))
      × (log_stream (some s) ≡ log_stream (some t))
unfolding new_credentials passkey_of format_credentials marshal_json marshal_text log_credentials
    format_info log_info format_stream log_stream
shown-alike quote decimal json verb sharp id p q x s t same =
    (refl, refl, refl, refl, refl, refl, refl, rw same refl, rw same refl)
