-- ===== src/Protocol/Redact.antt =====
-- internal/protocol/redact.go: how a TerminalUserInfo is formatted and logged.
--
-- The formatting of %q and %d is fmt's: `quote` and `decimal`. A value of slog is a group of texts and
-- numbers.
use et_go.Prelude.{List, [], ◌∷◌, ◌++◌, Option, none, some, Bytes, ℤ, pos}
use et_go.Strings.{codes}

pub data LogValue : Type 0 where
  log_text : Bytes → LogValue
  log_int : ℤ → LogValue

-- `slog.GroupValue`.
abbrev pub LogGroup : Type 0
LogGroup = List (Bytes × LogValue)

-- The fields of the message that its getters give.
pub record TerminalUserInfo : Type 0 where
  pub id : Bytes
  pub passkey : Bytes
  pub uid : ℤ
  pub gid : ℤ
  pub fd : ℤ

abbrev pub redacted : Bytes
redacted = codes "REDACTED"

module _ (quote : Bytes → Bytes) (decimal : ℤ → Bytes) where
  -- `TerminalUserInfo.Format`; none is a nil message.
  unfoldable pub format_info : Option TerminalUserInfo → Bytes
  format_info none = codes "<nil>"
  format_info (some x) =
      codes "TerminalUserInfo{id:"
      ++ (quote x.id
          ++ (codes " passkey:REDACTED uid:"
              ++ (decimal x.uid
                  ++ (codes " gid:"
                      ++ (decimal x.gid ++ (codes " fd:" ++ (decimal x.fd ++ codes "}")))))))

info_group : Bytes → ℤ → ℤ → ℤ → LogGroup
info_group id uid gid fd =
    (codes "id", log_text id)
    ∷ (codes "passkey", log_text redacted)
    ∷ (codes "uid", log_int uid)
    ∷ (codes "gid", log_int gid)
    ∷ (codes "fd", log_int fd)
    ∷ []

-- `TerminalUserInfo.LogValue`.
unfoldable pub log_info : Option TerminalUserInfo → LogGroup
unfolding info_group
log_info none = info_group [] (pos 0) (pos 0) (pos 0)
log_info (some x) = info_group x.id x.uid x.gid x.fd
