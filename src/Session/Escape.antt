-- ===== src/Session/Escape.antt =====
-- internal/session/escape.go: the local escape on the keyboard stream.
pub mod Reading
use et_go.Prelude.{
  List, [], ◌∷◌, ◌++◌, ℕ, Bool, true, false, not, ◌||◌, ◌&&◌, Bytes, ◌==◌, if◌then◌else◌,
}

-- The bytes '~', '.', CR and LF.
abbrev pub tilde_byte : ℕ
tilde_byte = 126

abbrev pub dot_byte : ℕ
dot_byte = 46

abbrev pub is_newline : ℕ → Bool
is_newline b = b == 13 || b == 10

pub record EscapeFilter : Type 0 where
  pub mid_line : Bool
  pub tilde : Bool

pub record Filtered : Type 0 where
  pub out : Bytes
  pub detach : Bool
  pub filter_state : EscapeFilter

-- What one byte of the input comes to: the end of the session, or some bytes to send.
pub data ByteResult : Type 0 where
  detached : ByteResult
  sends : Bytes → EscapeFilter → ByteResult

-- The end of the loop's body: the byte is sent, and a line may begin behind it.
abbrev pub pass : Bytes → ℕ → ByteResult
pass before b = sends (before ++ (b ∷ [])) (record { mid_line = not (is_newline b); tilde = false })

-- The body of the loop in `filter`.
unfoldable pub filter_byte : ℕ → EscapeFilter → ByteResult
filter_byte b f =
    if f.tilde
    then if b == dot_byte
      then detached
      else if b == tilde_byte
      then sends (tilde_byte ∷ []) (record { mid_line = true; tilde = false })
      else pass (tilde_byte ∷ []) b
    else if not f.mid_line && b == tilde_byte
    then sends [] (record f { tilde = true })
    else pass [] b

-- `filter`: what is appended to dst, and whether the input ended in the escape. The state behind an
-- escape has its tilde taken back.
unfoldable pub filter : Bytes → EscapeFilter → Filtered
unfolding filter_byte
filter [] f = record { out = []; detach = false; filter_state = f }
filter (b ∷ src) f = elim (filter_byte b f) [
  | detached ↦ record { out = []; detach = true; filter_state = record f { tilde = false } }
  | sends bs f' ↦
      let r = filter src f' in
      record { out = bs ++ r.out; detach = r.detach; filter_state = r.filter_state }
]
