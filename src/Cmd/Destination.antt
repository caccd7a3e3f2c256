-- ===== src/Cmd/Destination.antt =====
-- cmd/et/flags.go: the destination argument.
pub mod Printing
use et_go.Prelude.{
  ℕ, zero, suc, ◌+◌, List, [], ◌∷◌, ◌++◌, Bool, true, false, Option, none, some, Bytes, ltb, ◌==◌,
  if◌then◌else◌, ℤ, pos, negsuc,
}
use et_go.Strings.{contains, has_prefix, cut_byte, cut_last_byte, count_byte, atoi}

-- `destination`; a port of 0 is none.
pub record Destination : Type 0 where
  pub user : Bytes
  pub host : Bytes
  pub port : ℕ

-- The usage errors of `parseDestination`.
pub data DestErr : Type 0 where
  uri empty_user user_option missing_bracket after_bracket : DestErr
  empty_port empty_host host_option invalid_port : DestErr

pub data Result (A : Type 0) : Type 0 where
  ok : A → Result A
  usage : DestErr → Result A

-- '-', '@', '[', ']', ':', and "://".
abbrev pub dash : Bytes
dash = 45 ∷ []

abbrev pub scheme : Bytes
scheme = 58 ∷ 47 ∷ 47 ∷ []

-- The text of the port behind its colon.
port_text : Bytes → Bytes → Result (Bytes × Bytes)
port_text host [] = usage empty_port
port_text host (c ∷ p) = ok (host, c ∷ p)

-- What is behind the closing bracket.
behind_bracket : Bytes → Bytes → Result (Bytes × Bytes)
behind_bracket host [] = ok (host, [])
behind_bracket host (c ∷ p) = if c == 58 then port_text host p else usage after_bracket

bracketed : Option (Bytes × Bytes) → Result (Bytes × Bytes)
bracketed none = usage missing_bracket
bracketed (some (host, rest)) = behind_bracket host rest

unbracketed : Bytes → Option (Bytes × Bytes) → Result (Bytes × Bytes)
unbracketed s none = ok (s, [])
unbracketed s (some (host, p)) = port_text host p

-- The switch in `parseDestination`: the host, and the text of the port, empty without one.
plain_host : Bytes → Result (Bytes × Bytes)
plain_host s = if ltb 1 (count_byte s 58) then ok (s, []) else unbracketed s (cut_byte 58 s)

host_port : Bytes → Result (Bytes × Bytes)
host_port [] = plain_host []
host_port (c ∷ s) = if c == 91 then bracketed (cut_byte 93 s) else plain_host (c ∷ s)

checked_port : Option ℤ → Result ℕ
checked_port none = usage invalid_port
checked_port (some (negsuc n)) = usage invalid_port
checked_port (some (pos n)) =
    if ltb n 1 then usage invalid_port else if ltb 65535 n then usage invalid_port else ok n

port_number : Bytes → Result ℕ
port_number [] = ok 0
port_number (c ∷ text) = checked_port (atoi (c ∷ text))

with_port : Bytes → Bytes → Result ℕ → Result Destination
with_port user host (usage e) = usage e
with_port user host (ok n) = ok (record { user = user; host = host; port = n })

with_host : Bytes → Result (Bytes × Bytes) → Result Destination
with_host user (usage e) = usage e
with_host user (ok ([], text)) = usage empty_host
with_host user (ok (c ∷ host, text)) =
    if has_prefix (c ∷ host) dash
    then usage host_option
    else with_port user (c ∷ host) (port_number text)

-- The user before the last '@'.
with_user : Bytes → Option (Bytes × Bytes) → Result Destination
with_user s none = with_host [] (host_port s)
with_user s (some ([], after)) = usage empty_user
with_user s (some (c ∷ user, after)) =
    if has_prefix (c ∷ user) dash then usage user_option else with_host (c ∷ user) (host_port after)

-- `parseDestination`.
unfoldable pub parse_destination : Bytes → Result Destination
unfolding port_text behind_bracket bracketed unbracketed plain_host host_port checked_port
    port_number with_port with_host with_user
parse_destination s = if contains s scheme then usage uri else with_user s (cut_last_byte 64 s)
