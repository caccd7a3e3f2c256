-- ===== src/Cmd/Resolve.antt =====
-- cmd/et/resolve.go: the host name that ssh would connect to.
--
-- The process is an argument: what it printed and how it ended, by its arguments.
pub mod Part
use et_go.Prelude.{List, [], ◌∷◌, ◌++◌, Bool, true, false, Option, none, some, Bytes, if◌then◌else◌}
use et_go.Strings.{cut_byte, equal, trim_space, lines}
use et_go.Bootstrap.Command.{option_args, user_args}

-- "hostname", "-G" and "--".
abbrev pub hostname : Bytes
hostname = 104 ∷ 111 ∷ 115 ∷ 116 ∷ 110 ∷ 97 ∷ 109 ∷ 101 ∷ []

abbrev pub query_option : Bytes
query_option = 45 ∷ 71 ∷ []

abbrev pub end_of_options : Bytes
end_of_options = 45 ∷ 45 ∷ []

-- One line of the output, none where it is not the hostname's.
named_value : Option (Bytes × Bytes) → Option Bytes
named_value none = none
named_value (some (key, val)) = if equal key hostname then some (trim_space val) else none

unfoldable pub line_value : Bytes → Option Bytes
unfolding named_value
line_value line = named_value (cut_byte 32 (trim_space line))

or_next : Option Bytes → Bytes → Bytes
or_next (some h) rest = h
or_next none rest = rest

-- The loop of `sshConfigHostname`.
unfoldable pub first_value : List Bytes → Bytes
unfolding or_next
first_value [] = []
first_value (l ∷ ls) = let rest = first_value ls in or_next (line_value l) rest

abbrev pub ssh_config_hostname : Bytes → Bytes
ssh_config_hostname out = first_value (lines out)

abbrev pub resolve_args : Bytes → Bytes → List Bytes → List Bytes
resolve_args user host opts =
    option_args opts ++ (user_args user ++ (query_option ∷ (end_of_options ∷ (host ∷ []))))

-- How ssh ended.
pub data Ended : Type 0 where
  well wait_delay failed : Ended

or_host : Bytes → Bytes → Bytes
or_host host [] = host
or_host host (c ∷ h) = c ∷ h

by_output : Ended → Bytes → Bytes → Bytes
by_output failed host out = host
by_output well host out = or_host host (ssh_config_hostname out)
by_output wait_delay host out = or_host host (ssh_config_hostname out)

-- `resolveHost`.
unfoldable pub resolve_host : (List Bytes → Ended × Bytes) → Bytes → Bytes → List Bytes → Bytes
unfolding or_host by_output
resolve_host ssh user host opts =
    let r = ssh (resolve_args user host opts) in by_output r.0 host r.1
