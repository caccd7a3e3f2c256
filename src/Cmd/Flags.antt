-- ===== src/Cmd/Flags.antt =====
-- cmd/et/flags.go: the options of the command line.
--
-- `Flags` is what the flag package has stored when Parse returned nil; `port_set` is that Visit named "p"
-- or "port". A flag's int is an integer, as it may be negative.
pub mod Accepted
use et_go.Prelude.{
  ℕ, ◌+◌, ◌*◌, List, [], ◌∷◌, Bool, true, false, not, ◌&&◌, ◌||◌, Option, none, some, Bytes, ltb,
  ◌==◌, if◌then◌else◌, ℤ, pos, negsuc,
}
use et_go.Strings.{has_prefix, equal}
use et_go.Cmd.Destination.{Destination, DestErr, Result, ok, usage, dash, parse_destination}

-- defaultPort.
abbrev pub default_port : ℕ
default_port = 2022

pub record Flags : Type 0 where
  pub user : Bytes
  pub port : ℤ
  pub port_set : Bool
  pub terminal_path : Bytes
  pub ssh_options : List Bytes
  pub keep_alive : ℤ
  pub verbose : Bool
  pub log_file : Bytes
  pub show_version : Bool
  pub args : List Bytes

-- What Parse returned: flag.ErrHelp, another error, or nil.
pub data FlagParse : Type 0 where
  help bad_flag : FlagParse
  flags : Flags → FlagParse

-- `options`, with the keep-alive in seconds.
pub record Options : Type 0 where
  pub user : Bytes
  pub host : Bytes
  pub port : ℕ
  pub terminal_path : Bytes
  pub ssh_options : List Bytes
  pub keep_alive : ℕ
  pub verbose : Bool
  pub log_file : Bytes

pub data ArgErr : Type 0 where
  bad_flags bad_count port_conflict port_range user_conflict user_option bad_keep_alive : ArgErr
  bad_destination : DestErr → ArgErr

pub data Parsed : Type 0 where
  shows_help shows_version : Parsed
  refused : ArgErr → Parsed
  accepted : Options → Parsed

abbrev pub is_port : ℕ → ℤ → Bool
is_port n (pos m) = n == m
is_port n (negsuc m) = false

-- The port of both sources; none is their conflict.
abbrev pub merged_port : ℕ → Bool → ℤ → Option ℤ
merged_port n set port =
    if n == 0 then some port else if set && not (is_port n port) then none else some (pos n)

abbrev pub merged_user : Bytes → Bytes → Option Bytes
merged_user [] user = some user
merged_user (c ∷ d) [] = some (c ∷ d)
merged_user (c ∷ d) (b ∷ user) = if equal (c ∷ d) (b ∷ user) then some (c ∷ d) else none

-- The checks from the last to the first.
with_keep_alive : Flags → Bytes → Bytes → ℕ → ℤ → Parsed
with_keep_alive f host user port (negsuc n) = refused bad_keep_alive
with_keep_alive f host user port (pos n) =
    if ltb n 1
    then refused bad_keep_alive
    else if ltb 5 n
    then refused bad_keep_alive
    else accepted (record {
      user = user;
      host = host;
      port = port;
      terminal_path = f.terminal_path;
      ssh_options = f.ssh_options;
      keep_alive = n;
      verbose = f.verbose;
      log_file = f.log_file;
    })

with_name : Flags → Bytes → ℕ → Option Bytes → Parsed
with_name f host port none = refused user_conflict
with_name f host port (some user) =
    if has_prefix user dash
    then refused user_option
    else with_keep_alive f host user port f.keep_alive

in_port_range : Flags → Destination → Option ℤ → Parsed
in_port_range f d none = refused port_conflict
in_port_range f d (some (negsuc n)) = refused port_range
in_port_range f d (some (pos n)) =
    if ltb n 1
    then refused port_range
    else if ltb 65535 n
    then refused port_range
    else with_name f d.host n (merged_user d.user f.user)

with_destination : Flags → Result Destination → Parsed
with_destination f (usage e) = refused (bad_destination e)
with_destination f (ok d) = in_port_range f d (merged_port d.port f.port_set f.port)

with_args : Flags → List Bytes → Parsed
with_args f (arg ∷ []) = with_destination f (parse_destination arg)
with_args f _ = refused bad_count

-- `parseArgs`.
unfoldable pub parse_args : FlagParse → Parsed
unfolding with_keep_alive with_name in_port_range with_destination with_args
parse_args help = shows_help
parse_args bad_flag = refused bad_flags
parse_args (flags f) = if f.show_version then shows_version else with_args f f.args
