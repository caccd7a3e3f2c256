-- ===== src/Cmd/Tests.antt =====
-- Concrete runs of cmd/et.
use et_go.Prelude.{List, ◌≡◌, refl, [], ◌∷◌, ◌++◌, false, none, some, Bytes, replicate, arith, pos}
use et_go.Strings.{
  cut, cut_prefix, cut_last_byte, atoi, has_byte, itoa, itoa_digits, cut_byte, digits,
}
use et_go.Etcp.Dialer.{check_options}
use et_go.Bootstrap.Parse.{Credentials, parsed, marker, parse_credentials, alnum_run, is_alnum}
use et_go.Cmd.Destination.{Destination, parse_destination}
use et_go.Cmd.Destination.Printing.{Printable}
use et_go.Cmd.Flags.{Flags, flags, Options, accepted, parse_args}
use et_go.Cmd.Flags.Accepted.{parse_args-check_options}
use et_go.Cmd.Run.{Steps, connect, dialer_of, other}
use et_go.Cmd.Run.Resources.{play, nothing, connect-nothing}
use et_go.Bootstrap.Command.{Config}
use et_go.Cmd.Resolve.{hostname, Ended, well}

-- "me@[::1]:22".
abbrev local_host : Destination
local_host = record { user = 109 ∷ 101 ∷ []; host = 58 ∷ 58 ∷ 49 ∷ []; port = 22 }

abbrev local_text : Bytes
local_text = 109 ∷ 101 ∷ 64 ∷ 91 ∷ 58 ∷ 58 ∷ 49 ∷ 93 ∷ 58 ∷ 50 ∷ 50 ∷ []

printable : Printable local_host
unfolding has_byte cut_prefix cut itoa itoa_digits
printable = (((λ e. cc), refl, refl, omega arith), refl, refl, refl, refl)

abbrev given : Flags
given = record {
  user = [];
  port = pos 2022;
  port_set = false;
  terminal_path = [];
  ssh_options = [];
  keep_alive = pos 5;
  verbose = false;
  log_file = [];
  show_version = false;
  args = local_text ∷ [];
}

abbrev chosen : Options
chosen = record {
  user = 109 ∷ 101 ∷ [];
  host = 58 ∷ 58 ∷ 49 ∷ [];
  port = 22;
  terminal_path = [];
  ssh_options = [];
  keep_alive = 5;
  verbose = false;
  log_file = [];
}

is_chosen : parse_args (flags given) ≡ accepted chosen
unfolding parse_args parse_destination cut_last_byte cut_prefix has_byte cut atoi cut_byte digits
is_chosen = refl

abbrev key : Credentials
key = record { id = replicate 16 88; passkey = replicate 32 57 }

abbrev key_line : Bytes
key_line = marker ++ (replicate 16 88 ++ (47 ∷ (replicate 32 57 ++ (10 ∷ []))))

key_parsed : parse_credentials key_line ≡ parsed key
unfolding parse_credentials alnum_run cut cut_prefix is_alnum
key_parsed = refl

parse_args-check_options_example : check_options (replicate 32 57) (dialer_of chosen) ≡ none
parse_args-check_options_example =
    parse_args-check_options given chosen key_line key is_chosen key_parsed

-- The dial fails.
abbrev no_server : Steps
no_server = record {
  open_console = none;
  bootstrap = none;
  dial = some (other 0);
  start = none;
  make_raw = none;
  run = none;
}

connect-nothing_example : play (connect no_server).1 nothing ≡ some nothing
connect-nothing_example = connect-nothing no_server

-- An ssh that prints a host name for any arguments.
abbrev ssh : List Bytes → Ended × Bytes
ssh args = (well, hostname ++ (32 ∷ (49 ∷ 48 ∷ (10 ∷ []))))

abbrev aliased : Config
aliased = record {
  destination = 98 ∷ [];
  user = 109 ∷ [];
  terminal_path = [];
  term = [];
  ssh_options = (65 ∷ []) ∷ [];
}
