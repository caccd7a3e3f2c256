-- ===== src/Bootstrap/Command.antt =====
-- internal/bootstrap/command.go: the checks of a Config, and the command that ssh runs.
pub mod Safe
use et_go.Prelude.{
  ℕ, List, [], ◌∷◌, ◌++◌, Bool, true, false, not, ◌&&◌, ◌||◌, Option, none, some, Bytes, ◌==◌,
  if◌then◌else◌,
}
use et_go.Unicode.{runes, is_space, is_control}
use et_go.Strings.{has_prefix, has_byte, equal}
use et_go.Bootstrap.Parse.{is_alnum}

-- The fields of `Config` that the command depends on.
pub record Config : Type 0 where
  pub destination : Bytes
  pub user : Bytes
  pub terminal_path : Bytes
  pub term : Bytes
  pub ssh_options : List Bytes

-- defaultTerm "xterm-256color" and defaultTerminalPath "etterminal".
abbrev pub default_term : Bytes
default_term = 120 ∷ 116 ∷ 101 ∷ 114 ∷ 109 ∷ 45 ∷ 50 ∷ 53 ∷ 54 ∷ 99 ∷ 111 ∷ 108 ∷ 111 ∷ 114 ∷ []

abbrev pub default_terminal_path : Bytes
default_terminal_path = 101 ∷ 116 ∷ 116 ∷ 101 ∷ 114 ∷ 109 ∷ 105 ∷ 110 ∷ 97 ∷ 108 ∷ []

-- termExtra ".+-" and terminalPathExtra "._/~-".
abbrev pub term_extra : Bytes
term_extra = 46 ∷ 43 ∷ 45 ∷ []

abbrev pub terminal_path_extra : Bytes
terminal_path_extra = 46 ∷ 95 ∷ 47 ∷ 126 ∷ 45 ∷ []

-- shellMeta and userMeta.
abbrev pub shell_meta : Bytes
shell_meta =
    39 ∷ 96 ∷ 34 ∷ 36 ∷ 92 ∷ 59 ∷ 38 ∷ 60 ∷ 62 ∷ 124 ∷ 40 ∷ 41 ∷ 123 ∷ 125 ∷ 42 ∷ 63 ∷ 91 ∷ 93 ∷ []

abbrev pub user_meta : Bytes
user_meta = 39 ∷ 96 ∷ 34 ∷ 59 ∷ 38 ∷ 60 ∷ 62 ∷ 124 ∷ 40 ∷ 41 ∷ 123 ∷ 125 ∷ []

-- Go's `strings.ContainsAny` for a set of ASCII bytes.
unfoldable pub contains_any : Bytes → Bytes → Bool
contains_any [] chars = false
contains_any (b ∷ s) chars = has_byte chars b || contains_any s chars

-- `onlyAlnumOr`.
unfoldable pub all_alnum_or : Bytes → Bytes → Bool
all_alnum_or [] extra = true
all_alnum_or (b ∷ s) extra = (is_alnum b || has_byte extra b) && all_alnum_or s extra

unfoldable pub only_alnum_or : Bytes → Bytes → Bool
only_alnum_or [] extra = false
only_alnum_or (b ∷ s) extra = all_alnum_or (b ∷ s) extra

-- `hasSpaceOrControl` and `hasControl`.
abbrev pub any : (ℕ → Bool) → List ℕ → Bool
any f [] = false
any f (r ∷ rs) = f r || any f rs

abbrev pub has_space_or_control : Bytes → Bool
has_space_or_control s = any (λ r. is_space r || is_control r) (runes s)

abbrev pub has_control : Bytes → Bool
has_control s = any is_control (runes s)

-- `applyDefaults`.
abbrev pub or_default : Bytes → Bytes → Bytes
or_default [] d = d
or_default (b ∷ s) d = b ∷ s

unfoldable pub apply_defaults : Config → Config
apply_defaults cfg = record cfg {
  term = or_default cfg.term default_term;
  terminal_path = or_default cfg.terminal_path default_terminal_path;
}

-- The problems that `validate` tells apart.
pub data Problem : Type 0 where
  no_destination destination_option destination_space destination_meta : Problem
  user_name user_meta_char user_backslash two_users bad_term bad_path bad_option : Problem

abbrev pub is_empty : Bytes → Bool
is_empty [] = true
is_empty (b ∷ s) = false

-- A value that ends in a backslash.
unfoldable pub ends_in_backslash : Bytes → Bool
ends_in_backslash [] = false
ends_in_backslash (b ∷ []) = b == 92
ends_in_backslash (b ∷ (c ∷ s)) = ends_in_backslash (c ∷ s)

-- The loop over SSHOptions.
check_ssh_options : List Bytes → Option Problem
check_ssh_options [] = none
check_ssh_options (opt ∷ opts) =
    let rest = check_ssh_options opts in
    if is_empty opt || has_control opt then some bad_option else rest

-- `validate`.
unfoldable pub validate : Config → Option Problem
unfolding check_ssh_options
validate cfg =
    if is_empty cfg.destination
    then some no_destination
    else if has_prefix cfg.destination (45 ∷ [])
    then some destination_option
    else if has_space_or_control cfg.destination
    then some destination_space
    else if contains_any cfg.destination shell_meta
    then some destination_meta
    else if has_prefix cfg.user (45 ∷ []) || has_space_or_control cfg.user
    then some user_name
    else if contains_any cfg.user user_meta
    then some user_meta_char
    else if ends_in_backslash cfg.user
    then some user_backslash
    else if not (is_empty cfg.user) && has_byte cfg.destination 64
    then some two_users
    else if not (only_alnum_or cfg.term term_extra)
    then some bad_term
    else if not (only_alnum_or cfg.terminal_path terminal_path_extra)
    then some bad_path
    else check_ssh_options cfg.ssh_options

-- The constant parts of the remote command: "echo '", "/", "_", "' | " and " --verbose=0".
abbrev pub echo : Bytes
echo = 101 ∷ 99 ∷ 104 ∷ 111 ∷ 32 ∷ 39 ∷ []

abbrev pub pipe : Bytes
pipe = 39 ∷ 32 ∷ 124 ∷ 32 ∷ []

abbrev pub verbose : Bytes
verbose = 32 ∷ 45 ∷ 45 ∷ 118 ∷ 101 ∷ 114 ∷ 98 ∷ 111 ∷ 115 ∷ 101 ∷ 61 ∷ 48 ∷ []

-- `remoteCommand`.
unfoldable pub remote_command : Bytes → Bytes → Bytes → Bytes → Bytes
remote_command id passkey term path =
    echo ++ (id ++ (47 ∷ (passkey ++ (95 ∷ (term ++ (pipe ++ (path ++ verbose)))))))

-- `sshArgs`; "-o", "-l" and "--" are in bytes.
unfoldable pub option_args : List Bytes → List Bytes
option_args [] = []
option_args (opt ∷ opts) = (45 ∷ 111 ∷ opt) ∷ option_args opts

abbrev pub user_args : Bytes → List Bytes
user_args [] = []
user_args (b ∷ user) = (45 ∷ 108 ∷ []) ∷ (b ∷ user) ∷ []

unfoldable pub ssh_args : Config → Bytes → List Bytes
ssh_args cfg remote =
    option_args cfg.ssh_options
    ++ (user_args cfg.user ++ ((45 ∷ 45 ∷ []) ∷ cfg.destination ∷ remote ∷ []))
