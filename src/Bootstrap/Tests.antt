-- ===== src/Bootstrap/Tests.antt =====
-- A run of internal/bootstrap's parser.
mod Shown
use et_go.Prelude.{
  ℕ, zero, suc, ◌≡◌, refl, ◌↔◌, List, [], ◌∷◌, ◌++◌, Bytes, replicate, All, true, false, none, some,
  pos, take, drop, length, ◌==◌, if◌then◌else◌, arith,
}
use et_go.Bootstrap.Parse.{
  Credentials, parsed, no_marker, marker, is_alnum, alnum_run, parse_credentials,
}
use et_go.Strings.{
  cut_prefix, cut, count_byte, contains, has_byte, equal, before, trim_space, cut_space, trim_front,
}
use et_go.Unicode.{runes, runes_for, decode_rune, lead, is_space, is_control}
use et_go.Bootstrap.Parse.Exact.{Names, parse_credentials-exact}
use et_go.Bootstrap.Command.{
  Config, apply_defaults, validate, default_term, remote_command, only_alnum_or, all_alnum_or,
  contains_any, ends_in_backslash,
}
use et_go.Bootstrap.Command.Safe.{shell, prompt, session_line, remote_command-shell}
use et_go.Bootstrap.Start.{
  Ssh, exited, Failure, start, run, answered, credentials, no_credentials, captured, write_all,
  capped_write, min_piece, pieces_from, contains_piece, excerpt, skip_to_rune,
}
use et_go.Bootstrap.Start.Secret.{Quotes, run-secret}
use et_go.Bootstrap.Start.Given.{run-credentials}

abbrev answer : Credentials
answer = record { id = replicate 16 88; passkey = replicate 32 57 }

-- A banner, the line with the credentials, and a newline.
abbrev output : Bytes
output =
    (72 ∷ 73 ∷ 10 ∷ []) ++ (marker ++ (replicate 16 88 ++ (47 ∷ (replicate 32 57 ++ (10 ∷ [])))))

parse_credentials-exact_example : (parse_credentials output ≡ parsed answer) ↔ Names answer output
parse_credentials-exact_example = parse_credentials-exact output answer

parse_run : parse_credentials output ≡ parsed answer
unfolding parse_credentials alnum_run cut cut_prefix is_alnum
parse_run = refl

-- A Config with a user and an option, and the defaults.
abbrev config : Config
config = record {
  destination = 104 ∷ [];
  user = 109 ∷ 101 ∷ [];
  terminal_path = [];
  term = [];
  ssh_options = (65 ∷ 61 ∷ 98 ∷ []) ∷ [];
}

config_valid : validate (apply_defaults config) ≡ none
unfolding validate apply_defaults only_alnum_or all_alnum_or contains_any ends_in_backslash has_byte
    is_alnum cut_prefix equal runes runes_for decode_rune lead is_space is_control
config_valid = refl

config_term : (apply_defaults config).term ≡ default_term
unfolding apply_defaults
config_term = refl

letters : (n c : ℕ) → is_alnum c ≡ true → All (λ c. is_alnum c ≡ true) (replicate n c)
letters zero c h = tt
letters (suc n) c h = (h, letters n c h)

is_nine : is_alnum 57 ≡ true
unfolding is_alnum
is_nine = refl

remote_command-shell_example :
    (shell
        (remote_command
          (replicate 16 57)
          (replicate 32 57)
          (apply_defaults config).term
          (apply_defaults config).terminal_path)
        prompt
      ≡ some (
          ((101 ∷ 99 ∷ 104 ∷ 111 ∷ [])
            ∷ session_line (replicate 16 57) (replicate 32 57) (apply_defaults config).term
            ∷ [])
          ∷ ((apply_defaults config).terminal_path
              ∷ (45 ∷ 45 ∷ 118 ∷ 101 ∷ 114 ∷ 98 ∷ 111 ∷ 115 ∷ 101 ∷ 61 ∷ 48 ∷ [])
              ∷ [])
          ∷ []))
    × (count_byte (session_line (replicate 16 57) (replicate 32 57) (apply_defaults config).term) 95
        ≡ 1)
remote_command-shell_example =
    remote_command-shell (apply_defaults config) (replicate 16 57) (replicate 32 57) config_valid
      (λ e. cc) (letters 16 57 is_nine) (letters 32 57 is_nine)

-- Writes past the limit.
abbrev in_pieces : List Bytes
in_pieces = (1 ∷ 2 ∷ []) ∷ (3 ∷ 4 ∷ []) ∷ (5 ∷ []) ∷ []

-- An ssh whose output has no marker, and one with credentials.
abbrev refused_login : Ssh
refused_login = record {
  found = true;
  result = exited (pos 255);
  output = (110 ∷ 111 ∷ []) ∷ [];
  ended = none;
}

abbrev logged_in : Ssh
logged_in = record refused_login { output = output ∷ [] }

abbrev refusal : Failure
refusal = record {
  problem = no_marker;
  result = exited (pos 255);
  overflowed = false;
  shown = some (110 ∷ 111 ∷ []);
}

-- An ssh that prints credentials where it is given four arguments behind "-oA=b", else fails.
abbrev ssh : List Bytes → Ssh
ssh args = if length args == 6 then logged_in else refused_login

start_refused : run (λ args. refused_login) config [] (replicate 32 57) ≡ no_credentials refusal
unfolding start validate apply_defaults only_alnum_or all_alnum_or contains_any ends_in_backslash
    has_byte is_alnum cut_prefix cut equal runes runes_for decode_rune lead is_space is_control
    write_all capped_write parse_credentials contains_piece pieces_from excerpt before trim_space
    cut_space trim_front skip_to_rune
start_refused = refl

run-secret_example :
    (contains (110 ∷ 111 ∷ []) (take min_piece (drop 28 (replicate 32 57))) ≡ false)
    × Quotes
        (captured (answered (λ args. refused_login) config [] (replicate 32 57))).buf
        (110 ∷ 111 ∷ [])
run-secret_example =
    run-secret (λ args. refused_login) config [] (replicate 32 57) refusal (110 ∷ 111 ∷ []) 28
      start_refused refl (letters 32 57 is_nine) (omega arith)

run-credentials_example :
    (run ssh config (replicate 16 48) (replicate 32 48) ≡ credentials answer) ↔ (
      (validate (apply_defaults config) ≡ none)
      × ((answered ssh config (replicate 16 48) (replicate 32 48)).found ≡ true)
      × (parse_credentials (captured (answered ssh config (replicate 16 48) (replicate 32 48))).buf
          ≡ parsed answer)
      × ((answered ssh config (replicate 16 48) (replicate 32 48)).ended ≡ none))
run-credentials_example = run-credentials ssh config (replicate 16 48) (replicate 32 48) answer
