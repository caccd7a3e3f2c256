-- ===== src/Bootstrap/Command/Safe.antt =====
-- What a shell and etterminal make of the remote command.
use et_go.Prelude.{
  ℕ, ◌≡◌, ◌≢◌, refl, sym, ap, ◌∙◌, List, [], ◌∷◌, ◌++◌, Bool, true, false, ◌||◌, Option, none, some,
  Bytes, ◌==◌, if◌then◌else◌, All, arith, append_assoc, append-nil,
}
use et_go.Strings.{has_byte, count_byte}
use et_go.Strings.Laws.{count_byte-append, has_byte-append}
use et_go.Bootstrap.Parse.{is_alnum}
use et_go.Bootstrap.Command.{
  Config, validate, only_alnum_or, all_alnum_or, remote_command, term_extra, terminal_path_extra,
  echo, pipe, verbose,
}

-- A POSIX shell reading one line of simple commands in a pipe: single quotes, spaces and '|'. Every
-- other byte outside quotes must be one that no shell treats specially ('~' it expands).
pub record Shell : Type 0 where
  pub quoted : Bool
  pub word : Bytes
  pub words : List Bytes
  pub commands : List (List Bytes)

abbrev pub is_plain : ℕ → Bool
is_plain c = is_alnum c || has_byte (46 ∷ 95 ∷ 47 ∷ 126 ∷ 45 ∷ 61 ∷ []) c

abbrev end_word : Bytes → List Bytes → List Bytes
end_word [] ws = ws
end_word (c ∷ w) ws = ws ++ ((c ∷ w) ∷ [])

abbrev reads : Shell → ℕ → Option Shell
reads s c =
    if s.quoted
    then if c == 39
      then some (record s { quoted = false })
      else some (record s { word = s.word ++ (c ∷ []) })
    else if c == 39
    then some (record s { quoted = true })
    else if c == 32
    then some (record s { word = []; words = end_word s.word s.words })
    else if c == 124
    then some (record s {
      word = [];
      words = [];
      commands = s.commands ++ (end_word s.word s.words ∷ []);
    })
    else if is_plain c
    then some (record s { word = s.word ++ (c ∷ []) })
    else none

abbrev pub shell : Bytes → Shell → Option (List (List Bytes))
shell [] s = if s.quoted then none else some (s.commands ++ (end_word s.word s.words ∷ []))
shell (c ∷ line) s = elim (reads s c) [ none ↦ none | some s' ↦ shell line s' ]

abbrev pub prompt : Shell
prompt = record { quoted = false; word = []; words = []; commands = [] }

-- In quotes a run without a quote joins the word.
shell-quoted :
    (a line : Bytes) (s : Shell)
    → s.quoted ≡ true
    → has_byte a 39 ≡ false
    → shell (a ++ line) s ≡ shell line (record s { word = s.word ++ a })
unfolding has_byte
shell-quoted [] line s q h = ap (shell line) (ground (arith, append-nil s.word))
shell-quoted (c ∷ a) line s q h = ground (
  arith,
  q,
  h,
  append_assoc s.word (c ∷ []) a,
  shell-quoted a line (record s { word = s.word ++ (c ∷ []) }),
)

reads-plain :
    (s : Shell) (c : ℕ)
    → s.quoted ≡ false
    → is_plain c ≡ true
    → reads s c ≡ some (record s { word = s.word ++ (c ∷ []) })
unfolding has_byte is_alnum
reads-plain s c q h = ground (arith, q, h)

-- Outside quotes a run of plain bytes does.
shell-plain :
    (a line : Bytes) (s : Shell)
    → s.quoted ≡ false
    → All (λ c. is_plain c ≡ true) a
    → shell (a ++ line) s ≡ shell line (record s { word = s.word ++ a })
shell-plain [] line s q h = ap (shell line) (ground (arith, append-nil s.word))
shell-plain (c ∷ a) line s q (h, hs) = ground (
  arith,
  reads-plain s c q h,
  append_assoc s.word (c ∷ []) a,
  shell-plain a line (record s { word = s.word ++ (c ∷ []) }) q hs,
)

all_alnum_or-plain :
    (s : Bytes) → all_alnum_or s terminal_path_extra ≡ true → All (λ c. is_plain c ≡ true) s
unfolding all_alnum_or has_byte
all_alnum_or-plain [] h = tt
all_alnum_or-plain (c ∷ s) h = (ground (arith, h), all_alnum_or-plain s (ground (arith, h)))

-- No value checked by onlyAlnumOr for TERM holds a quote or an underscore.
all_alnum_or-absent :
    (s : Bytes) → all_alnum_or s term_extra ≡ true → (has_byte s 39 ≡ false) × (count_byte s 95 ≡ 0)
unfolding all_alnum_or has_byte is_alnum count_byte
all_alnum_or-absent [] h = (refl, refl)
all_alnum_or-absent (c ∷ s) h = ground (arith, h, all_alnum_or-absent s)

alnum-absent :
    (s : Bytes) → All (λ c. is_alnum c ≡ true) s → (has_byte s 39 ≡ false) × (count_byte s 95 ≡ 0)
unfolding has_byte is_alnum count_byte
alnum-absent [] h = (refl, refl)
alnum-absent (c ∷ s) (h, hs) = ground (arith, h, alnum-absent s hs)

only_alnum_or-all :
    (s extra : Bytes) → only_alnum_or s extra ≡ true → (all_alnum_or s extra ≡ true) × (s ≢ [])
unfolding only_alnum_or
only_alnum_or-all [] extra h = absurd (ground (arith, h))
only_alnum_or-all (c ∷ s) extra h = (h, λ e. cc)

validate-values :
    (cfg : Config)
    → validate cfg ≡ none
    → (only_alnum_or cfg.term term_extra ≡ true)
      × (only_alnum_or cfg.terminal_path terminal_path_extra ≡ true)
unfolding validate
validate-values cfg h = ground (arith, h)

-- The line that the remote command writes to etterminal.
abbrev pub session_line : Bytes → Bytes → Bytes → Bytes
session_line id passkey term = id ++ (47 ∷ (passkey ++ (95 ∷ term)))

two_commands :
    (a b path : Bytes) {echoes : Bytes} {option : Bytes}
    → a ≢ []
    → path ≢ []
    → ◌≡◌ {A = Option (List (List Bytes))}
        (some (end_word (a ++ b) (echoes ∷ []) ∷ (end_word path [] ++ (option ∷ [])) ∷ []))
        (some ((echoes ∷ (a ++ b) ∷ []) ∷ (path ∷ option ∷ []) ∷ []))
two_commands [] b path ne np = absurd (ne refl)
two_commands (c ∷ a) b [] ne np = absurd (np refl)
two_commands (c ∷ a) b (d ∷ path) ne np = refl

abbrev in_quotes : Bytes → Shell
in_quotes line = record {
  quoted = true;
  word = line;
  words = (101 ∷ 99 ∷ 104 ∷ 111 ∷ []) ∷ [];
  commands = [];
}

abbrev behind_pipe : Bytes → Bytes → Shell
behind_pipe line path = record {
  quoted = false;
  word = path;
  words = [];
  commands = end_word line ((101 ∷ 99 ∷ 104 ∷ 111 ∷ []) ∷ []) ∷ [];
}

reads_echo : (rest : Bytes) → shell (echo ++ rest) prompt ≡ shell rest (in_quotes [])
unfolding is_alnum has_byte
reads_echo rest = refl

reads_pipe :
    (line rest : Bytes) → shell (pipe ++ rest) (in_quotes line) ≡ shell rest (behind_pipe line [])
unfolding is_alnum has_byte
reads_pipe line rest = refl

reads_verbose :
    (line path : Bytes)
    → shell verbose (behind_pipe line path)
      ≡ some (
          end_word line ((101 ∷ 99 ∷ 104 ∷ 111 ∷ []) ∷ [])
          ∷ (end_word path []
              ++ ((45 ∷ 45 ∷ 118 ∷ 101 ∷ 114 ∷ 98 ∷ 111 ∷ 115 ∷ 101 ∷ 61 ∷ 48 ∷ []) ∷ []))
          ∷ [])
unfolding is_alnum has_byte
reads_verbose line path = refl

session_line-absent :
    (id passkey term : Bytes)
    → (has_byte id 39 ≡ false) × (count_byte id 95 ≡ 0)
    → (has_byte passkey 39 ≡ false) × (count_byte passkey 95 ≡ 0)
    → (has_byte term 39 ≡ false) × (count_byte term 95 ≡ 0)
    → (has_byte (session_line id passkey term) 39 ≡ false)
      × (count_byte (session_line id passkey term) 95 ≡ 1)
unfolding has_byte count_byte
session_line-absent id passkey term a b c = ground (
  arith,
  a,
  b,
  c,
  has_byte-append 39 id (47 ∷ (passkey ++ (95 ∷ term))),
  has_byte-append 39 passkey (95 ∷ term),
  count_byte-append 95 id (47 ∷ (passkey ++ (95 ∷ term))),
  count_byte-append 95 passkey (95 ∷ term),
)

remote_command-line :
    (id passkey term path : Bytes)
    → remote_command id passkey term path
      ≡ echo ++ (session_line id passkey term ++ (pipe ++ (path ++ verbose)))
unfolding remote_command
remote_command-line id passkey term path =
    let rest = pipe ++ (path ++ verbose) in
    ap (λ x. echo ++ x)
      (ap (λ x. id ++ (47 ∷ x)) (sym (append_assoc passkey (95 ∷ term) rest))
        ∙ sym (append_assoc id (47 ∷ (passkey ++ (95 ∷ term))) rest))

-- With a Config that validates and an id and a passkey of letters and digits, a shell reads the remote
-- command as exactly two simple commands in a pipe, echo with the session line and the terminal path
-- with its option, and the session line has exactly one '_', at which etterminal splits it.
pub remote_command-shell :
    (cfg : Config) (id passkey : Bytes)
    → validate cfg ≡ none
    → id ≢ []
    → All (λ c. is_alnum c ≡ true) id
    → All (λ c. is_alnum c ≡ true) passkey
    → let line = session_line id passkey cfg.term in
      (shell (remote_command id passkey cfg.term cfg.terminal_path) prompt
        ≡ some (
            ((101 ∷ 99 ∷ 104 ∷ 111 ∷ []) ∷ line ∷ [])
            ∷ (cfg.terminal_path
                ∷ (45 ∷ 45 ∷ 118 ∷ 101 ∷ 114 ∷ 98 ∷ 111 ∷ 115 ∷ 101 ∷ 61 ∷ 48 ∷ [])
                ∷ [])
            ∷ []))
      × (count_byte line 95 ≡ 1)
remote_command-shell cfg id passkey valid ne a b =
    let values = validate-values cfg valid in
    let term = only_alnum_or-all cfg.term term_extra values.0 in
    let path = only_alnum_or-all cfg.terminal_path terminal_path_extra values.1 in
    let line = session_line id passkey cfg.term in
    let absent =
      session_line-absent id passkey cfg.term (alnum-absent id a) (alnum-absent passkey b)
        (all_alnum_or-absent cfg.term term.0) in
    let tail = cfg.terminal_path ++ verbose in
    (
      ap (λ x. shell x prompt) (remote_command-line id passkey cfg.term cfg.terminal_path)
          ∙ reads_echo (line ++ (pipe ++ tail))
          ∙ shell-quoted line (pipe ++ tail) (in_quotes []) refl absent.0
          ∙ reads_pipe line tail
          ∙ shell-plain cfg.terminal_path verbose (behind_pipe line []) refl
              (all_alnum_or-plain cfg.terminal_path path.0)
          ∙ reads_verbose line cfg.terminal_path
          ∙ two_commands id _ cfg.terminal_path ne path.1,
      absent.1,
    )
