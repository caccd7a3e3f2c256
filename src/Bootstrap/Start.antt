-- ===== src/Bootstrap/Start.antt =====
-- internal/bootstrap/bootstrap.go: the run of ssh, and what its output comes to.
--
-- `Ssh` is what the outside answered: whether ssh was found, what cmd.Run returned, all that was written
-- to its stdout, and the cause of the context where that has ended.
pub mod Output
pub mod Secret
pub mod Given
use et_go.Prelude.{
  ℕ, zero, suc, ◌+◌, ◌-◌, ◌*◌, ◌^◌, min, List, [], ◌∷◌, ◌++◌, Bool, true, false, not, ◌&&◌, Option,
  none, some, Bytes, length, take, drop, leb, ltb, if◌then◌else◌, ℤ,
}
use et_go.Unicode.{within}
use et_go.Strings.{contains, before, trim_space}
use et_go.Bootstrap.Parse.{Credentials, Parsed, parsed, marker, parse_credentials}
use et_go.Bootstrap.Command.{Config, Problem, validate, apply_defaults, ssh_args, remote_command}

-- maxOutput, excerptLen and minPiece.
abbrev pub max_output : ℕ
max_output = 2 ^ 20

abbrev pub excerpt_len : ℕ
excerpt_len = 512

abbrev pub min_piece : ℕ
min_piece = 4

-- `cappedBuffer` and its Write, which reports all of `p` as written.
pub record CappedBuffer : Type 0 where
  pub buf : Bytes
  pub limit : ℕ
  pub dropped : ℕ

unfoldable pub capped_write : Bytes → CappedBuffer → CappedBuffer
capped_write p c =
    let kept = min (length p) (c.limit - length c.buf) in
    record c { buf = c.buf ++ take kept p; dropped = c.dropped + (length p - kept) }

unfoldable pub write_all : List Bytes → CappedBuffer → CappedBuffer
write_all [] c = c
write_all (p ∷ ps) c = write_all ps (capped_write p c)

-- `containsPiece`: the loop over the positions from `i`, with as many rounds as are left.
unfoldable pub pieces_from : ℕ → Bytes → Bytes → Bool
pieces_from zero secret out = false
pieces_from (suc n) secret out =
    let rest = pieces_from n (drop 1 secret) out in
    if leb min_piece (length secret)
    then if contains out (take min_piece secret) then true else rest
    else false

unfoldable pub contains_piece : Bytes → Bytes → Bool
contains_piece out secret = pieces_from (length secret) secret out

-- `utf8.RuneStart`, and the loop that skips to the next start of a rune.
unfoldable pub skip_to_rune : Bytes → Bytes
skip_to_rune [] = []
skip_to_rune (b ∷ s) = let rest = skip_to_rune s in if within 128 191 b then rest else b ∷ s

-- `excerpt`; "..." in front where it was cut.
abbrev pub dots : Bytes
dots = 46 ∷ 46 ∷ 46 ∷ []

unfoldable pub excerpt : Bytes → Bytes
excerpt out =
    let b = trim_space (before marker out) in
    if leb (length b) excerpt_len then b else dots ++ skip_to_rune (drop (length b - excerpt_len) b)

-- What cmd.Run returned.
pub data RunResult : Type 0 where
  ran_well wait_delay : RunResult
  exited : ℤ → RunResult
  not_run : ℕ → RunResult

pub record Ssh : Type 0 where
  pub found : Bool
  pub result : RunResult
  pub output : List Bytes
  pub ended : Option ℕ

-- What the error of `describeFailure` is made from: the parse problem, ssh's result, whether output was
-- dropped, and the excerpt of what is shown, none where it was withheld.
pub record Failure : Type 0 where
  pub problem : Parsed
  pub result : RunResult
  pub overflowed : Bool
  pub shown : Option Bytes

pub data Started : Type 0 where
  credentials : Credentials → Started
  invalid_config : Problem → Started
  ssh_not_found : Started
  interrupted run_failed : ℕ → Started
  no_credentials : Failure → Started

abbrev pub describe_failure : Parsed → RunResult → CappedBuffer → Bytes → Failure
describe_failure problem result out passkey = record {
  problem = problem;
  result = result;
  overflowed = ltb 0 out.dropped;
  shown = if contains_piece out.buf passkey then none else some (excerpt out.buf);
}

-- The end of `Run`, by what the output came to and whether the context had ended.
finish : Parsed → Ssh → CappedBuffer → Bytes → Started
finish problem s out passkey = elim s.ended [
  | some cause ↦ interrupted cause
  | none ↦ elim s.result [
    | not_run e ↦ run_failed e
    | _ ↦ no_credentials (describe_failure problem s.result out passkey)
  ]
]

by_output : Parsed → Ssh → CappedBuffer → Bytes → Started
by_output (parsed c) s out passkey = elim s.ended [
  | none ↦ credentials c
  | some cause ↦ finish (parsed c) s out passkey
]
by_output problem s out passkey = finish problem s out passkey

abbrev pub captured : Ssh → CappedBuffer
captured s = write_all s.output (record { buf = []; limit = max_output; dropped = 0 })

-- `Run`, where `passkey` is the one generated for this start.
checked : Option Problem → Ssh → Bytes → Started
checked (some p) s passkey = invalid_config p
checked none s passkey =
    if s.found
    then by_output (parse_credentials (captured s).buf) s (captured s) passkey
    else ssh_not_found

unfoldable pub start : Config → Ssh → Bytes → Started
unfolding finish by_output checked
start cfg s passkey = checked (validate (apply_defaults cfg)) s passkey

-- What the ssh of a start answers, as a function of the arguments that it is given.
abbrev pub answered : (List Bytes → Ssh) → Config → Bytes → Bytes → Ssh
answered ssh cfg id passkey =
    let c = apply_defaults cfg in
    ssh (ssh_args c (remote_command id passkey c.term c.terminal_path))

-- `Run` with the generated id and passkey, where `ssh` is the process.
abbrev pub run : (List Bytes → Ssh) → Config → Bytes → Bytes → Started
run ssh cfg id passkey = start cfg (answered ssh cfg id passkey) passkey
