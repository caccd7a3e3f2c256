-- ===== src/Bootstrap/Start/Given.antt =====
-- When a start gives credentials.
use et_go.Prelude.{List, ◌≡◌, ◌≢◌, ◌↔◌, inl, inr, true, none, Bytes, arith, Option-cases}
use et_go.Bootstrap.Parse.{
  Credentials, Parsed, no_marker, malformed_id, malformed_passkey, parsed, parse_credentials,
}
use et_go.Bootstrap.Command.{Config, validate, apply_defaults}
use et_go.Bootstrap.Start.{
  CappedBuffer, Ssh, credentials, finish, by_output, checked, start, run, answered, captured,
}

finish-none :
    (problem : Parsed) (s : Ssh) (out : CappedBuffer) (passkey : Bytes) (c : Credentials)
    → finish problem s out passkey ≢ credentials c
unfolding finish
finish-none problem s out passkey c h = ground (arith, h)

by_output-credentials :
    (problem : Parsed) (s : Ssh) (out : CappedBuffer) (passkey : Bytes) (c : Credentials)
    → (by_output problem s out passkey ≡ credentials c) ↔ ((problem ≡ parsed c) × (s.ended ≡ none))
unfolding by_output
by_output-credentials (parsed d) s out passkey c = elim (Option-cases s.ended) [
  | inl e ↦ ((λ h. ground (arith, h, e)), (λ h. ground (arith, h, e)))
  | inr (x, e) ↦ (
    (λ h. absurd (finish-none (parsed d) s out passkey c (ground (arith, h, e)))),
    (λ h. ground (arith, h, e)),
  )
]
by_output-credentials no_marker s out passkey c =
    ((λ h. absurd (finish-none no_marker s out passkey c h)), (λ h. ground (arith, h)))
by_output-credentials malformed_id s out passkey c =
    ((λ h. absurd (finish-none malformed_id s out passkey c h)), (λ h. ground (arith, h)))
by_output-credentials malformed_passkey s out passkey c =
    ((λ h. absurd (finish-none malformed_passkey s out passkey c h)), (λ h. ground (arith, h)))

start-credentials :
    (cfg : Config) (s : Ssh) (passkey : Bytes) (c : Credentials)
    → (start cfg s passkey ≡ credentials c) ↔ (
        (validate (apply_defaults cfg) ≡ none)
        × (s.found ≡ true)
        × (parse_credentials (captured s).buf ≡ parsed c)
        × (s.ended ≡ none))
unfolding start checked
start-credentials cfg s passkey c =
    let (to, from) =
      by_output-credentials (parse_credentials (captured s).buf) s (captured s) passkey c in
    ((λ h. ground (arith, h, to)), (λ (v, f, p, e). ground (arith, v, f, from (p, e))))

-- `Run` gives credentials exactly when the Config validates, ssh was found, the kept output of ssh on the
-- arguments of that Config parses to them, and the context has not ended; how ssh exited does not matter.
pub run-credentials :
    (ssh : List Bytes → Ssh) (cfg : Config) (id passkey : Bytes) (c : Credentials)
    → let s = answered ssh cfg id passkey in
      (run ssh cfg id passkey ≡ credentials c) ↔ (
        (validate (apply_defaults cfg) ≡ none)
        × (s.found ≡ true)
        × (parse_credentials (captured s).buf ≡ parsed c)
        × (s.ended ≡ none))
run-credentials ssh cfg id passkey c = start-credentials cfg (answered ssh cfg id passkey) passkey c
