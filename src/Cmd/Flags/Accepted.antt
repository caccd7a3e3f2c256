-- ===== src/Cmd/Flags/Accepted.antt =====
-- What options are accepted, and what the rest of the client may rely on.
use et_go.Prelude.{
  ℕ, ◌*◌, ◌^◌, ◌≤◌, ◌≡◌, refl, ◌⊎◌, List, [], ◌∷◌, Bool, false, Option, none, some, Bytes, length,
  arith, ℤ, pos, negsuc,
}
use et_go.Strings.{has_prefix}
use et_go.Strings.Laws.{equal-path}
use et_go.Etcp.Dialer.{check_options}
use et_go.Bootstrap.Parse.{Credentials, parsed, parse_credentials}
use et_go.Bootstrap.Parse.Exact.{parse_credentials-exact}
use et_go.Cmd.Destination.{Destination, Result, ok, usage, dash, parse_destination}
use et_go.Cmd.Run.{dialer_of}
use et_go.Cmd.Flags.{
  Flags, flags, Options, accepted, merged_port, merged_user, parse_args, with_args,
  with_destination, in_port_range, with_name, with_keep_alive,
}

-- Where the user and the port of accepted options come from, and the ranges that they are in.
abbrev pub FromFlags : Flags → Destination → Options → Type 0
FromFlags f d o =
    (o.host ≡ d.host)
    × (((d.port ≡ 0) × (f.port ≡ pos o.port))
        ⊎ ((d.port ≡ o.port) × ((f.port_set ≡ false) ⊎ (f.port ≡ pos o.port))))
    × (((d.user ≡ []) × (o.user ≡ f.user))
        ⊎ ((d.user ≡ o.user) × ((f.user ≡ []) ⊎ (f.user ≡ o.user))))
    × (has_prefix o.user dash ≡ false)
    × (1 ≤ o.port)
    × (o.port ≤ 65535)
    × (f.keep_alive ≡ pos o.keep_alive)
    × (1 ≤ o.keep_alive)
    × (o.keep_alive ≤ 5)

merged_user-from :
    (d u user : Bytes)
    → merged_user d u ≡ some user
    → ((d ≡ []) × (user ≡ u)) ⊎ ((d ≡ user) × ((u ≡ []) ⊎ (u ≡ user)))
merged_user-from [] u user h = ground (arith, h)
merged_user-from (c ∷ d) [] user h = ground (arith, h)
merged_user-from (c ∷ d) (b ∷ u) user h = ground (arith, h, equal-path (c ∷ d) (b ∷ u))

merged_port-from :
    (n m : ℕ) (set : Bool) (port : ℤ)
    → merged_port n set port ≡ some (pos m)
    → ((n ≡ 0) × (port ≡ pos m)) ⊎ ((n ≡ m) × ((set ≡ false) ⊎ (port ≡ pos m)))
merged_port-from n m set (pos k) h = ground (arith, h)
merged_port-from n m set (negsuc k) h = ground (arith, h)

with_keep_alive-from :
    (f : Flags) (host user : Bytes) (port : ℕ) (k : ℤ) (o : Options)
    → with_keep_alive f host user port k ≡ accepted o
    → (o.host ≡ host)
      × (o.user ≡ user)
      × (o.port ≡ port)
      × (k ≡ pos o.keep_alive)
      × (1 ≤ o.keep_alive)
      × (o.keep_alive ≤ 5)
unfolding with_keep_alive
with_keep_alive-from f host user port (pos n) o h = ground (arith, h)
with_keep_alive-from f host user port (negsuc n) o h = absurd (ground (arith, h))

with_name-from :
    (f : Flags) (host : Bytes) (port : ℕ) (u : Option Bytes) (o : Options)
    → with_name f host port u ≡ accepted o
    → (u ≡ some o.user)
      × (has_prefix o.user dash ≡ false)
      × (o.host ≡ host)
      × (o.port ≡ port)
      × (f.keep_alive ≡ pos o.keep_alive)
      × (1 ≤ o.keep_alive)
      × (o.keep_alive ≤ 5)
unfolding with_name
with_name-from f host port none o h = absurd (ground (arith, h))
with_name-from f host port (some u) o h =
    ground (arith, h, with_keep_alive-from f host u port f.keep_alive o)

in_port_range-from :
    (f : Flags) (d : Destination) (z : Option ℤ) (o : Options)
    → in_port_range f d z ≡ accepted o
    → merged_port d.port f.port_set f.port ≡ z
    → FromFlags f d o
unfolding in_port_range
in_port_range-from f d none o h e = absurd (ground (arith, h))
in_port_range-from f d (some (negsuc n)) o h e = absurd (ground (arith, h))
in_port_range-from f d (some (pos n)) o h e =
    let user = merged_user d.user f.user in
    let named : with_name f d.host n user ≡ accepted o = ground (arith, h) in
    let low : 1 ≤ n = ground (arith, h) in
    let high : n ≤ 65535 = ground (arith, h) in
    let from = with_name-from f d.host n user o named in
    let port = merged_port-from d.port n f.port_set f.port e in
    ground (arith, from, port, low, high, merged_user-from d.user f.user o.user from.0)

with_destination-from :
    (f : Flags) (r : Result Destination) (o : Options)
    → with_destination f r ≡ accepted o
    → (d : Destination) × (r ≡ ok d) × FromFlags f d o
unfolding with_destination
with_destination-from f (usage e) o h = absurd (ground (arith, h))
with_destination-from f (ok d) o h =
    (d, refl, in_port_range-from f d (merged_port d.port f.port_set f.port) o h refl)

with_args-from :
    (f : Flags) (args : List Bytes) (o : Options)
    → with_args f args ≡ accepted o
    → (arg : Bytes) × (d : Destination) × (args ≡ arg ∷ [])
      × (parse_destination arg ≡ ok d)
      × FromFlags f d o
unfolding with_args
with_args-from f [] o h = absurd (ground (arith, h))
with_args-from f (a ∷ (b ∷ args)) o h = absurd (ground (arith, h))
with_args-from f (arg ∷ []) o h =
    let (d, e, from) = with_destination-from f (parse_destination arg) o h in
    (arg, d, refl, e, from)

-- Accepted options come from one destination argument that reads: its host, its port or else the flag's,
-- its user or else the flag's, and where both are given they agree. The user cannot be taken for an
-- option, the port is from 1 to 65535, and the keep-alive from 1 to 5 seconds.
pub parse_args-from :
    (f : Flags) (o : Options)
    → parse_args (flags f) ≡ accepted o
    → (arg : Bytes) × (d : Destination) × (f.args ≡ arg ∷ [])
      × (parse_destination arg ≡ ok d)
      × FromFlags f d o
unfolding parse_args
parse_args-from f o h = with_args-from f f.args o (ground (arith, h))

-- Accepted options and the credentials of an output that parses are within what Dial asks for, so Dial
-- refuses no session that the command line and the bootstrap let through.
pub parse_args-check_options :
    (f : Flags) (o : Options) (out : Bytes) (c : Credentials)
    → parse_args (flags f) ≡ accepted o
    → parse_credentials out ≡ parsed c
    → check_options c.passkey (dialer_of o) ≡ none
unfolding check_options
parse_args-check_options f o out c h g =
    let names = (parse_credentials-exact out c).0 g in
    let from = (parse_args-from f o h).4 in
    let low : 1 ≤ o.keep_alive = from.7 in
    let size : length c.passkey ≡ 32 = names.5 in
    let slow : 10 ^ 9 ≤ o.keep_alive * 10 ^ 9 = omega (arith, low) in ground (arith, size, slow)
