-- ===== src/Etcp/Dialer/Start.antt =====
-- The state that Dial starts a connection with.
use et_go.Prelude.{◌≤◌, ◌<◌, ◌≡◌, refl, [], false, none, some, Bytes, arith, ℤ, pos, negsuc}
use et_go.Seal.{client_to_server, server_to_client, new}
use et_go.Seal.Nonce.{advanced}
use et_go.Etcp.Conn.{Conn}
use et_go.Etcp.Conn.Invariant.{IsConn}
use et_go.Etcp.Dialer.{Dialer, check_options, new_conn, max_replay_limit, is_bad_limit, or_default}

limit_range :
    (z : ℤ)
    → is_bad_limit z ≡ false
    → (0 < or_default z max_replay_limit) × (or_default z max_replay_limit ≤ max_replay_limit)
limit_range (pos n) h = ground arith
limit_range (negsuc n) h = absurd (ground arith)

-- Options that Dial accepts give a connection, without a panic: in step with an empty history, its two
-- streams at the two directions under one key, and a replay limit from 1 byte to 64 MiB.
pub new_conn-IsConn :
    (passkey : Bytes) (d : Dialer)
    → check_options passkey d ≡ none
    → (c : Conn) × (new_conn passkey d ≡ some c)
      × IsConn c.out.nonce [] c
      × (new (some passkey) client_to_server ≡ some c.out)
      × (new (some passkey) server_to_client ≡ some c.inward)
      × (0 < c.ring.limit)
      × (c.ring.limit ≤ max_replay_limit)
unfolding check_options new_conn new advanced
new_conn-IsConn passkey d h =
    let range = limit_range d.replay_limit (ground arith) in
    (
      _,
      refl,
      record {
        window = record { inside = omega arith; kept = refl; sized = refl };
        from_first = omega arith;
        in_history = omega arith;
        backlog = refl;
        counted = refl;
        probed = refl;
        bounded = omega arith;
      },
      refl,
      refl,
      range.0,
      range.1,
    )
