-- ===== src/Etcp/Supervise.antt =====
-- internal/etcp/recover.go and conn.go: the goroutine that owns reconnects, and Close.
--
-- A link's run and the attempts behind it are one `LinkRun`: whether the Conn had ended when runLink
-- returned, whether the link had lasted for backoffReset, and the attempts that reconnect then makes.
pub mod Survives
use et_go.Prelude.{ℕ, List, [], ◌∷◌, ◌++◌, Bool, true, false, Option, none, some, if◌then◌else◌}
use et_go.Etcp.Conn.{Conn, Err, fail}
use et_go.Etcp.Backoff.{Backoff, reset}
use et_go.Etcp.Dialer.{Attempt, Redial, restored, going_on, gave_up, reconnect}

pub record LinkRun : Type 0 where
  pub ended : Bool
  pub lasted : Bool
  pub attempts : List (Option Err × Attempt)

-- How the goroutine stands: a link runs or a redial goes on, it returned as the Conn had ended, or it
-- cancelled the Conn with an error and returned.
pub data Supervised : Type 0 where
  link_up redialling : Backoff → Supervised
  conn_ended : Supervised
  cancelled : Err → Supervised

module _ (jittered : ℕ → ℕ) where
  abbrev pub behind : Redial → Backoff → Supervised → Supervised
  behind restored b rest = rest
  behind going_on b rest = redialling b
  behind (gave_up e) b rest = cancelled e

  -- `supervise`, over the links that followed one another.
  unfoldable pub supervise : List LinkRun → Backoff → Supervised
  supervise [] b = link_up b
  supervise (l ∷ ls) b =
      let r = reconnect jittered l.attempts (if l.lasted then reset b else b) in
      let rest = supervise ls r.1 in if l.ended then conn_ended else behind r.0 r.1 rest

-- What the goroutine's end does to the Conn.
unfoldable pub supervised_end : Supervised → Conn → Conn
supervised_end (cancelled e) c = fail e c
supervised_end _ c = c
