-- ===== src/Etcp/RunLink.antt =====
-- internal/etcp/link.go and conn.go: `runLink`, which joins a link's goroutines, and Close.
--
-- What happens to a link's context, and to the goroutines, is a list of `LinkEnd` in the order in which
-- it happens.
pub mod Closing
use et_go.Prelude.{ℕ, List, [], ◌∷◌, Bool, true, false, ◌&&◌, Option, none, some, if◌then◌else◌}
use et_go.Etcp.Conn.{Conn, Err, closed, fail}

-- A goroutine returned its error, or the Conn's context ended with its cause.
pub data LinkEnd : Type 0 where
  reader_returned writer_returned watcher_returned : Err → LinkEnd
  conn_ended : Err → LinkEnd

-- A running link: the cause of its context, whether its socket is closed, and who has returned.
pub record Running : Type 0 where
  pub cause : Option Err
  pub nc_closed : Bool
  pub reader_done : Bool
  pub writer_done : Bool
  pub watcher_done : Bool

abbrev pub new_link : Running
new_link = record {
  cause = none;
  nc_closed = false;
  reader_done = false;
  writer_done = false;
  watcher_done = false;
}

-- The first cause of a context stays. The socket is closed as the context ends.
cancelled : Err → Running → Running
cancelled e r = elim r.cause [
  | none ↦ record r { cause = some e; nc_closed = true }
  | some first ↦ r
]

unfoldable pub link_step : LinkEnd → Running → Running
unfolding cancelled
link_step (reader_returned e) r = record (cancelled e r) { reader_done = true }
link_step (writer_returned e) r = record (cancelled e r) { writer_done = true }
link_step (watcher_returned e) r = record (cancelled e r) { watcher_done = true }
link_step (conn_ended e) r = cancelled e r

-- `runLink` over what happens, by who it still waits for; none is that it has not returned.
unfoldable pub run_link : List LinkEnd → Running → Option (Option Err) × Running
run_link [] r = (none, r)
run_link (e ∷ es) r =
    let r' = link_step e r in
    let rest = run_link es r' in
    if r'.reader_done && (r'.writer_done && r'.watcher_done) then (some r'.cause, r') else rest

-- `Close`: what the goroutines still do until all of them have returned is `rest`; its waiting ends
-- with the readers done.
unfoldable pub close : (Conn → Conn) → Conn → Conn
close rest c = record (rest (fail closed c)) { readers_done = true }
