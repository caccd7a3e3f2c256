-- ===== src/Etcp/Recover/Catchup.antt =====
-- What the catchup holds, and the state behind it.
use et_go.Prelude.{
  [], ℕ, ◌+◌, ◌-◌, ◌*◌, ◌≤◌, ◌≡◌, ◌⊎◌, inr, refl, List, true, none, Bytes, total, length, take,
  drop, ℤ, pos, negsuc, arith, take_all, length-drop, total-append, drop-drop, take-append-drop,
}
use et_go.Wire.Stream.{ok}
use et_go.Etcp.Ring.{Ring, since, bytes_between}
use et_go.Etcp.Ring.Window.{IsWindow, since-IsWindow, next-IsWindow, bytes_between-IsWindow}
use et_go.Etcp.Ring.Trim.{trim-keeps, trim-held}
use et_go.Etcp.Conn.{Conn, release, replay_exceeded}
use et_go.Etcp.Conn.Invariant.{IsConn, release-IsConn, signalled}
use et_go.Etcp.Recover.{
  Exchange, done, failed, write_recover, finish_recover, max_int32, max_catchup_size,
}

-- The packets that a peer at `p` lacks can be replayed.
abbrev pub CanReplay : List Bytes → Conn → Exchange → ℕ → Type 0
CanReplay h c x p =
    (c.recv_seq ≤ max_int32)
    × (c.ring.first ≤ p)
    × (p ≤ length h)
    × (x.size (drop p h) ≤ max_catchup_size)

-- By the position of a peer that is not negative.
pub write_recover-at :
    {start : Bytes} {h : List Bytes} (c : Conn) (x : Exchange) (p : ℕ)
    → IsConn start h c
    → x.write_sequence ≡ none
    → x.peer ≡ ok (pos p)
    → x.write_catchup (drop p h) ≡ none
    → (CanReplay h c x p × (write_recover x c ≡ done (length h)))
      ⊎ (¬ CanReplay h c x p × (write_recover x c ≡ failed replay_exceeded))
unfolding write_recover
write_recover-at {start} {h} c x p i a b d = ground (
  arith,
  a,
  b,
  d,
  since-IsWindow p (length h) i.window,
  next-IsWindow i.window,
  take_all (length h - p) (drop p h),
  length-drop p h,
)

-- A peer whose position is negative is refused.
write_recover-negative :
    (c : Conn) (x : Exchange) (n : ℕ)
    → x.write_sequence ≡ none
    → x.peer ≡ ok (negsuc n)
    → write_recover x c ≡ failed replay_exceeded
unfolding write_recover since
write_recover-negative c x n a b = ground (arith, a, b)

-- A peer at `p`, negative or not, can be sent all that it lacks.
abbrev pub CanResume : List Bytes → Conn → Exchange → ℤ → Type 0
CanResume h c x (pos p) = CanReplay h c x p
CanResume h c x (negsuc n) = ⊥

-- What a peer at `p` lacks of the history.
abbrev pub lacking : List Bytes → ℤ → List Bytes
lacking h (pos p) = drop p h
lacking h (negsuc n) = []

-- When the peer's SequenceHeader arrives with position `p`, whatever int32 that is, and neither of our
-- writes fails, `writeRecover` succeeds exactly when `p` is not negative, the retained window reaches
-- back to it, the peer is not ahead, the catchup fits one message and our own count fits an int32. Its
-- catchup is then the packets from `p` up to the last one sealed, and the new link starts behind them.
-- Otherwise, and for every negative `p`, it ends with ErrReplayExceeded.
pub write_recover-exact :
    {start : Bytes} {h : List Bytes} (c : Conn) (x : Exchange) (p : ℤ)
    → IsConn start h c
    → x.write_sequence ≡ none
    → x.peer ≡ ok p
    → x.write_catchup (lacking h p) ≡ none
    → (CanResume h c x p × (write_recover x c ≡ done (length h)))
      ⊎ (¬ CanResume h c x p × (write_recover x c ≡ failed replay_exceeded))
write_recover-exact c x (pos p) i a b d = write_recover-at c x p i a b d
write_recover-exact c x (negsuc n) i a b d = inr (λ e. e, write_recover-negative c x n a b)

-- What is left of the backlog when everything before `snap` counts as written.
backlog_after :
    {start : Bytes} {h : List Bytes} {snap : ℕ} {c : Conn}
    → IsConn start h c
    → c.flushed ≤ snap
    → c.unsent - bytes_between c.flushed snap c.ring ≡ total (drop snap h)
backlog_after {start} {h} {snap} {c} i le =
    let k = snap - c.flushed in
    let e : c.flushed + k ≡ snap = omega arith in
    ground (
      arith,
      i.backlog,
      e,
      bytes_between-IsWindow c.flushed snap i.window i.from_first,
      take-append-drop k (drop c.flushed h),
      total-append (take k (drop c.flushed h)) (drop k (drop c.flushed h)),
      drop-drop k c.flushed h,
    )

recovered-IsConn :
    {start : Bytes} {h : List Bytes} (peer : ℤ) (snap : ℕ) (c : Conn)
    → IsConn start h c
    → c.flushed ≤ snap
    → snap ≤ length h
    → IsConn start h (finish_recover peer snap c)
unfolding finish_recover
recovered-IsConn {start} {h} peer snap c i le fits =
    let held : Ring = record c.ring { held = true; hold = peer } in
    let c₁ : Conn = record c {
      unsent = c.unsent - bytes_between c.flushed snap c.ring;
      flushed = snap;
      ring = held;
    } in
    let window : IsWindow h held = record {
      inside = i.window.inside;
      kept = i.window.kept;
      sized = i.window.sized;
    } in
    let backlog = backlog_after i le in
    let from_first : c.ring.first ≤ snap = omega (arith, i.from_first) in
    signalled (release c₁).0 (release c₁).0.wake _
      (release-IsConn c₁ window from_first fits backlog i.counted i.probed)

-- The end of `recover`, whatever was queued since the catchup was taken up to `snap`, which lies between
-- what was written and the end of the history: exactly the packets up to `snap` count as written, the
-- bytes of those behind it are the backlog, and what is retained is held for the peer's position. The
-- outbound state stays in step with the history.
pub finish_recover-IsConn :
    {start : Bytes} {h : List Bytes} (peer : ℤ) (snap : ℕ) (c : Conn)
    → IsConn start h c
    → c.flushed ≤ snap
    → snap ≤ length h
    → let d = finish_recover peer snap c in
      (d.flushed ≡ snap)
      × (d.unsent ≡ total (drop snap h))
      × (d.ring.held ≡ true)
      × (d.ring.hold ≡ peer)
      × IsConn start h d
unfolding finish_recover release
finish_recover-IsConn peer snap c i le fits = (
  refl,
  backlog_after i le,
  (trim-held snap _ _).0,
  (trim-held snap _ _).1,
  recovered-IsConn peer snap c i le fits,
)

-- A recovered ring keeps every packet from the peer's position on, as long as it held them before and
-- what is written of them
-- is within twice ReplayLimit: a link that dies before the peer speaks can be recovered again.
pub finish_recover-keeps :
    {start : Bytes} {h : List Bytes} (p snap : ℕ) (c : Conn)
    → IsConn start h c
    → c.flushed ≤ snap
    → snap ≤ length h
    → c.ring.first ≤ p
    → total (drop p h) ≤ 2 * c.ring.limit + total (drop snap h)
    → (finish_recover (pos p) snap c).ring.first ≤ p
unfolding finish_recover release
finish_recover-keeps {start} {h} p snap c i le fits from bound =
    let held : Ring = record c.ring { held = true; hold = pos p } in
    let unsent = c.unsent - bytes_between c.flushed snap c.ring in
    let backlog : unsent ≡ total (drop snap h) = backlog_after i le in
    trim-keeps {h = h} {r = held} snap unsent p
      (record { inside = i.window.inside; kept = i.window.kept; sized = i.window.sized }) from
      (inr (refl, ground arith, omega (arith, bound, backlog)))
