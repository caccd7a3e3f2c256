-- ===== src/Etcp/Delivery/Flushed.antt =====
-- What the steps of a connection add to its history, and how far they write it.
use et_go.Prelude.{
  ℕ, ◌+◌, ◌≡◌, refl, sym, List, [], ◌∷◌, ◌++◌, true, false, Option, Bytes, ℤ, at_or_after, arith,
  append-nil, Bool-cases, inl, inr,
}
use et_go.Protocol.{Packet}
use et_go.Seal.{Secretbox}
use et_go.Etcp.Ring.{Ring, trim}
use et_go.Etcp.Ring.Window.{IsWindow}
use et_go.Etcp.Ring.Trim.{trim-IsWindow, trim-first, trim-bytes}
use et_go.Etcp.Reader.{release_hold}
use et_go.Etcp.Conn.{
  Conn, Err, release, Woken, room, caller_ended, conn_ended, Written, refused, queued, waiting,
  write_packet, write_woken, probe_once, enqueue, write_pass, seal_packet,
}
use et_go.Etcp.Conn.Invariant.{IsConn, written_history, probe_history}
use et_go.Etcp.Recover.{finish_recover}
use et_go.Etcp.Writer.{settle}

release_hold-off : (c : Conn) → c.ring.held ≡ false → release_hold c ≡ c
unfolding release_hold
release_hold-off c e = ground (arith, e)

release_hold-on :
    (c : Conn)
    → c.ring.held ≡ true
    → release_hold c ≡ record c { ring = trim c.flushed c.unsent (record c.ring { held = false }) }
unfolding release_hold
release_hold-on c e = ground (arith, e)

-- `releaseHold` keeps the outbound state in step.
pub release_hold-IsConn :
    {start : Bytes} {h : List Bytes} (c : Conn) → IsConn start h c → IsConn start h (release_hold c)
release_hold-IsConn {start} {h} c i = elim (Bool-cases c.ring.held) [
  | inr off ↦ rw (release_hold-off c off) i
  | inl on ↦
      let open_ring : Ring = record c.ring { held = false } in
      let w : IsWindow h open_ring = record {
        inside = i.window.inside;
        kept = i.window.kept;
        sized = i.window.sized;
      } in
      let first = trim-first c.flushed c.unsent open_ring in
      let size = trim-bytes c.flushed c.unsent w i.from_first i.backlog in
      rw (release_hold-on c on) (record {
        window = trim-IsWindow c.flushed c.unsent w;
        from_first = first.1 i.from_first;
        in_history = i.in_history;
        backlog = i.backlog;
        counted = i.counted;
        probed = i.probed;
        bounded = ground (arith, size, first);
      })
]

pub release_hold-flushed : (c : Conn) → (release_hold c).flushed ≡ c.flushed
unfolding release_hold
release_hold-flushed c = ground arith

pub settle-flushed : (n size : ℕ) (c : Conn) → (settle n size c).flushed ≡ c.flushed + n
unfolding settle release
settle-flushed n size c = refl

pub finish_recover-flushed :
    (p : ℤ) (snap : ℕ) (c : Conn) → (finish_recover p snap c).flushed ≡ snap
unfolding finish_recover release
finish_recover-flushed p snap c = refl

-- What a call of WritePacket adds to the history, if anything.
pub written_more :
    (box : Secretbox) (start : Bytes) (h : List Bytes) (p : Packet) (c : Conn) (r : Written)
    → (ds : List Bytes) × (written_history box start h p c r ≡ h ++ ds)
written_more box start h p c queued = (_, refl)
written_more box start h p c (refused e) = ([], sym (append-nil h))
written_more box start h p c waiting = ([], sym (append-nil h))

pub probe_more :
    (box : Secretbox) (start : Bytes) (h : List Bytes) (c : Conn)
    → (ds : List Bytes) × (probe_history box start h c ≡ h ++ ds)
probe_more box start h c = elim (Bool-cases (at_or_after c.last_probe c.flushed)) [
  | inl e ↦ ([], ground (arith, e, append-nil h))
  | inr e ↦ ((seal_packet box c.probe c.out).0 ∷ [], ground (arith, e))
]

write_pass-flushed :
    (box : Secretbox) (p : Packet) (c : Conn) → (write_pass box p c).1.flushed ≡ c.flushed
unfolding write_pass enqueue
write_pass-flushed box p c = ground arith

pub write_packet-flushed :
    (box : Secretbox) (ctx : Option Err) (p : Packet) (c : Conn)
    → (write_packet box ctx p c).1.flushed ≡ c.flushed
unfolding write_packet
write_packet-flushed box ctx p c = ground (arith, write_pass-flushed box p c)

pub write_woken-flushed :
    (box : Secretbox) (why : Woken) (p : Packet) (c : Conn)
    → (write_woken box why p c).1.flushed ≡ c.flushed
unfolding write_woken
write_woken-flushed box room p c = write_pass-flushed box p (record c { space = false })
write_woken-flushed box (caller_ended e) p c = refl
write_woken-flushed box (conn_ended e) p c = refl

pub probe_once-flushed : (box : Secretbox) (c : Conn) → (probe_once box c).flushed ≡ c.flushed
unfolding probe_once enqueue
probe_once-flushed box c = ground arith
