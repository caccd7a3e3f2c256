-- ===== src/Etcp/Conn/Invariant.antt =====
-- The outbound state against the list of all packets sealed so far, and every step of the caller's
-- side that keeps it.
use et_go.Prelude.{
  ℕ, suc, ◌+◌, ◌≤◌, ◌≡◌, refl, List, [], ◌∷◌, ◌++◌, Bool, true, false, Bool-cases, inl, inr, Option,
  none, some, Bytes, total, length, drop, leb, ltb, if◌then◌else◌, ℤ, pos, negsuc, at_or_after,
  arith, length-append, drop-append_le, total-append,
}
use et_go.Protocol.{Packet}
use et_go.Seal
use et_go.Seal.{Secretbox, seal, increment}
use et_go.Seal.Nonce.{advanced}
use et_go.Etcp.Ring.{next, push}
use et_go.Etcp.Ring.Window.{IsWindow, push-IsWindow, next-IsWindow}
use et_go.Etcp.Ring.Trim.{allowance, trim-IsWindow, trim-first, trim-bytes}
use et_go.Etcp.Conn.{
  Conn, Err, release, seal_packet, enqueue, probe_unless, probe_once, write_room, write_alive,
  write_caller, max_payload, write_pass, write_packet, write_woken, Written, queued, Woken, room,
  caller_ended, conn_ended,
}

-- `start` is the nonce that the outbound stream began with.
pub record IsConn (start : Bytes) (history : List Bytes) (c : Conn) : Type 0 where
  pub window : IsWindow history c.ring
  pub from_first : c.ring.first ≤ c.flushed
  pub in_history : c.flushed ≤ length history
  pub backlog : c.unsent ≡ total (drop c.flushed history)
  pub counted : c.out.nonce ≡ advanced (length history) start
  pub probed : at_or_after c.last_probe (length history) ≡ false
  pub bounded : c.ring.bytes ≤ allowance c.ring + c.unsent

later_probe : (z : ℤ) (n : ℕ) → at_or_after z n ≡ false → at_or_after z (n + 1) ≡ false
later_probe (pos m) n h = ground arith
later_probe (negsuc m) n h = refl

-- The two signals are not part of the invariant.
pub signalled :
    {start : Bytes} {h : List Bytes} (c : Conn) (w s : Bool)
    → IsConn start h c
    → IsConn start h (record c { wake = w; space = s })
signalled c w s i = record {
  window = i.window;
  from_first = i.from_first;
  in_history = i.in_history;
  backlog = i.backlog;
  counted = i.counted;
  probed = i.probed;
  bounded = i.bounded;
}

-- Every sealed packet moves the nonce on by one.
pub seal_packet-nonce :
    (box : Secretbox) (p : Packet) (s : Seal.Stream)
    → (seal_packet box p s).1 ≡ record s { nonce = increment s.nonce }
unfolding seal_packet seal
seal_packet-nonce box p s = refl

module _ (box : Secretbox) (start : Bytes) where
  -- The bytes of the next packet.
  abbrev pub sealed_next : Packet → Conn → Bytes
  sealed_next p c = (seal_packet box p c.out).0

  -- `enqueueLocked` also stands behind a probe's new sequence number, which may be that of the packet.
  enqueue-IsConn_with :
      (p : Packet) (z : ℤ) {h : List Bytes} {c : Conn}
      → IsConn start h c
      → at_or_after z (length h + 1) ≡ false
      → IsConn start (h ++ (sealed_next p c ∷ [])) (enqueue box p (record c { last_probe = z }))
  unfolding enqueue push advanced
  enqueue-IsConn_with p z {h} {c} i later =
      let d = sealed_next p c in
      let longer : length (h ++ (d ∷ [])) ≡ suc (length h) =
        omega (arith, length-append {0} h (d ∷ [])) in
      let one_more : suc (length h) ≡ length h + 1 = omega arith in
      record {
        window = unfold push in push-IsWindow d i.window;
        from_first = i.from_first;
        in_history = omega (arith, longer, i.in_history);
        backlog = ground (
          arith,
          i.backlog,
          i.in_history,
          drop-append_le c.flushed h (d ∷ []),
          total-append (drop c.flushed h) (d ∷ []),
        );
        counted = rw longer (ground (arith, i.counted, seal_packet-nonce box p c.out));
        probed = rw (longer, one_more) later;
        bounded = ground (arith, i.bounded);
      }

  -- `enqueueLocked` seals under the nonce of the packet's sequence number and adds it to the history.
  pub enqueue-IsConn :
      (p : Packet) {h : List Bytes} {c : Conn}
      → IsConn start h c
      → IsConn start (h ++ (sealed_next p c ∷ [])) (enqueue box p c)
  enqueue-IsConn p {h} {c} i =
      enqueue-IsConn_with p c.last_probe i (later_probe c.last_probe (length h) i.probed)

  -- What a probe adds to the history: nothing while an earlier one is not written yet.
  abbrev pub probe_history : List Bytes → Conn → List Bytes
  probe_history h c =
      if at_or_after c.last_probe c.flushed then h else h ++ (sealed_next c.probe c ∷ [])

  probe_unless-IsConn :
      (old : Bool) {h : List Bytes} (c : Conn)
      → IsConn start h c
      → at_or_after c.last_probe c.flushed ≡ old
      → IsConn start (if old then h else h ++ (sealed_next c.probe c ∷ [])) (probe_unless box old c)
  unfolding probe_unless
  probe_unless-IsConn true c i e = i
  probe_unless-IsConn false {h} c i e =
      let at : next c.ring ≡ length h = next-IsWindow i.window in
      rw at (signalled _ true _ (enqueue-IsConn_with c.probe (pos (length h)) i (ground arith)))

  -- `probeOnce` keeps the outbound state in step, and adds one packet at most.
  pub probe_once-IsConn :
      {h : List Bytes} (c : Conn)
      → IsConn start h c
      → IsConn start (probe_history h c) (probe_once box c)
  unfolding probe_once
  probe_once-IsConn c i = probe_unless-IsConn (at_or_after c.last_probe c.flushed) c i refl

  -- What a call of WritePacket adds to the history: its packet, when it was queued.
  abbrev pub written_history : List Bytes → Packet → Conn → Written → List Bytes
  written_history h p c queued = h ++ (sealed_next p c ∷ [])
  written_history h p c _ = h

  write_room-IsConn :
      (below : Bool) (p : Packet) {h : List Bytes} (c : Conn)
      → IsConn start h c
      → let (r, c') = write_room box below p c in IsConn start (written_history h p c r) c'
  unfolding write_room
  write_room-IsConn true p c i = signalled _ true _ (enqueue-IsConn p i)
  write_room-IsConn false p c i = i

  write_alive-IsConn :
      (ended : Option Err) (p : Packet) {h : List Bytes} (c : Conn)
      → IsConn start h c
      → let (r, c') = write_alive box ended p c in IsConn start (written_history h p c r) c'
  unfolding write_alive
  write_alive-IsConn (some e) p c i = i
  write_alive-IsConn none p c i = write_room-IsConn (leb c.unsent c.ring.limit) p c i

  write_pass-IsConn :
      (p : Packet) {h : List Bytes} (c : Conn)
      → IsConn start h c
      → let (r, c') = write_pass box p c in IsConn start (written_history h p c r) c'
  unfolding write_pass
  write_pass-IsConn p c i = write_alive-IsConn c.ended p c i

  -- `WritePacket` keeps the outbound state in step with the history of all packets sealed, whatever it
  -- returns: its packet, sealed, is added exactly when the call returns nil.
  pub write_packet-IsConn :
      (ctx : Option Err) (p : Packet) {h : List Bytes} (c : Conn)
      → IsConn start h c
      → let (r, c') = write_packet box ctx p c in IsConn start (written_history h p c r) c'
  unfolding write_packet
  write_packet-IsConn ctx p {h} c i = elim (Bool-cases (ltb max_payload (length p.payload))) [
    | inl big ↦ rw big i
    | inr fits ↦ rw fits (by_caller ctx)
  ]
    where
      by_caller :
          (o : Option Err)
          → let (r, c') = write_caller box o p c in IsConn start (written_history h p c r) c'
      by_caller none = write_pass-IsConn p c i
      by_caller (some e) = i

  -- So does the pass that a waiting call makes when it is woken.
  pub write_woken-IsConn :
      (why : Woken) (p : Packet) {h : List Bytes} (c : Conn)
      → IsConn start h c
      → let (r, c') = write_woken box why p c in IsConn start (written_history h p c r) c'
  unfolding write_woken
  write_woken-IsConn room p c i =
      write_pass-IsConn p (record c { space = false }) (signalled c c.wake false i)
  write_woken-IsConn (caller_ended e) p c i = i
  write_woken-IsConn (conn_ended e) p c i = i

-- `releaseLocked` restores the bound on what the ring holds, where the other parts stand.
pub release-IsConn :
    {start : Bytes} {h : List Bytes} (c : Conn)
    → IsWindow h c.ring
    → c.ring.first ≤ c.flushed
    → c.flushed ≤ length h
    → c.unsent ≡ total (drop c.flushed h)
    → c.out.nonce ≡ advanced (length h) start
    → at_or_after c.last_probe (length h) ≡ false
    → IsConn start h (release c).0
unfolding release
release-IsConn c w a b d e f =
    let kept = trim-first c.flushed c.unsent c.ring in
    let size = trim-bytes c.flushed c.unsent w a d in
    record {
      window = trim-IsWindow c.flushed c.unsent w;
      from_first = kept.1 a;
      in_history = b;
      backlog = d;
      counted = e;
      probed = f;
      bounded = ground (arith, size, kept);
    }
