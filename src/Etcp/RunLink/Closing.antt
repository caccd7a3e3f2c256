-- ===== src/Etcp/RunLink/Closing.antt =====
-- How a link and a connection end.
use et_go.Prelude.{
  suc, map, ◌≡◌, ◌≤◌, ◌⊎◌, inl, refl, ◌∙◌, List, [], ◌∷◌, ◌++◌, true, Option, none, some, length,
  arith,
}
use et_go.Protocol.{Packet}
use et_go.Seal.{Secretbox}
use et_go.Etcp.Conn.{
  Conn, Err, closed, fail, refused, write_packet, write_pass, max_payload, packet, failed,
}
use et_go.Etcp.Conn.Caller.{drain, drain_all}
use et_go.Etcp.RunLink.{
  LinkEnd, reader_returned, writer_returned, watcher_returned, conn_ended, Running, new_link,
  link_step, run_link, close,
}

-- The cause that a connection ends with: its own first, or net.ErrClosed.
abbrev pub cause_of : Option Err → Err
cause_of none = closed
cause_of (some e) = e

fail-ended : (c : Conn) → (fail closed c).ended ≡ some (cause_of c.ended)
unfolding fail
fail-ended c = ground arith

module _ (box : Secretbox) where
  write_packet-ended :
      (e : Err) (p : Packet) (c : Conn)
      → length p.payload ≤ max_payload
      → c.ended ≡ some e
      → write_packet box none p c ≡ (refused e, c)
  unfolding write_packet write_pass
  write_packet-ended e p c small ended = ground (arith, ended)

  -- Whatever the goroutines did until they returned, as long as the connection's first cause stays:
  -- behind Close, WritePacket refuses every packet that is not too large with that cause, which is
  -- net.ErrClosed unless the connection had already failed, and changes nothing; ReadPacket still
  -- returns every packet that waits, in order, and only then the cause.
  pub close-Closed :
      (rest : Conn → Conn) (p : Packet) (c : Conn)
      → (rest (fail closed c)).ended ≡ (fail closed c).ended
      → length p.payload ≤ max_payload
      → let c' = close rest c in
        let waiting = c'.inbox ++ c'.pending in
        (write_packet box none p c' ≡ (refused (cause_of c.ended), c'))
        × (drain (suc (length waiting)) c' ≡ map packet waiting ++ (failed (cause_of c.ended) ∷ []))
  unfolding close
  close-Closed rest p c kept small =
      let c' : Conn = record (rest (fail closed c)) { readers_done = true } in
      let ended : c'.ended ≡ some (cause_of c.ended) = kept ∙ fail-ended c in
      (
        write_packet-ended (cause_of c.ended) p c' small ended,
        drain_all (cause_of c.ended) c' ended refl,
      )

-- The error of an event.
abbrev pub error_of : LinkEnd → Err
error_of (reader_returned e) = e
error_of (writer_returned e) = e
error_of (watcher_returned e) = e
error_of (conn_ended e) = e

link_step-cause :
    (x : LinkEnd) (r : Running) (e : Err)
    → r.cause ≡ some e
    → r.nc_closed ≡ true
    → ((link_step x r).cause ≡ some e) × ((link_step x r).nc_closed ≡ true)
unfolding link_step
link_step-cause (reader_returned x) r e a b = ground (arith, a, b)
link_step-cause (writer_returned x) r e a b = ground (arith, a, b)
link_step-cause (watcher_returned x) r e a b = ground (arith, a, b)
link_step-cause (conn_ended x) r e a b = ground (arith, a, b)

-- The link ends with `e`, once it does, and its socket is closed.
abbrev pub EndsWith : Err → Option (Option Err) × Running → Type 0
EndsWith e (returned, r) =
    (r.cause ≡ some e) × (r.nc_closed ≡ true) × ((returned ≡ none) ⊎ (returned ≡ some (some e)))

-- A context that has ended keeps its cause.
run_link-cause :
    (es : List LinkEnd) (r : Running) (e : Err)
    → r.cause ≡ some e
    → r.nc_closed ≡ true
    → EndsWith e (run_link es r)
unfolding run_link
run_link-cause [] r e a b = (a, b, inl refl)
run_link-cause (x ∷ es) r e a b =
    let (cause, shut) = link_step-cause x r e a b in
    ground (arith, cause, shut, run_link-cause es (link_step x r) e cause shut)

first_cause :
    (x : LinkEnd)
    → ((link_step x new_link).cause ≡ some (error_of x)) × ((link_step x new_link).nc_closed ≡ true)
unfolding link_step
first_cause (reader_returned e) = (refl, refl)
first_cause (writer_returned e) = (refl, refl)
first_cause (watcher_returned e) = (refl, refl)
first_cause (conn_ended e) = (refl, refl)

-- The first of the events decides what a link ends with, and closes its socket.
pub run_link-EndsWith :
    (x : LinkEnd) (es : List LinkEnd) → EndsWith (error_of x) (run_link (x ∷ es) new_link)
unfolding run_link
run_link-EndsWith x es =
    let (cause, shut) = first_cause x in
    ground (arith, cause, shut, run_link-cause es (link_step x new_link) (error_of x) cause shut)
