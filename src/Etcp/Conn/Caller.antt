-- ===== src/Etcp/Conn/Caller.antt =====
-- What the caller of WritePacket and ReadPacket sees.
use et_go.Prelude.{
  ℕ, zero, suc, map, ◌≤◌, ◌<◌, ◌≡◌, ◌≢◌, ◌⊎◌, refl, List, [], ◌∷◌, ◌++◌, true, Option, none, some,
  length, arith,
}
use et_go.Protocol.{Packet}
use et_go.Seal.{Secretbox}
use et_go.Etcp.Conn.{
  Conn, Err, queued, waiting, write_pass, write_packet, max_payload, Taken, packet, failed, blocked,
  ReadCase, from_inbox, from_conn, caller_done, read_packet,
}

module _ (box : Secretbox) where
  -- `WritePacket` queues a packet exactly when its payload fits one sealed frame, neither context has
  -- ended, and the unsent backlog is at or below the limit. It then wakes the link writer, and passes
  -- the turn on while there is still room. In every other case it changes nothing.
  pub write_packet-queued :
      (ctx : Option Err) (p : Packet) (c : Conn)
      → let (r, c') = write_packet box ctx p c in
        ((r ≡ queued)
          × (length p.payload ≤ max_payload)
          × (ctx ≡ none)
          × (c.ended ≡ none)
          × (c.unsent ≤ c.ring.limit)
          × (c'.wake ≡ true)
          × (c'.unsent ≤ c'.ring.limit → c'.space ≡ true))
        ⊎ ((r ≢ queued)
            × (c' ≡ c)
            × ((max_payload < length p.payload)
                ⊎ ((ctx ≢ none)
                    ⊎ ((c.ended ≢ none) ⊎ ((c.ring.limit < c.unsent) × (r ≡ waiting))))))
  unfolding write_packet write_pass
  write_packet-queued ctx p c = ground arith

-- What each answer of ReadPacket says of the packets that wait for the caller, oldest first.
abbrev pub Took : Taken → Conn → Conn → Type 0
Took (packet p) c c' = c.inbox ++ c.pending ≡ p ∷ (c'.inbox ++ c'.pending)
Took (failed e) c c' = (c' ≡ c) × Unit {0}
Took blocked c c' = (c' ≡ c) × Unit {0}

-- `ReadPacket` returns the oldest packet that waits, from the inbox before the pending ones, and takes
-- that one alone.
pub read_packet-order :
    (case : ReadCase) (c : Conn) → let (r, c') = read_packet case c in Took r c c'
unfolding read_packet
read_packet-order from_inbox c = ground arith
read_packet-order (caller_done e) c = ground arith
read_packet-order from_conn c = ground arith

-- A caller that goes on reading from an ended connection, `n` times.
pub drain : ℕ → Conn → List Taken
drain zero c = []
drain (suc n) c = let (r, c') = read_packet from_conn c in r ∷ drain n c'

drain_pending :
    (e : Err) (ps : List Packet) (c : Conn)
    → c.ended ≡ some e
    → c.readers_done ≡ true
    → c.inbox ≡ []
    → c.pending ≡ ps
    → drain (suc (length ps)) c ≡ map packet ps ++ (failed e ∷ [])
unfolding drain read_packet
drain_pending e [] c a b i j = ground arith
drain_pending e (p ∷ ps) c a b i j = ground (arith, drain_pending e ps (record c { pending = ps }))

drain_inbox :
    (e : Err) (qs ps : List Packet) (c : Conn)
    → c.ended ≡ some e
    → c.readers_done ≡ true
    → c.inbox ≡ qs
    → c.pending ≡ ps
    → drain (suc (length (qs ++ ps))) c ≡ map packet (qs ++ ps) ++ (failed e ∷ [])
unfolding drain read_packet
drain_inbox e [] ps c a b i j = drain_pending e ps c a b i j
drain_inbox e (q ∷ qs) ps c a b i j = ground (arith, drain_inbox e qs ps (record c { inbox = qs }))

-- Once the connection has ended with `e` and its readers have stopped, ReadPacket still returns every
-- packet that waits, in order, and only then `e`.
pub drain_all :
    (e : Err) (c : Conn)
    → c.ended ≡ some e
    → c.readers_done ≡ true
    → let waiting = c.inbox ++ c.pending in
      drain (suc (length waiting)) c ≡ map packet waiting ++ (failed e ∷ [])
drain_all e c a b = drain_inbox e c.inbox c.pending c a b refl refl
