-- ===== src/Etcp/Delivery/Exactly.antt =====
-- Exactly once and in order, whatever links die.
use et_go.Prelude.{
  ℕ, ◌⊎◌, inl, inr, Bool-cases, ◌+◌, ◌-◌, ◌≤◌, ◌≡◌, refl, sym, ap, ◌∙◌, List, [], ◌∷◌, ◌++◌, true,
  false, none, some, Bytes, length, total, take, drop, pos, arith, append_assoc, append-nil,
  take-append-drop, length-append, drop-append_le, drop-append, drop_all, drop-drop, take_all,
}
use et_go.Seal.{Secretbox}
use et_go.Etcp.Ring.{next, since}
use et_go.Etcp.Ring.Window.{IsWindow, append_range-IsWindow, since-IsWindow, next-IsWindow}
use et_go.Etcp.Conn.{Conn, write_packet, write_woken}
use et_go.Etcp.Conn.Invariant.{IsConn, write_packet-IsConn, write_woken-IsConn, probe_once-IsConn}
use et_go.Etcp.Recover.Catchup.{finish_recover-IsConn}
use et_go.Etcp.Writer.Settle.{settle-IsConn}
use et_go.Etcp.Delivery.{
  World, batch, Step, write, resume, probe, send, spill, arrive, speak, lose, offer, recover, Reach,
  here, more,
}
use et_go.Etcp.Delivery.Flushed.{
  release_hold-IsConn, release_hold-flushed, settle-flushed, finish_recover-flushed, written_more,
  probe_more, write_packet-flushed, write_woken-flushed, probe_once-flushed,
}

-- `lost` is what was sealed and is neither at the peer nor on the wire.
record Accounted (start : Bytes) (w : World) : Type 0 where
  state : IsConn start w.history w.conn
  lost : List Bytes
  sent : w.got ++ (w.wire ++ lost) ≡ w.history
  on_link : w.linked ≡ true → lost ≡ drop w.conn.flushed w.history
  catching_up :
      (peer snap : ℕ)
      → w.offered ≡ some (peer, snap)
      → (lost ≡ drop snap w.history)
        × (w.conn.flushed ≤ snap)
        × (snap ≤ length w.history)
        × (w.linked ≡ false)

-- A step of the client's callers: the history grows at its end and nothing is written.
grown :
    {start : Bytes} (w : World) (c : Conn) (h ds : List Bytes)
    → Accounted start w
    → IsConn start h c
    → c.flushed ≡ w.conn.flushed
    → h ≡ w.history ++ ds
    → Accounted start (record w { conn = c; history = h })
grown w c h ds a i same e = record {
  state = i;
  lost = a.lost ++ ds;
  sent =
      ground
        (arith, e, a.sent, append_assoc w.wire a.lost ds, append_assoc w.got (w.wire ++ a.lost) ds);
  on_link = λ l.
      ground (
        arith,
        e,
        same,
        a.on_link l,
        drop-append_le w.conn.flushed w.history ds a.state.in_history,
      );
  catching_up = λ peer snap o. (
    ground (
      arith,
      e,
      a.catching_up peer snap o,
      drop-append_le snap w.history ds (a.catching_up peer snap o).2,
    ),
    ground (arith, same, a.catching_up peer snap o),
    ground (arith, e, a.catching_up peer snap o, length-append {0} w.history ds),
    (a.catching_up peer snap o).3,
  );
}

-- The catchup is everything that the peer has not counted.
offered_all :
    (w : World) (ours lost : List Bytes)
    → IsWindow w.history w.conn.ring
    → w.got ++ lost ≡ w.history
    → since (pos (length w.got)) (next w.conn.ring) w.conn.ring ≡ some ours
    → ours ≡ lost
offered_all w ours lost i whole known = ground (
  arith,
  known,
  whole,
  next-IsWindow i,
  since-IsWindow (length w.got) (next w.conn.ring) i,
  drop-append w.got lost,
  length-append {0} w.got lost,
  take_all (length w.history - length w.got) lost,
)

module _ (box : Secretbox) {start : Bytes} where
  -- A batch is the front of what is not written yet.
  batch_front :
      (w : World) (n : ℕ)
      → IsConn start w.history w.conn
      → (batch n w.conn ≡ take n (drop w.conn.flushed w.history))
        × (drop w.conn.flushed w.history ≡ batch n w.conn ++ drop (w.conn.flushed + n) w.history)
  batch_front w n i =
      let width : (w.conn.flushed + n) - w.conn.flushed ≡ n = omega arith in
      let front : batch n w.conn ≡ take n (drop w.conn.flushed w.history) =
        append_range-IsWindow w.conn.flushed (w.conn.flushed + n) i.window i.from_first
        ∙ ap (λ k. take k (drop w.conn.flushed w.history)) width in
      (
        front,
        ground (
          arith,
          front,
          take-append-drop n (drop w.conn.flushed w.history),
          drop-drop n w.conn.flushed w.history,
        ),
      )

  step-Accounted : {w v : World} → Step box start w v → Accounted start w → Accounted start v
  step-Accounted (write w ctx p) a =
      let more = written_more box start w.history p w.conn (write_packet box ctx p w.conn).0 in
      grown w _ _ more.0 a (write_packet-IsConn box start ctx p w.conn a.state)
        (write_packet-flushed box ctx p w.conn) more.1
  step-Accounted (resume w why p) a =
      let more = written_more box start w.history p w.conn (write_woken box why p w.conn).0 in
      grown w _ _ more.0 a (write_woken-IsConn box start why p w.conn a.state)
        (write_woken-flushed box why p w.conn) more.1
  step-Accounted (probe w) a =
      let more = probe_more box start w.history w.conn in
      grown w _ _ more.0 a (probe_once-IsConn box start w.conn a.state)
        (probe_once-flushed box w.conn) more.1
  step-Accounted (send w n l fits) a =
      let (front, split) = batch_front w n a.state in
      let count = next-IsWindow a.state.window in
      record {
        state =
            settle-IsConn n (total (batch n w.conn)) w.conn a.state (omega (arith, fits, count))
              (ap total front);
        lost = drop (w.conn.flushed + n) w.history;
        sent = rw⁻¹ a.sent (
            ground (
              arith,
              a.sent,
              a.on_link l,
              split,
              append_assoc w.wire (batch n w.conn) (drop (w.conn.flushed + n) w.history),
            ));
        on_link = λ _. rw (settle-flushed n (total (batch n w.conn)) w.conn) refl;
        catching_up = λ peer snap o. absurd (ground (arith, l, a.catching_up peer snap o));
      }
  step-Accounted (spill w n l fits) a =
      let (front, split) = batch_front w n a.state in
      record {
        state = a.state;
        lost = drop (w.conn.flushed + n) w.history;
        sent = ground (
          arith,
          a.sent,
          a.on_link l,
          split,
          append_assoc w.wire (batch n w.conn) (drop (w.conn.flushed + n) w.history),
        );
        on_link = λ x. absurd (ground (arith, x));
        catching_up = λ peer snap o. absurd (ground (arith, l, a.catching_up peer snap o));
      }
  step-Accounted (arrive w d rest e) a = record {
    state = a.state;
    lost = a.lost;
    sent = ground (arith, a.sent, e, append_assoc w.got (d ∷ []) (rest ++ a.lost));
    on_link = a.on_link;
    catching_up = a.catching_up;
  }
  step-Accounted (speak w) a = record {
    state = release_hold-IsConn w.conn a.state;
    lost = a.lost;
    sent = a.sent;
    on_link = λ l. ground (arith, a.on_link l, release_hold-flushed w.conn);
    catching_up =
        λ peer snap o. ground (arith, a.catching_up peer snap o, release_hold-flushed w.conn);
  }
  step-Accounted (lose w) a = record {
    state = a.state;
    lost = w.wire ++ a.lost;
    sent = a.sent;
    on_link = λ l. absurd (ground (arith, l));
    catching_up = λ peer snap o. absurd (ground (arith, o));
  }
  step-Accounted (offer w ours l dry known) a =
      let count = next-IsWindow a.state.window in
      let whole : w.got ++ a.lost ≡ w.history = ground (arith, a.sent, dry) in
      let ours_all = offered_all w ours a.lost a.state.window whole known in
      record {
        state = a.state;
        lost = [];
        sent = ground (arith, whole, ours_all, append-nil ours);
        on_link = λ x. absurd (ground (arith, x, l));
        catching_up = λ peer snap o. ground (
          arith,
          o,
          count,
          drop_all (length w.history) w.history (omega arith),
          a.state.in_history,
          l,
        );
      }
  step-Accounted (recover w peer snap o) a =
      let (behind, ahead, inside, unlinked) = a.catching_up peer snap o in
      record {
        state = (finish_recover-IsConn (pos peer) snap w.conn a.state ahead inside).4;
        lost = a.lost;
        sent = a.sent;
        on_link = λ l. rw (finish_recover-flushed (pos peer) snap w.conn) behind;
        catching_up = λ peer snap o. absurd (ground (arith, o));
      }

  reach-Accounted : {w v : World} → Reach box start w v → Accounted start w → Accounted start v
  reach-Accounted here a = a
  reach-Accounted (more r s) a = step-Accounted s (reach-Accounted r a)

  -- From a fresh connection, whatever the callers write and whichever links die, the peer has counted
  -- a front of the packets sealed so far, each once and in their order, and the outbound state is in
  -- step with them. While the link is up, what it carries and the backlog are exactly the rest.
  pub exactly_once :
      (w v : World)
      → IsConn start [] w.conn
      → w.history ≡ []
      → w.wire ≡ []
      → w.got ≡ []
      → w.offered ≡ none
      → Reach box start w v
      → IsConn start v.history v.conn
        × ((rest : List Bytes) × (v.got ++ rest ≡ v.history))
        × ((v.linked ≡ false) ⊎ (v.got ++ (v.wire ++ drop v.conn.flushed v.history) ≡ v.history))
  exactly_once w v i fresh dry none_yet no_offer r =
      let a₀ : Accounted start w = record {
        state = rw fresh i;
        lost = [];
        sent = ground (arith, fresh, dry, none_yet);
        on_link = λ l. rw fresh (sym (drop_all w.conn.flushed [] (omega arith)));
        catching_up = λ peer snap o. absurd (ground (arith, o, no_offer));
      } in
      let a = reach-Accounted r a₀ in
      (
        a.state,
        (v.wire ++ a.lost, a.sent),
        elim (Bool-cases v.linked) [
          | inl l ↦ inr (ground (arith, a.sent, a.on_link l))
          | inr l ↦ inl l
        ],
      )
