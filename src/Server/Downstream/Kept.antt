-- ===== src/Server/Downstream/Kept.antt =====
-- What a step of the server, and what a read, leaves of the packets told and taken.
use et_go.Prelude.{◌≡◌, refl, sym, ap, ◌∙◌, List, [], ◌∷◌, ◌++◌, arith, append_assoc, append-nil}
use et_go.Protocol.{Packet}
use et_go.Seal
use et_go.Seal.{Secretbox, SecretboxLaws}
use et_go.Etcp.Conn.{
  Conn, ReadCase, Taken, packet, failed, blocked, read_packet, from_inbox, caller_done, from_conn,
}
use et_go.Etcp.Conn.Caller.{Took}
use et_go.Etcp.Reader.Delivery.{waiting}
use et_go.Server.Accepting.{echoes}
use et_go.Server.Faithful
use et_go.Server.Faithful.{
  Step, Faithful, fresh-Faithful, step-Faithful, admits, takes_over, accepts, refuses, sends,
  receives, is_notified, is_woken, ends, sets_echo,
}
use et_go.Server.Downstream.{given}

-- A step of the server adds to what it told, if anything.
pub step-told :
    {box : Secretbox} {inward₀ : Seal.Stream} {u v : Faithful.World}
    → Step box inward₀ u v
    → (more : List Packet) × (v.told ≡ u.told ++ more)
step-told (admits w req) = ([], sym (append-nil w.told))
step-told (takes_over w link) = ([], sym (append-nil w.told))
step-told (accepts w p) = (echoes w.server.echo (p ∷ []), refl)
step-told (refuses w b why) = ([], sym (append-nil w.told))
step-told (sends w p) = (p ∷ [], refl)
step-told (receives w p ctx h) = ([], sym (append-nil w.told))
step-told (is_notified w) = ([], sym (append-nil w.told))
step-told (is_woken w) = ([], sym (append-nil w.told))
step-told (ends w) = ([], sym (append-nil w.told))
step-told (sets_echo w on) = ([], sym (append-nil w.told))

-- What a read gave and what still waits are what waited before.
pub Took-kept :
    (r : Taken) (c c' : Conn) (taken : List Packet)
    → Took r c c'
    → (taken ++ given r) ++ waiting c' ≡ taken ++ waiting c
Took-kept (packet p) c c' taken t =
    append_assoc taken (p ∷ []) (waiting c') ∙ ap (λ ps. taken ++ ps) (sym t)
Took-kept (failed e) c c' taken t = rw (append-nil taken, t.0) refl
Took-kept blocked c c' taken t = rw (append-nil taken, t.0) refl

pub read_packet-keeps :
    (case : ReadCase) (c : Conn)
    → ((read_packet case c).1.recv_seq ≡ c.recv_seq) × ((read_packet case c).1.inward ≡ c.inward)
unfolding read_packet
read_packet-keeps from_inbox c = ground arith
read_packet-keeps (caller_done e) c = ground arith
read_packet-keeps from_conn c = ground arith
