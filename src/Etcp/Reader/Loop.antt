-- ===== src/Etcp/Reader/Loop.antt =====
-- The reader's loop over a whole link, and what it adds to the packets that wait.
use et_go.Prelude.{◌≡◌, Option, some}
use et_go.Wire.Stream.{Stream}
use et_go.Etcp.Reader.Counting.{Adds}
use et_go.Etcp.Conn.{Conn, Err}
use et_go.Etcp.Reader.{Handed}

-- The loop has come to an end, with an error, and with what it added.
abbrev pub Ends : Conn → Option Handed → Type 0
Ends c o = (r : Handed) × (e : Err) × (o ≡ some r) × (r.failed ≡ some e) × Adds c r
