-- ===== src/Session/Start.antt =====
-- internal/session/session.go: the start of a session.
--
-- The transport's answers are arguments: what WritePacket and ReadPacket returned, the latter with
-- whether Start's own timeout had ended its context. proto.Marshal and proto.Unmarshal are arguments too,
-- none for an error; `unmarshal` gives the error text of an InitialResponse. What is quoted into an error
-- is kept unquoted.
pub mod Rejected
use et_go.Prelude.{
  ℕ, zero, suc, ◌+◌, ◌-◌, List, [], ◌∷◌, ◌++◌, Bool, true, false, ◌&&◌, Option, none, some, Bytes,
  length, take, drop, leb, ltb, ◌==◌, if◌then◌else◌,
}
use et_go.Protocol.{Header, Packet, header_initial_payload, header_initial_response}
use et_go.Unicode.{rune_error, decode_rune}

-- maxRejectText.
abbrev pub max_reject_text : ℕ
max_reject_text = 256

pub data StartErr : Type 0 where
  encode_failed bad_response start_timeout : StartErr
  send_failed wait_failed : ℕ → StartErr
  not_response : Header → StartErr
  start_rejected : Bytes → StartErr

pub data Reply : Type 0 where
  got_reply : Packet → Reply
  no_reply : Bool → ℕ → Reply

-- `strings.ToValidUTF8` with an empty replacement, on fuel: the bytes of runes that decode.
unfoldable pub valid_text : ℕ → Bytes → Bytes
valid_text zero s = []
valid_text (suc n) s =
    let (r, size) = decode_rune s in
    let rest = valid_text n (drop size s) in
    if r == rune_error && size == 1 then rest else take size s ++ rest

unfoldable pub to_valid_utf8 : Bytes → Bytes
to_valid_utf8 s = valid_text (length s) s

reject_text : Bytes → Bytes
reject_text msg =
    if ltb max_reject_text (length msg) then to_valid_utf8 (take max_reject_text msg) else msg

by_text : Option Bytes → Option StartErr
by_text none = some bad_response
by_text (some []) = none
by_text (some (c ∷ msg)) = some (start_rejected (reject_text (c ∷ msg)))

by_reply : (Bytes → Option Bytes) → Reply → Option StartErr
by_reply unmarshal (no_reply true e) = some start_timeout
by_reply unmarshal (no_reply false e) = some (wait_failed e)
by_reply unmarshal (got_reply p) =
    if p.header == header_initial_response
    then by_text (unmarshal p.payload)
    else some (not_response p.header)

by_write : (Bytes → Option Bytes) → Reply → Option ℕ → Option StartErr
by_write unmarshal reply (some e) = some (send_failed e)
by_write unmarshal reply none = by_reply unmarshal reply

-- `Start`, with the packets given to WritePacket. `payload` is what Marshal gave for the InitialPayload
-- that asks for the exit status.
unfoldable pub start :
    Option Bytes → (Bytes → Option Bytes) → Option ℕ → Reply → Option StartErr × List Packet
unfolding reject_text by_text by_reply by_write
start none unmarshal written reply = (some encode_failed, [])
start (some b) unmarshal written reply =
    (by_write unmarshal reply written, record { header = header_initial_payload; payload = b } ∷ [])
