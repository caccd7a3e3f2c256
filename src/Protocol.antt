-- ===== src/Protocol.antt =====
-- internal/protocol/protocol.go: the header byte and the plaintext packet.
pub mod Redact
use et_go.Prelude.{ℕ, Bytes}

-- `Header` is a uint8; the named values are those of protocol.go.
abbrev pub Header : Type 0
Header = ℕ

abbrev pub header_keep_alive : Header
header_keep_alive = 0

abbrev pub header_terminal_buffer : Header
header_terminal_buffer = 1

abbrev pub header_terminal_info : Header
header_terminal_info = 2

abbrev pub header_terminal_close : Header
header_terminal_close = 11

abbrev pub header_terminal_exit_status : Header
header_terminal_exit_status = 12

abbrev pub header_initial_response : Header
header_initial_response = 252

abbrev pub header_initial_payload : Header
header_initial_payload = 253

-- The protocol version that the client states in its ConnectRequest.
abbrev pub version : ℕ
version = 6

pub record Packet : Type 0 where
  pub header : Header
  pub payload : Bytes
