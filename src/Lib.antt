-- ===== src/Lib.antt =====
-- et-go, a client for EternalTerminal: a verification library of its core logic.
--
-- The client bootstraps a session over ssh, then keeps one encrypted packet connection to the server
-- that survives lost links. internal/session puts the terminal's traffic on that connection,
-- internal/etcp makes it reliable over links that die, internal/seal encrypts each packet under a
-- counter nonce, and internal/wire frames packets and handshake messages on a link.
--
-- Which file models which part (paths from the repository's root):
--   Protocol      internal/protocol/protocol.go: header values, `Packet`.
--   Wire.Stream   the reader, writer and errors that internal/wire uses; its limits and small helpers.
--   Wire.Body     internal/wire/wire.go: `read_body`.
--   Wire.Frame    internal/wire/frame.go: `append_frame`, `write_frame`, `read_frame`.
--   Wire.Packet   internal/wire/packet.go: `append_packet` on shared memory, `parse_packet`.
--   Wire.Message  internal/wire/message.go: `write_message`, `read_message`.
--   Seal          internal/seal/seal.go: `new`, `seal`, `open_next`, `increment`.
--   Etcp.Ring     internal/etcp/ring.go: the sealed packets kept for the writer and for replay.
--   Etcp.Backoff  internal/etcp/backoff.go: `next_delay`.
--   Etcp.Conn     internal/etcp/conn.go: `write_packet`, `read_packet`, `probe_once`, `release`.
--   Etcp.Reader   internal/etcp/link.go: `read_loop`, `deliver`, `hand_over`, `release_hold`.
--   Etcp.Writer   internal/etcp/link.go: the pass of writeLoop, as `write_pass`.
--   Etcp.Watch    internal/etcp/link.go: the watcher's loop.
--   Etcp.Recover  internal/etcp/recover.go: the exchange at a redial, `finish_recover`.
--   Etcp.Dialer   internal/etcp/dialer.go: `check_options`, `new_conn`, `connect`, `handshake`,
--                 and `reconnect` of internal/etcp/recover.go.
--   Etcp.Supervise internal/etcp/recover.go: `supervise`.
--   Etcp.IdleConn internal/etcp/idleconn.go: `read`, `write`.
--   Etcp.RunLink  internal/etcp/link.go, conn.go: `run_link`, `close`.
--   Etcp.Delivery the steps of a connection against a peer and a network that loses links.
--   Session.Escape  internal/session/escape.go: `filter`.
--   Session.Input   internal/session/terminal.go: `pendingInput`, `latestSize`, `terminalInfo`.
--   Session.Router  internal/session/router.go: `new_router`, `run`.
--   Session.Queue   internal/session/router.go: the queue of a service and its iterator.
--   Session.Terminal internal/session/terminal.go: `read`, `send_round`, `output`.
--   Session.Start   internal/session/session.go: `start`.
--   Session.Transport internal/session/session.go: the Transport interface, with etcp's Conn as one.
--   Session.Run     internal/session/run.go, router.go: `run_session`, `first_cause`.
--   Bootstrap.Parse internal/bootstrap/parse.go: `parse_credentials`.
--   Bootstrap.Command  internal/bootstrap/command.go: `validate`, `remote_command`, `ssh_args`.
--   Bootstrap.Start    internal/bootstrap/bootstrap.go: `run`, `excerpt`, the capped buffer.
--   Console.Utf16   internal/console/utf16.go: `decode_units`, `encode_bytes`, `chunk_len`.
--   Console.Windows internal/console/console_windows.go: `read`, `write`.
--   Console.Modes   internal/console/console_windows.go: `make_raw`, `restore`, `close`.
--   Console.Resizes internal/console/console.go, console_windows.go: `resize_check`, `resizes`.
--   Console.Opening internal/console/console_windows.go: `open_modes`.
--   Console.Break   internal/console/console_windows.go: `on_break`, `ctrl_handler`, `wake_reader`.
--   Console.Unix    internal/console/console_unix.go: `open_console`, `make_raw`, `restore`, `close`.
--   Cmd.Destination cmd/et/flags.go: `parse_destination`.
--   Cmd.Flags       cmd/et/flags.go: `parse_args`, behind the flag package's Parse.
--   Cmd.Run         cmd/et/run.go: `run_with`, `connect`, `exit_code`.
--   Cmd.Resolve     cmd/et/resolve.go: `resolve_host`.
--   Cmd.Logging     cmd/et/logging.go: `new_logger`, `default_log_path`.
--   Bootstrap.Credentials, Protocol.Redact, Seal.Shown  internal/bootstrap/credentials.go,
--                   internal/protocol/redact.go and internal/seal/seal.go: what is shown of secrets.
--   Server          internal/etservertest/server.go: the server that the client is tested against, as
--                   `new_server`, `admit`, `accept`, `send`, `recv`.
--   Server.Links    internal/etservertest/server.go: `serve`, `recover`, `read_loop`, `write_loop`.
--   Server.Network  internal/etservertest/network.go: `dial_context`, `write` under a byte budget.
-- Server.EndToEnd, Server.Downstream and Server.Links.Resume put the client of Etcp and that server
-- together: client to server, server to client, and a redial of both.
-- Strings and Unicode hold the parts of Go's strings, strconv and unicode packages that these use, as
-- documented.
-- Prelude holds the shared tests, lists, bytes and integers. Modules below a part hold its proofs; each
-- part's Tests hold concrete runs.
--
-- State is passed explicitly. What the code does under one mutex is one step; goroutines meet as steps
-- of a relation (Etcp.Delivery, Server.Faithful, Server.Downstream, Session.Input.Order,
-- Session.Queue.Draining), or as arguments that say what the other side did (`Link`, `Exchange`,
-- `Woken`). Errors are values that keep what errors.Is can tell apart.
--
-- Numbers are natural numbers where the code uses int or int64 for counts and sizes that stay far below
-- their limits; a number that a peer sends may be negative and is an integer. Loops that are not
-- structural run on fuel: `read_body` on one round for each byte asked for, `read_frames` on one for
-- each byte of the stream and one more, `send_pieces` on one for each byte of the batch and one more;
-- this is enough, as each round takes at least one byte. `write_loop` of the console, `write_from` of
-- Etcp.IdleConn and `send_pending` take one round for each unit or byte and one more, for the same
-- reason.
--
-- Parameters, with what the code relies on as hypotheses: secretbox (`Secretbox`, `SecretboxLaws`),
-- protobuf (`Proto`, `ProtoLaws`), the socket (`IsWriter` where io.Writer's contract is relied on),
-- net.Pipe (`IsPipe`), the state of a Unix terminal, and the jitter (`IsJitter`). What the console,
-- ssh and the transport answered are arguments.
--
-- Not modelled: goroutine start and join, timers as such, and what is logged on the way; the system
-- calls of internal/console, with the query of Size on Windows; the ssh process and the flag package;
-- the formatting that fmt and encoding/json do themselves; generated code; the rules for the linter,
-- which are patterns that another program interprets.
pub mod Prelude
pub mod Protocol
pub mod Wire
pub mod Seal
pub mod Etcp
pub mod Session
pub mod Strings
pub mod Bootstrap
pub mod Unicode
pub mod Console
pub mod Cmd
pub mod Server
