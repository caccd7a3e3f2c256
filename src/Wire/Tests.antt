-- ===== src/Wire/Tests.antt =====
-- Concrete runs of internal/wire.
use et_go.Prelude.{
  ◌-◌, ◌*◌, ◌≡◌, ◌≤◌, refl, sym, le_bytes, max, [], ◌∷◌, ◌++◌, true, none, some, Bytes, length,
  take, arith,
}
use et_go.Wire.Stream.{Stream, eof, Outcome, ok, Writer, write_checked, grow_chunk}
use et_go.Wire.Body.{read_body}
use et_go.Wire.Body.Laws.{read_body-capacity}
use et_go.Wire.Frame.{read_frame}
use et_go.Wire.Frame.Laws.{read_frame-cases, frame_read}
use et_go.Wire.Packet.{append_packet, inside, load}
use et_go.Wire.Packet.Laws.{append_packet-layout}
use et_go.Wire.Message.{Proto, write_message, read_message}
use et_go.Wire.Message.Laws.{read_message-write_message}

abbrev four : Bytes
four = 1 ∷ 2 ∷ 3 ∷ 4 ∷ []

-- A stream that ends within the body, and one that ends within the length.
abbrev cut_short : Stream
cut_short = record { bytes = 0 ∷ 0 ∷ 0 ∷ 9 ∷ four; ending = eof }

abbrev cut_early : Stream
cut_early = record { bytes = 0 ∷ 0 ∷ []; ending = eof }

-- A writer that takes everything.
abbrev takes_all : Writer
takes_all b = (length b, none)

abbrev bytes_proto : Proto Bytes
bytes_proto = record { size = length; marshal = some; unmarshal = some }

read_body-capacity_example :
    let r = read_body 0 9 cut_short in
    (r.capacity ≤ max 0 (max 9 grow_chunk))
    × (r.capacity
        ≤ max 0 (max (2 * grow_chunk) (4 * (length cut_short.bytes - length r.rest.bytes))))
read_body-capacity_example = read_body-capacity 0 9 cut_short

read_frame-cases_example :
    ◌≡◌ {A = Outcome Bytes × Stream}
      ((read_frame 0 cut_early).outcome, (read_frame 0 cut_early).rest)
      (frame_read cut_early)
read_frame-cases_example = read_frame-cases 0 cut_early

append_packet-layout_example :
    append_packet (9 ∷ four) 1 true 253 (inside 2 2)
    ≡ take 1 (9 ∷ four) ++ (1 ∷ 253 ∷ load (9 ∷ four) (inside 2 2))
append_packet-layout_example = append_packet-layout (9 ∷ four) 1 true 253 (inside 2 2) (omega arith)

read_message-write_message_example :
    read_message bytes_proto
      (record { bytes = (4 ∷ 0 ∷ 0 ∷ 0 ∷ 0 ∷ 0 ∷ 0 ∷ 0 ∷ four) ++ (5 ∷ []); ending = eof })
    ≡ (ok four, record { bytes = 5 ∷ []; ending = eof })
unfolding write_message write_checked le_bytes
read_message-write_message_example =
    read_message-write_message bytes_proto takes_all four (4 ∷ 0 ∷ 0 ∷ 0 ∷ 0 ∷ 0 ∷ 0 ∷ 0 ∷ four)
      (5 ∷ []) eof (record { exact_size = λ m b e. ground (arith, e); decodes = λ m b e. sym e })
      refl
