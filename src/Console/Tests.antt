-- ===== src/Console/Tests.antt =====
-- Concrete runs of internal/console.
mod Unix
use et_go.Prelude.{
  ℕ, zero, suc, ◌≡◌, refl, inl, List, [], ◌∷◌, true, false, none, some, Bytes, All, concat, arith,
}
use et_go.Unicode.{decode_rune, full_rune, utf8_rune, utf8_runes, decode_pair, lead, utf16_rune}
use et_go.Unicode.Runes.{IsScalar}
use et_go.Console.Utf16.{encode_bytes, decode_units, decode_next, encode_rest, encode_joined}
use et_go.Console.Utf16.Encoding.{encode_all, encoded, encode_all-encoded}
use et_go.Console.Utf16.Decoding.{decode_all, decode_all-encode_all}
use et_go.Console.Windows.{Reader, ConsoleRead, got, read, ConsoleWrite, wrote, not_written}
use et_go.Console.Windows.Reading.{Gives, read-Gives}
use et_go.Console.Modes.{
  InMode, OutMode, Console, raw_in, RawAnswers, ModeAnswer, make_raw, restore, restore_locked,
  set_if_changed, close,
}
use et_go.Console.Opening.{OpenAnswers, gave, opened, open_modes}
use et_go.Console.Opening.Baseline.{open_close-restores}
use et_go.Console.Resizes.{WindowSize, Turn, woke, sized, size_failed, resizes}
use et_go.Console.Resizes.Changes.{Reports, changes, measured, resizes-Reports}
use et_go.Console.Modes.Restored.{
  ModeStep, making_raw, restoring, no_step, one_more, close-restores,
}

-- "é" and U+1F600 in UTF-8, cut within both.
abbrev writes : List Bytes
writes = (195 ∷ []) ∷ (169 ∷ 240 ∷ 159 ∷ []) ∷ (152 ∷ 128 ∷ []) ∷ []

-- Their units, cut within the pair.
abbrev reads : List (List ℕ)
reads = (233 ∷ 55357 ∷ []) ∷ (56832 ∷ []) ∷ []

encode_all-encoded_example : encode_all [] writes ≡ encoded (concat writes)
encode_all-encoded_example = encode_all-encoded writes

scalars : All IsScalar (233 ∷ 128512 ∷ [])
scalars = ground arith

same_text : concat writes ≡ utf8_runes (233 ∷ 128512 ∷ [])
unfolding utf8_rune utf8_runes
same_text = refl

same_units : concat reads ≡ (encode_all [] writes).0
unfolding encode_bytes encode_rest encode_joined decode_rune full_rune lead utf16_rune
same_units = refl

decode_all-encode_all_example :
    (decode_all 0 reads ≡ (concat writes, 0)) × ((encode_all [] writes).1 ≡ [])
decode_all-encode_all_example =
    decode_all-encode_all (233 ∷ 128512 ∷ []) writes reads scalars same_text same_units

-- A reader that holds a high surrogate, and a console read with the low one and a letter.
abbrev half_read : Reader
half_read = record { high = 55357; pending = []; pending_off = 0 }

abbrev console_reads : List ConsoleRead
console_reads =
    record { units = 56832 ∷ 97 ∷ []; failed = none; closing = false; closing_next = false } ∷ []

gave_three : (read 3 false console_reads half_read).result ≡ got (240 ∷ 159 ∷ 152 ∷ [])
unfolding read decode_units decode_next decode_pair utf8_rune
gave_three = refl

read-Gives_example :
    Gives 3 half_read (240 ∷ 159 ∷ 152 ∷ []) console_reads (read 3 false console_reads half_read)
read-Gives_example =
    read-Gives 3 false console_reads half_read (240 ∷ 159 ∷ 152 ∷ []) (inl (refl, refl)) gave_three

-- A console that writes one unit of each chunk, then fails.
abbrev one_then_none : ℕ → ConsoleWrite
one_then_none zero = wrote 1
one_then_none (suc n) = not_written 8

abbrev line_mode : InMode
line_mode = record {
  processed = true;
  line = true;
  echo = true;
  window = false;
  vt_input = false;
  other = 496;
}

abbrev plain_out : OutMode
plain_out = record {
  vt_processing = false;
  processed = true;
  wrap = true;
  no_auto_return = false;
  other = 0;
}

abbrev cooked : Console
cooked = record {
  in_base = line_mode;
  out_base = plain_out;
  in_mode = line_mode;
  out_mode = plain_out;
  closing = false;
}

abbrev fine : ModeAnswer
fine = record { get = none; set = none }

-- The output mode was refused twice, and the input mode could not be rolled back.
abbrev half_raw : RawAnswers
half_raw = record { set_in = none; set_out = some 1; set_out_plain = some 2; roll_back = some 3 }

abbrev left_raw : Console
left_raw = record cooked { in_mode = raw_in line_mode }

raw_step : ModeStep cooked left_raw
unfolding make_raw
raw_step = making_raw cooked half_raw

closed_well : (close [] fine fine left_raw).0 ≡ []
unfolding close restore_locked set_if_changed
closed_well = refl

abbrev small_window : WindowSize
small_window = record { rows = 24; cols = 80; width = 0; height = 0 }

-- The same size, another, a failed query, and a wake-up behind the end of the context.
abbrev turns : List Turn
turns =
    woke (record { size = sized small_window; ended = false; wants_more = true })
    ∷ woke (record {
      size = sized (record small_window { rows = 30 });
      ended = false;
      wants_more = true;
    })
    ∷ woke (record { size = size_failed 5; ended = false; wants_more = true })
    ∷ woke (record { size = sized small_window; ended = true; wants_more = true })
    ∷ []

abbrev found : OpenAnswers
found = record {
  in_handle = gave 1;
  out_handle = gave 2;
  in_mode = gave line_mode;
  out_mode = gave plain_out;
}

opens : open_modes found ≡ opened cooked
unfolding open_modes
opens = refl

abbrev shut : Console
shut = (close [] fine fine left_raw).1

open_close-restores_example :
    (gave line_mode ≡ gave (restore fine fine shut).1.in_mode)
    × (gave plain_out ≡ gave (restore fine fine shut).1.out_mode)
open_close-restores_example =
    open_close-restores found cooked left_raw (restore fine fine shut).1 [] fine fine opens
      (one_more cooked cooked left_raw (no_step cooked) raw_step) refl closed_well
      (one_more shut shut (restore fine fine shut).1 (no_step shut) (restoring shut fine fine))
