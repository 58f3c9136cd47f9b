-- ===== src/Hdlc/Bytes.antt =====
-- The constants at the top of src/proto/hdlc/low_level/hdlc.c, and the error codes of
-- src/hal/tiny_types.h.
use tinyproto.Prelude.{ℕ, Bool, true, false, ◌==◌, ◌||◌}

abbrev pub flag_sequence : ℕ
flag_sequence = 0x7e

abbrev pub tiny_escape_char : ℕ
tiny_escape_char = 0x7d

abbrev pub tiny_escape_bit : ℕ
tiny_escape_bit = 0x20

abbrev pub is_special : ℕ → Bool
is_special byte = byte == flag_sequence || byte == tiny_escape_char

-- TINY_SUCCESS and the TINY_ERR codes.
pub data Status : Type 0 where
  success failed timeout data_too_large invalid_data busy wrong_crc out_of_memory : Status
  unknown_peer : Status

abbrev pub is_success : Status → Bool
is_success success = true
is_success _ = false
