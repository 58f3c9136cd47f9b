-- ===== src/Crc/Bounds.antt =====
-- The check sums fit their words.
use tinyproto.Prelude.{ℕ, ◌^◌, ◌<◌, List, arith}
use tinyproto.Crc.{tiny_crc16, tiny_crc32}

pub tiny_crc16-lt : (crc : ℕ) (buf : List ℕ) → tiny_crc16 crc buf < 2 ^ 16
unfolding tiny_crc16
tiny_crc16-lt crc buf = omega arith

pub tiny_crc32-lt : (crc : ℕ) (buf : List ℕ) → tiny_crc32 crc buf < 2 ^ 32
unfolding tiny_crc32
tiny_crc32-lt crc buf = omega arith
