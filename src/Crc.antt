-- ===== src/Crc.antt =====
-- src/proto/crc/tiny_crc.c and the hdlc_crc_t of tiny_crc.h: the three check sums of a frame.
-- All of CONFIG_ENABLE_CHECKSUM, CONFIG_ENABLE_FCS16 and CONFIG_ENABLE_FCS32 are set, so crc_t is
-- uint32_t. A word is a native number; the shifts, masks and casts are written out.
mod Tables
pub mod Bounds
use tinyproto.Prelude.{
  ℕ, ◌+◌, ◌-◌, ◌/◌, ◌%◌, ◌^◌, bit_xor, Bool, true, false, List, [], ◌∷◌, get_or,
}
use Tables.{fcstab_16, fcstab_32}

-- `hdlc_crc_t`.
pub data CrcType : Type 0 where
  crc_default crc_8 crc_16 crc_32 crc_off : CrcType

-- The value of the enumerator.
abbrev pub crc_value : CrcType → ℕ
crc_value crc_default = 0
crc_value crc_8 = 8
crc_value crc_16 = 16
crc_value crc_32 = 32
crc_value crc_off = 0xff

-- The first `if` returns for HDLC_CRC_OFF, the second replaces HDLC_CRC_DEFAULT by HDLC_CRC_32.
abbrev pub get_crc_field_size : CrcType → ℕ
get_crc_field_size crc_off = 0
get_crc_field_size crc_default = crc_value crc_32 / 8
get_crc_field_size crc_type = crc_value crc_type / 8

abbrev pub init_fcs16 : ℕ
init_fcs16 = 0xffff

abbrev pub init_fcs32 : ℕ
init_fcs32 = 0xffff_ffff

abbrev pub init_checksum : ℕ
init_checksum = 0

pub crc32_byte : ℕ → ℕ → ℕ
crc32_byte crc byte = bit_xor (get_or fcstab_32 (bit_xor crc byte % 2 ^ 8) 0) (crc / 2 ^ 8)

-- The loop of `tiny_crc32`, over the bytes that are left.
pub crc32_loop : ℕ → List ℕ → ℕ
crc32_loop crc [] = crc
crc32_loop crc (byte ∷ rest) = crc32_loop (crc32_byte crc byte) rest

pub tiny_crc32 : ℕ → List ℕ → ℕ
tiny_crc32 crc buf = bit_xor (crc32_loop crc buf) 0xffff_ffff % 2 ^ 32

pub crc16_byte : ℕ → ℕ → ℕ
crc16_byte crc byte = bit_xor (crc / 2 ^ 8) (get_or fcstab_16 (bit_xor crc byte % 2 ^ 8) 0)

pub crc16_loop : ℕ → List ℕ → ℕ
crc16_loop crc [] = crc
crc16_loop crc (byte ∷ rest) = crc16_loop (crc16_byte crc byte) rest

-- `~0U` has 32 bits, and the result is cast to uint16_t.
pub tiny_crc16 : ℕ → List ℕ → ℕ
tiny_crc16 crc buf = bit_xor (crc16_loop crc buf) 0xffff_ffff % 2 ^ 16

pub chksum_byte : ℕ → ℕ → ℕ
chksum_byte sum byte = (sum + byte) % 2 ^ 16

-- `tmp_sum` is a uint32_t.
unfoldable pub chksum_loop : ℕ → List ℕ → ℕ
chksum_loop tmp_sum [] = tmp_sum
chksum_loop tmp_sum (byte ∷ rest) = chksum_loop ((tmp_sum + byte) % 2 ^ 32) rest

unfoldable pub tiny_chksum : ℕ → List ℕ → ℕ
tiny_chksum sum buf = (0xffff - chksum_loop sum buf % 2 ^ 16) % 2 ^ 16
