-- ===== src/Hdlc/Wire.antt =====
-- What a frame looks like on the wire (RFC 1662), independent of the state machines: a flag, the
-- stuffed payload and check sum, a flag.
pub mod Stuffing
use tinyproto.Prelude.{ℕ, zero, suc, ◌/◌, ◌%◌, ◌^◌, bit_xor, List, [], ◌∷◌, ◌++◌, if◌then◌else◌}
use tinyproto.Crc.{
  CrcType, crc_8, crc_16, crc_32, init_checksum, init_fcs16, init_fcs32, tiny_chksum, tiny_crc16,
  tiny_crc32,
}
use tinyproto.Hdlc.Bytes.{flag_sequence, tiny_escape_char, tiny_escape_bit, is_special}

-- Byte stuffing.
unfoldable pub stuff : List ℕ → List ℕ
stuff [] = []
stuff (b ∷ bs) =
    if is_special b then tiny_escape_char ∷ bit_xor b tiny_escape_bit ∷ stuff bs else b ∷ stuff bs

-- The low `n` bytes of `crc`, least significant first.
unfoldable pub le_bytes : ℕ → ℕ → List ℕ
le_bytes zero crc = []
le_bytes (suc n) crc = crc % 2 ^ 8 ∷ le_bytes n (crc / 2 ^ 8)

-- The number of check sum bytes and their value, for the stored type: HDLC_CRC_OFF and
-- HDLC_CRC_DEFAULT send none.
unfoldable pub fcs_size : CrcType → ℕ
fcs_size crc_8 = 1
fcs_size crc_16 = 2
fcs_size crc_32 = 4
fcs_size _ = 0

unfoldable pub fcs : CrcType → List ℕ → ℕ
fcs crc_8 payload = tiny_chksum init_checksum payload % 2 ^ 8
fcs crc_16 payload = tiny_crc16 init_fcs16 payload
fcs crc_32 payload = tiny_crc32 init_fcs32 payload
fcs _ payload = 0

unfoldable pub fcs_bytes : CrcType → List ℕ → List ℕ
fcs_bytes crc_type payload = le_bytes (fcs_size crc_type) (fcs crc_type payload)

unfoldable pub wire : CrcType → List ℕ → List ℕ
wire crc_type payload =
    flag_sequence ∷ stuff (payload ++ fcs_bytes crc_type payload) ++ flag_sequence ∷ []
