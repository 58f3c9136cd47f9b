-- ===== src/Fd/Control.antt =====
-- The control field of a frame: tiny_fd_defines_int.h of src/proto/fd. The masks of the source are
-- divisions and remainders by powers of 2, the fields that `|` joins do not overlap and are added.
use tinyproto.Prelude.{ℕ, ◌+◌, ◌*◌, ◌/◌, ◌%◌, ◌^◌, Bool, ◌==◌, if◌then◌else◌}

-- HDLC_U_FRAME_TYPE_MASK keeps the bits 2, 3, 5, 6 and 7.
abbrev pub u_type : ℕ → ℕ
u_type control = control / 32 * 32 + control / 4 % 4 * 4

-- HDLC_S_FRAME_TYPE_MASK keeps the bits 2 and 3.
abbrev pub s_type : ℕ → ℕ
s_type control = control / 4 % 4 * 4

abbrev pub type_ua : ℕ
type_ua = 0x60

abbrev pub type_dm : ℕ
type_dm = 0x0c

abbrev pub type_frmr : ℕ
type_frmr = 0x84

abbrev pub type_rset : ℕ
type_rset = 0x8c

abbrev pub type_sabm : ℕ
type_sabm = 0x2c

abbrev pub type_snrm : ℕ
type_snrm = 0x80

abbrev pub type_disc : ℕ
type_disc = 0x40

abbrev pub type_ui : ℕ
type_ui = 0

abbrev pub type_rr : ℕ
type_rr = 0

abbrev pub type_rnr : ℕ
type_rnr = 4

abbrev pub type_rej : ℕ
type_rej = 8

abbrev pub type_srej : ℕ
type_srej = 12

-- `control & HDLC_P_BIT`, which is the same bit as HDLC_F_BIT.
abbrev pub has_p : ℕ → Bool
has_p control = control / 16 % 2 == 1

-- `control | HDLC_P_BIT`.
abbrev pub with_p : ℕ → ℕ
with_p control = if has_p control then control else control + 16

-- HDLC_I_FRAME_BITS, HDLC_S_FRAME_BITS and HDLC_U_FRAME_BITS.
abbrev pub is_i_control : ℕ → Bool
is_i_control control = control % 2 == 0

abbrev pub is_s_control : ℕ → Bool
is_s_control control = control % 4 == 1

abbrev pub is_u_control : ℕ → Bool
is_u_control control = control % 4 == 3

-- HDLC_CR_BIT of an address.
abbrev pub is_command : ℕ → Bool
is_command address = address / 2 % 2 == 1

-- The control fields that the library builds; the value of a uint8_t is cut to 8 bits.
abbrev pub u_control : ℕ → ℕ
u_control type = type + 3

abbrev pub s_control : ℕ → ℕ → ℕ
s_control type nr = (1 + type + nr * 32) % 2 ^ 8

-- `control &= 0x0F; control |= nr << 5`.
abbrev pub with_nr : ℕ → ℕ → ℕ
with_nr nr control = (control % 16 + nr * 32) % 2 ^ 8
