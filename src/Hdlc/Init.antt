-- ===== src/Hdlc/Init.antt =====
-- Set-up, reset and buffer sizes of src/proto/hdlc/low_level/hdlc.c.
pub mod Ready
use tinyproto.Prelude.{
  ℕ, ◌+◌, ◌-◌, ◌*◌, ◌/◌, Bool, Option, none, some, List, length, take, drop, ltb, ◌==◌,
  if◌then◌else◌,
}
use tinyproto.Crc.{CrcType, crc_default, crc_32, crc_off, get_crc_field_size}
use tinyproto.Hdlc.Bytes.{Status, success, invalid_data, out_of_memory}
use tinyproto.Hdlc.Tx.{Tx, reset_tx}
use tinyproto.Hdlc.Rx.{Rx, reset_rx}

-- hdlc_ll_data_t: the parts of the receiver and of the sender. `phys_mtu`, the buffer and the two
-- callbacks are fields of the parts that use them.
pub record HdlcLl : Type 0 where
  pub crc_type : CrcType
  pub rx : Rx
  pub tx : Tx

-- hdlc_ll_init_t: `buf` is an address, 0 for NULL, and `memory` the bytes there, so that `buf_size`
-- is `length memory`.
pub record HdlcLlInit : Type 0 where
  pub buf : ℕ
  pub memory : List ℕ
  pub crc_type : CrcType
  pub mtu : ℕ
  pub on_frame_read : Bool
  pub on_frame_send : Bool

pub data ResetFlags : Type 0 where
  reset_both reset_tx_only reset_rx_only : ResetFlags

unfoldable pub hdlc_ll_reset : HdlcLl → ResetFlags → HdlcLl
hdlc_ll_reset h reset_both = record h { rx = reset_rx h.rx; tx = reset_tx h.tx }
hdlc_ll_reset h reset_tx_only = record h { tx = reset_tx h.tx }
hdlc_ll_reset h reset_rx_only = record h { rx = reset_rx h.rx }

-- The type that is stored: HDLC_CRC_OFF becomes 0, which is HDLC_CRC_DEFAULT.
abbrev pub stored_crc : CrcType → CrcType
stored_crc crc_off = crc_default
stored_crc crc_type = crc_type

-- `align` is TINY_ALIGN_STRUCT_VALUE, a power of two, so that the mask rounds the address up to a
-- multiple of it; `struct_size` is sizeof(hdlc_ll_data_t). Both depend on the platform.
unfoldable pub aligned : ℕ → ℕ → ℕ
aligned align buf = (buf + align - 1) / align * align

-- The offset of `rx_buf` in the caller's memory.
pub rx_buf_offset : ℕ → ℕ → ℕ → ℕ
rx_buf_offset align struct_size buf = aligned align buf - buf + struct_size

-- `left` is what the memory holds where the structure is laid: fields that are not set keep it.
unfoldable pub set_up : ℕ → ℕ → HdlcLl → HdlcLlInit → HdlcLl
set_up align struct_size left init =
    let rx_buf = drop (rx_buf_offset align struct_size init.buf) init.memory in
    let crc_type = stored_crc init.crc_type in
    record {
      crc_type = crc_type;
      rx = record left.rx {
        rx_buf = rx_buf;
        phys_mtu = if init.mtu == 0 then length rx_buf else init.mtu + get_crc_field_size crc_type;
        active_frame_buf = 0;
        on_frame_read = init.on_frame_read;
        frames_read = List.[];
      };
      tx = record left.tx { on_frame_send = init.on_frame_send; frames_sent = List.[] };
    }

-- The memory is large enough when the structure fits after the alignment.
unfoldable pub hdlc_ll_init : ℕ → ℕ → HdlcLl → HdlcLlInit → Status × Option HdlcLl
hdlc_ll_init align struct_size left init =
    if init.buf == 0
    then (invalid_data, none)
    else (if ltb (length init.memory - (aligned align init.buf - init.buf)) struct_size
        then (out_of_memory, none)
        else (success, some (hdlc_ll_reset (set_up align struct_size left init) reset_both)))

pub hdlc_ll_get_buf_size : ℕ → ℕ → ℕ → ℕ
hdlc_ll_get_buf_size align struct_size mtu =
    get_crc_field_size crc_32 + struct_size + mtu + align - 1

unfoldable pub hdlc_ll_get_buf_size_ex : ℕ → ℕ → ℕ → CrcType → ℕ → ℕ
hdlc_ll_get_buf_size_ex align struct_size mtu crc_type rx_window =
    (get_crc_field_size crc_type + mtu) * rx_window + struct_size + align - 1
