-- ===== src/Hdlc/Init/Ready.antt =====
-- Memory of the sizes that the library computes gives a sender and a receiver in their initial
-- states.
use tinyproto.Prelude.{
  ℕ, zero, suc, ◌+◌, ◌-◌, ◌*◌, ◌/◌, ◌≤◌, ◌<◌, ◌≡◌, ◌≢◌, refl, true, none, some, [], arith, length,
  drop, length-drop,
}
use tinyproto.Crc.{CrcType, crc_off, get_crc_field_size}
use tinyproto.Hdlc.Bytes.{success}
use tinyproto.Hdlc.Wire.{fcs_size}
use tinyproto.Hdlc.Tx.{send_start, reset_tx}
use tinyproto.Hdlc.Tx.Pending.{IsTx}
use tinyproto.Hdlc.Rx.{read_start, reset_rx}
use tinyproto.Hdlc.Rx.Chunks.{IsReady}
use tinyproto.Hdlc.Init.{
  HdlcLl, HdlcLlInit, reset_both, hdlc_ll_reset, stored_crc, aligned, rx_buf_offset, set_up,
  hdlc_ll_init, hdlc_ll_get_buf_size_ex,
}

div_mul_le : (n d : ℕ) → n / d * d ≤ n
div_mul_le n d = ground arith

window_room : (a w : ℕ) → 0 < w → a ≤ a * w
window_room a zero h = absurd (omega arith)
window_room a (suc w) h = ground arith

pub aligned_within : (align buf : ℕ) → 0 < align → aligned align buf - buf ≤ align - 1
unfolding aligned
aligned_within align buf h = ground (arith, div_mul_le (buf + align - 1) align)

pub stored_crc-off : (c : CrcType) → stored_crc c ≢ crc_off
stored_crc-off crc_off = ground arith
stored_crc-off _ = ground arith

stored_crc_lem : (c : CrcType) → c ≢ crc_off → stored_crc c ≡ c
stored_crc_lem crc_off h = absurd (h refl)
stored_crc_lem _ h = refl

-- The receiver keeps at least the bytes of the check sum.
fcs_size-le : (c : CrcType) → fcs_size c ≤ get_crc_field_size c
unfolding fcs_size
fcs_size-le c = ground arith

-- An initialised handle: both halves idle, and the receiver able to take a frame of `mtu` bytes.
pub record IsInitial (mtu : ℕ) (h : HdlcLl) : Type 0 where
  pub sender : IsTx h.crc_type h.tx
  pub nothing_sent : h.tx.origin_data ≡ none
  pub sends_next : h.tx.state ≡ send_start
  pub receiver : IsReady h.rx
  pub waits : h.rx.state ≡ read_start
  pub nothing_heard : h.rx.frames_read ≡ []
  pub room : mtu + fcs_size h.crc_type ≤ h.rx.phys_mtu

rx_buf_room :
    (align struct_size : ℕ) (init : HdlcLlInit) (window : ℕ)
    → 0 < align
    → 0 < window
    → hdlc_ll_get_buf_size_ex align struct_size init.mtu init.crc_type window ≤ length init.memory
    → get_crc_field_size init.crc_type + init.mtu
      ≤ length (drop (rx_buf_offset align struct_size init.buf) init.memory)
unfolding rx_buf_offset hdlc_ll_get_buf_size_ex
rx_buf_room align struct_size init window al w size =
    let need = get_crc_field_size init.crc_type + init.mtu in
    let offset = aligned align init.buf - init.buf + struct_size in
    omega (
      arith,
      aligned_within align init.buf al,
      window_room need window w,
      length-drop offset init.memory,
    )

-- Memory that holds a frame of `mtu` bytes behind the structure is enough.
pub initialised :
    (align struct_size : ℕ) (left : HdlcLl) (init : HdlcLlInit)
    → 0 < init.mtu
    → init.crc_type ≢ crc_off
    → init.on_frame_read ≡ true
    → get_crc_field_size init.crc_type + init.mtu
      ≤ length (drop (rx_buf_offset align struct_size init.buf) init.memory)
    → IsInitial init.mtu (hdlc_ll_reset (set_up align struct_size left init) reset_both)
unfolding hdlc_ll_reset reset_tx reset_rx set_up
initialised align struct_size left init mtu off listens room = ground (
  arith,
  room,
  stored_crc-off init.crc_type,
  stored_crc_lem init.crc_type off,
  fcs_size-le init.crc_type,
)

-- Memory at an address that is aligned, long enough for the structure and a frame of `mtu` bytes.
pub init_aligned :
    (align struct_size : ℕ) (left : HdlcLl) (init : HdlcLlInit)
    → 0 < init.buf
    → aligned align init.buf ≡ init.buf
    → 0 < init.mtu
    → init.crc_type ≢ crc_off
    → init.on_frame_read ≡ true
    → struct_size + get_crc_field_size init.crc_type + init.mtu ≤ length init.memory
    → (h : HdlcLl) × (hdlc_ll_init align struct_size left init ≡ (success, some h))
      × IsInitial init.mtu h
unfolding hdlc_ll_init rx_buf_offset
init_aligned align struct_size left init buf at mtu off listens enough = (
  hdlc_ll_reset (set_up align struct_size left init) reset_both,
  ground (arith, at, enough),
  initialised align struct_size left init mtu off listens (
      omega (
        arith,
        at,
        length-drop (aligned align init.buf - init.buf + struct_size) init.memory,
        enough,
      )),
)

-- Memory of the size that `hdlc_ll_get_buf_size_ex` asks for, with an `mtu` and a window that are
-- not 0, a check sum type other than HDLC_CRC_OFF and a receive callback, is
-- enough: `hdlc_ll_init` succeeds, the sender and the receiver satisfy their invariants, both are
-- idle, and a frame of `mtu` bytes fits with its check sum, whatever the memory held before.
pub init_ready :
    (align struct_size : ℕ) (left : HdlcLl) (init : HdlcLlInit) (window : ℕ)
    → 0 < align
    → init.buf ≢ 0
    → 0 < window
    → 0 < init.mtu
    → init.crc_type ≢ crc_off
    → init.on_frame_read ≡ true
    → hdlc_ll_get_buf_size_ex align struct_size init.mtu init.crc_type window ≤ length init.memory
    → (h : HdlcLl) × (hdlc_ll_init align struct_size left init ≡ (success, some h))
      × (h.crc_type ≡ init.crc_type)
      × IsInitial init.mtu h
unfolding hdlc_ll_init hdlc_ll_get_buf_size_ex hdlc_ll_reset set_up
init_ready align struct_size left init window al buf w mtu off listens size =
    let need = get_crc_field_size init.crc_type + init.mtu in
    (
      hdlc_ll_reset (set_up align struct_size left init) reset_both,
      ground (arith, aligned_within align init.buf al, window_room need window w),
      stored_crc_lem init.crc_type off,
      initialised align struct_size left init mtu off listens
          (rx_buf_room align struct_size init window al w size),
    )
