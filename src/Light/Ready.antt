-- ===== src/Light/Ready.antt =====
-- A handle of src/proto/light/tiny_light.c that `tiny_light_init` sets up.
use tinyproto.Prelude.{ℕ, ◌+◌, ◌-◌, ◌<◌, ◌≤◌, ◌≡◌, ◌≢◌, refl, true, none, some, arith, length}
use tinyproto.Hdlc.Bytes.{success}
use tinyproto.Hdlc.Tx.{reset_tx}
use tinyproto.Hdlc.Tx.Pending.{IsTx}
use tinyproto.Hdlc.Rx.{read_start, reset_rx}
use tinyproto.Hdlc.Init.{reset_both, hdlc_ll_reset, set_up, stored_crc, hdlc_ll_init}
use tinyproto.Hdlc.Init.Ready.{aligned_within, stored_crc-off}
use tinyproto.Light.{Light, LightInit, light_hdlc_init, light_init}

-- A handle between calls: its sender is idle and its receiver waits for a flag.
pub record IsLight (light : Light) : Type 0 where
  pub sender : IsTx light.hdlc.crc_type light.hdlc.tx
  pub idle : light.hdlc.tx.origin_data ≡ none
  pub listening : light.hdlc.rx.on_frame_read ≡ true
  pub waits : light.hdlc.rx.state ≡ read_start

placed :
    (align struct_size : ℕ) (left : Light) (init : LightInit)
    → 0 < align
    → init.buf ≢ 0
    → struct_size + align - 1 ≤ length init.buffer
    → hdlc_ll_init align struct_size left.hdlc (light_hdlc_init init) ≡ (
      success,
      some (hdlc_ll_reset (set_up align struct_size left.hdlc (light_hdlc_init init)) reset_both),
    )
unfolding hdlc_ll_init light_hdlc_init
placed align struct_size left init al buf enough = ground (arith, aligned_within align init.buf al)

-- The user's functions are set, and the handle's buffer holds the structure of the HDLC level after the
-- alignment: `tiny_light_init` succeeds, and the handle can send and read, whatever the memory held
-- before; its check sum type is the one asked for, but that HDLC_CRC_OFF is stored as HDLC_CRC_DEFAULT.
pub light_init-IsLight :
    (align struct_size : ℕ) (left : Light) (init : LightInit)
    → init.write_func ≡ true
    → init.read_func ≡ true
    → 0 < align
    → init.buf ≢ 0
    → struct_size + align - 1 ≤ length init.buffer
    → (light : Light) × (light_init align struct_size left init ≡ (success, some light))
      × IsLight light
      × (light.hdlc.crc_type ≡ stored_crc init.crc_type)
unfolding light_init hdlc_ll_reset set_up reset_tx reset_rx light_hdlc_init
light_init-IsLight align struct_size left init writes reads al buf enough = (
  record left {
    hdlc = hdlc_ll_reset (set_up align struct_size left.hdlc (light_hdlc_init init)) reset_both;
  },
  rw (writes, reads, placed align struct_size left init al buf enough) refl,
  ground (arith, stored_crc-off init.crc_type),
  refl,
)
