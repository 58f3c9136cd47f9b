-- ===== src/Light.antt =====
-- src/proto/light/tiny_light.c: blocking send and read on top of the HDLC low level. The user's two
-- functions and the clock are parameters, `Port`; `none` is a fault or the end of the fuel.
pub mod Send
pub mod Read
pub mod Sent
pub mod Heard
pub mod Ready
pub mod RoundTrip
mod Tests
use tinyproto.Prelude.{
  ℕ, ◌+◌, ◌-◌, ◌%◌, ◌^◌, ◌&&◌, Bool, true, false, Option, none, some, List, leb, if◌then◌else◌,
}
use tinyproto.Crc.{CrcType}
use tinyproto.User.{Port}
use tinyproto.Hdlc.Bytes.{Status, success, failed}
use tinyproto.Hdlc.Tx.{hdlc_ll_close}
use tinyproto.Hdlc.Init.{HdlcLl, HdlcLlInit, hdlc_ll_init}

-- STinyLightData; `rx_buf_at` is the address that `rx.ptr` was last set in.
pub record Light : Type 0 where
  pub hdlc : HdlcLl
  pub rx_len : ℕ
  pub rx_buf_at : ℕ

-- `(uint32_t)(tiny_millis() - ts) >= 1000`.
unfoldable pub expired {ℓ} : {W : Type ℓ} → Port W → ℕ → W → Bool
expired port ts w = leb 1000 ((port.millis w + 2 ^ 32 - ts) % 2 ^ 32)

-- What `tiny_light_init` is given: the bytes of the handle's `buffer` at the address `buf`, the check sum
-- type of the handle, and whether the user's functions are set.
pub record LightInit : Type 0 where
  pub buf : ℕ
  pub buffer : List ℕ
  pub crc_type : CrcType
  pub write_func : Bool
  pub read_func : Bool

-- hdlc_ll_init_t as `tiny_light_init` fills it; `mtu` is 0.
unfoldable pub light_hdlc_init : LightInit → HdlcLlInit
light_hdlc_init init = record {
  buf = init.buf;
  memory = init.buffer;
  crc_type = init.crc_type;
  mtu = 0;
  on_frame_read = true;
  on_frame_send = true;
}

-- `align`, `struct_size` and `left` are those of `hdlc_ll_init`; the `rx_len` that is left is that of the
-- caller's memory.
unfoldable pub light_init : ℕ → ℕ → Light → LightInit → Status × Option Light
light_init align struct_size left init =
    if init.write_func && init.read_func
    then (let (result, h) = hdlc_ll_init align struct_size left.hdlc (light_hdlc_init init) in
        (result, elim h [ none ↦ none | some hdlc ↦ some (record left { hdlc = hdlc }) ]))
    else (failed, none)

unfoldable pub light_close : Light → Status × Light
light_close light =
    (success, record light { hdlc = record light.hdlc { tx = hdlc_ll_close light.hdlc.tx } })
