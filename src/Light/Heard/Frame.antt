-- ===== src/Light/Heard/Frame.antt =====
-- A frame that `tiny_light_read` of src/proto/light/tiny_light.c reads.
use tinyproto.Prelude.{
  ℕ, ◌+◌, ◌*◌, ◌<◌, ◌≤◌, ◌≡◌, ◌≢◌, refl, ◌∙◌, ap, true, false, some, List, [], ◌∷◌, ◌++◌, arith,
  length, take, ==_ne, ◌>>=◌,
}
use tinyproto.Crc.{crc_off}
use tinyproto.Hdlc.Bytes.{flag_sequence}
use tinyproto.Hdlc.Wire.{wire, fcs_size}
use tinyproto.Hdlc.Rx.{read_start}
use tinyproto.Hdlc.Rx.Listen.{hunting, listen, listen_in}
use tinyproto.Hdlc.Rx.Chunks.{IsReady}
use tinyproto.Hdlc.Bytewise.{Ends, wire-Ends}
use tinyproto.User.{Port, amount}
use tinyproto.Light.{Light, expired}
use tinyproto.Light.Read.{read_blocks, at_start, with_buffer, light_read}
use tinyproto.Light.Heard.{fresh, Delivers}
use tinyproto.Light.Heard.Blocks.{IsReader, Ends-at, rounds, read_blocks-Reads}

module _ {W : Type 0} (port : Port W) (waits : ℕ) (input : W → List ℕ) (patience : W → ℕ)
    (reader : IsReader port waits input patience) where
  read_returns :
      (fuel : ℕ) (light : Light) (at : ℕ) (pbuf : List ℕ) (w : W) (light' : Light) (w' : W)
      → light.hdlc.rx.state ≡ read_start
      → read_blocks fuel port (port.millis w) (with_buffer light at pbuf) w
        ≡ some (amount 0, light', w')
      → light'.rx_len ≢ 0
      → light_read fuel port light at pbuf w ≡ some (amount light'.rx_len, light', w')
  unfolding light_read
  read_returns fuel light at pbuf w light' w' s runs some_read =
      rw (ap at_start s, runs, ◌>>=◌, ==_ne light'.rx_len 0 some_read) refl

  -- A handle that waits for a flag, with the caller's buffer, and bytes of the line that end with a frame.
  read_image :
      (fuel : ℕ) (light : Light) (at : ℕ) (pbuf : List ℕ) (w : W) (b : ℕ)
      (bytes frame more : List ℕ)
      → light.hdlc.rx.on_frame_read ≡ true
      → light.hdlc.rx.state ≡ read_start
      → 0 < length frame
      → Ends light.hdlc.crc_type (length pbuf) (hunting []) (b ∷ bytes) frame
      → input w ≡ b ∷ bytes ++ more
      → ((t : W) → expired port (port.millis w) t ≡ false)
      → length (b ∷ bytes) * waits < fuel
      → (light' : Light) × (w' : W) × (light_read fuel port light at pbuf w
          ≡ some (amount (length frame), light', w'))
        × Delivers (with_buffer light at pbuf) light' frame
        × (input w' ≡ more)
  unfolding light_read with_buffer listen_in
  read_image fuel light at pbuf w b bytes frame more on s pos ends i early enough =
      let start = with_buffer light at pbuf in
      let ready : IsReady start.hdlc.rx = ground (arith, on, s) in
      let heard : listen light.hdlc.crc_type (fresh start.hdlc.rx) ≡ hunting [] =
        ap (λ t. listen_in light.hdlc.crc_type t (fresh start.hdlc.rx)) s in
      let (light', w', runs, d, rest) =
        read_blocks-Reads port waits input patience reader fuel (port.millis w) start w b bytes
          frame more ready refl pos early i (Ends-at (b ∷ bytes) frame refl refl heard ends)
          (omega (arith, enough, rounds (b ∷ bytes) b bytes waits refl, reader.bounded w)) in
      let some_read : light'.rx_len ≢ 0 = omega (arith, d.len, pos) in
      (
        light',
        w',
        read_returns fuel light at pbuf w light' w' s runs some_read
            ∙ ap (λ n. some (amount n, light', w')) d.len,
        d,
        rest,
      )

  -- A handle that waits for a flag, a buffer of the caller that holds the frame with its check sum, and a
  -- line whose next bytes are the wire image of the frame, given in time by a `read_func` that finds a
  -- byte in the end: `tiny_light_read` returns the length of the frame, with fuel for the bytes of the
  -- image; the frame stands at the start of the buffer, what follows the image is left on the line, and
  -- the handle waits for a flag again.
  pub light_read-frame :
      (fuel : ℕ) (light : Light) (at : ℕ) (pbuf : List ℕ) (w : W) (frame more : List ℕ)
      → let c = light.hdlc.crc_type in
        c ≢ crc_off
        → light.hdlc.rx.on_frame_read ≡ true
        → light.hdlc.rx.state ≡ read_start
        → 0 < length frame
        → length frame + fcs_size c ≤ length pbuf
        → input w ≡ wire c frame ++ more
        → ((t : W) → expired port (port.millis w) t ≡ false)
        → length (wire c frame) * waits < fuel
        → (light' : Light) × (w' : W) × (light_read fuel port light at pbuf w
            ≡ some (amount (length frame), light', w'))
          × (take (length frame) light'.hdlc.rx.rx_buf ≡ frame)
          × (input w' ≡ more)
          × (light'.hdlc.crc_type ≡ c)
          × (light'.hdlc.rx.on_frame_read ≡ true)
          × (light'.hdlc.rx.state ≡ read_start)
  unfolding wire with_buffer
  light_read-frame fuel light at pbuf w frame more off on s pos fits i early enough =
      let c = light.hdlc.crc_type in
      let ends = wire-Ends c (length pbuf) frame off pos fits in
      let (light', w', runs, d, rest) =
        read_image fuel light at pbuf w flag_sequence _ frame more on s pos ends i early enough in
      (light', w', runs, d.stored, rest, d.same_crc, d.ready.valid.listening, d.waits)
