-- ===== src/Light/Read.antt =====
-- `tiny_light_read` of src/proto/light/tiny_light.c.
use tinyproto.Prelude.{
  ℕ, zero, suc, Bool, true, false, not, ◌||◌, Option, none, some, List, [], ◌∷◌, length, ◌==◌,
  if◌then◌else◌, ◌>>=◌,
}
use tinyproto.Hdlc.Bytes.{is_success, Status, timeout}
use tinyproto.Hdlc.Rx.{RxState, read_start, hdlc_ll_run_rx}
use tinyproto.Hdlc.Init.{reset_rx_only, hdlc_ll_reset}
use tinyproto.User.{moved, refused, Port, Outcome, amount, status, user_code}
use tinyproto.Light.{Light, expired}

-- `on_frame_read`, for the frames that a run of the receiver has delivered.
unfoldable pub heard_len : List (List ℕ) → ℕ → ℕ
heard_len [] rx_len = rx_len
heard_len (payload ∷ payloads) rx_len = heard_len payloads (length payload)

-- `hdlc_ll_run_rx` with its callback. `frames_read` has the frames of this run.
unfoldable pub hear_block : Light → List ℕ → Option (Status × Light)
hear_block light input = do
  r ← hdlc_ll_run_rx light.hdlc.crc_type (record light.hdlc.rx { frames_read = List.[] }) input
  some (
    r.error,
    record light {
      hdlc = record light.hdlc { rx = r.rx };
      rx_len = heard_len r.rx.frames_read light.rx_len;
    },
  )

-- The two calls of `hdlc_ll_run_rx` in a round.
unfoldable pub take_stream : Light → List ℕ → Option (Status × Light)
take_stream light stream = do
  (error, light') ← hear_block light stream
  if is_success error then hear_block light' [] else some (error, light')

-- The loop of `tiny_light_read`.
unfoldable pub read_blocks {ℓ} :
    {W : Type ℓ} → ℕ → Port W → ℕ → Light → W → Option (Outcome × Light × W)
read_blocks zero port ts light w = none
read_blocks (suc fuel) port ts light w =
    let (stream, w') = port.read_func 1 w in
    elim stream [
      | refused code ↦ some (user_code code, light, w')
      | moved bytes ↦ do
        (error, light') ← take_stream light bytes
        let again = read_blocks fuel port ts light' w'
        if not (is_success error)
            then some (status error, light', w')
            else (if expired port ts w'
                then some (
                  status timeout,
                  record light' { hdlc = hdlc_ll_reset light'.hdlc reset_rx_only },
                  w',
                )
                else (if light'.rx_len == 0 then again else some (amount 0, light', w')))
    ]

abbrev pub at_start : RxState → Bool
at_start read_start = true
at_start _ = false

-- The receiver gets the caller's buffer, the bytes `pbuf` at the address `at`, and no frame is read.
unfoldable pub with_buffer : Light → ℕ → List ℕ → Light
with_buffer light at pbuf = record light {
  hdlc = record light.hdlc {
    rx = record light.hdlc.rx { rx_buf = pbuf; active_frame_buf = 0; phys_mtu = length pbuf };
  };
  rx_len = 0;
  rx_buf_at = at;
}

-- In the middle of a frame `rx.ptr` still points into the buffer of an earlier call: with another buffer
-- that is a fault of the model.
unfoldable pub light_read {ℓ} :
    {W : Type ℓ} → ℕ → Port W → Light → ℕ → List ℕ → W → Option (Outcome × Light × W)
light_read fuel port light at pbuf w =
    let run = read_blocks fuel port (port.millis w) (with_buffer light at pbuf) w in
    if at_start light.hdlc.rx.state || light.rx_buf_at == at
    then (do
      (result, light', w') ← run
      some (if light'.rx_len == 0 then result else amount light'.rx_len, light', w'))
    else none
