-- ===== src/Light/Send.antt =====
-- `tiny_light_send` of src/proto/light/tiny_light.c.
use tinyproto.Prelude.{ℕ, zero, suc, Option, none, some, List, length, ltb, if◌then◌else◌, ◌>>=◌}
use tinyproto.Hdlc.Bytes.{timeout}
use tinyproto.Hdlc.Tx.{hdlc_ll_run_tx, hdlc_ll_put_frame}
use tinyproto.Hdlc.Init.{HdlcLl, reset_tx_only, hdlc_ll_reset}
use tinyproto.User.{moved, refused, Port, Outcome, amount, status, user_code}
use tinyproto.Light.{Light, expired}

-- The inner loop of `tiny_light_send`, for the block `stream`.
unfoldable pub write_loop {ℓ} :
    {W : Type ℓ} → ℕ → Port W → ℕ → List ℕ → HdlcLl → W → Option (Outcome × HdlcLl × W)
write_loop zero port ts stream h w = none
write_loop (suc fuel) port ts stream h w =
    let (result, w') = port.write_func stream w in
    let again = write_loop fuel port ts stream h w' in
    elim result [
      | refused code ↦ some (user_code code, h, w')
      | moved n ↦
          if expired port ts w'
          then some (status timeout, hdlc_ll_reset h reset_tx_only, w')
          else (if ltb n (length stream) then again else some (amount n, h, w'))
    ]

-- The outer loop; `patience` is the fuel of the inner one.
unfoldable pub send_blocks {ℓ} :
    {W : Type ℓ} → ℕ → ℕ → Port W → ℕ → Outcome → HdlcLl → W → Option (Outcome × HdlcLl × W)
send_blocks zero patience port ts result h w = none
send_blocks (suc fuel) patience port ts result h w = elim h.tx.origin_data [
  | none ↦ some (result, h, w)
  | some frame ↦ do
    (n, tx) ← hdlc_ll_run_tx h.crc_type h.tx 1
    (result', h', w') ← write_loop patience port ts tx.out_buffer (record h { tx = tx }) w
    elim result' [
      | user_code code ↦ some (user_code code, h', w')
      | amount n ↦ send_blocks fuel patience port ts (amount n) h' w'
      | status s ↦ send_blocks fuel patience port ts (status s) h' w'
    ]
]

-- `result >= 0 ? len : result`.
unfoldable pub sent_result : ℕ → Outcome → Outcome
sent_result len (amount n) = amount len
sent_result len (status s) = status s
sent_result len (user_code code) = user_code code

-- The result of `hdlc_ll_put_frame` is not used.
unfoldable pub light_send {ℓ} :
    {W : Type ℓ} → ℕ → ℕ → Port W → Light → List ℕ → W → Option (Outcome × Light × W)
light_send fuel patience port light frame w = do
  let (_, tx) = hdlc_ll_put_frame light.hdlc.tx frame
  (result, h, w') ←
      send_blocks fuel patience port (port.millis w) (amount 0) (record light.hdlc { tx = tx }) w
  some (sent_result (length frame) result, record light { hdlc = h }, w')
