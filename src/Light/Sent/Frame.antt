-- ===== src/Light/Sent/Frame.antt =====
-- A frame that `tiny_light_send` of src/proto/light/tiny_light.c sends on a line without failures.
use tinyproto.Prelude.{
  ℕ, ◌+◌, ◌<◌, ◌≡◌, ◌≢◌, refl, ◌∙◌, ap, false, none, some, List, [], ◌∷◌, ◌++◌, arith, length,
}
use tinyproto.Crc.{CrcType}
use tinyproto.Hdlc.Wire.{wire}
use tinyproto.Hdlc.Tx.Stream.{put_frame_pending}
use tinyproto.Hdlc.Tx.{send_start}
use tinyproto.Hdlc.Tx.Pending.{IsTx}
use tinyproto.Hdlc.Init.{HdlcLl}
use tinyproto.User.{refused, Port, Outcome, amount, status, user_code}
use tinyproto.Light.{Light, expired}
use tinyproto.Light.Sent.{IsWriter}
use tinyproto.Light.Send.{light_send}
use tinyproto.Light.Sent.Blocks.{Sent, light_send-Sent}

module _ {W : Type 0} (port : Port W) (waits : ℕ) (line : W → List ℕ) (patience : W → ℕ)
    (writer : IsWriter port waits line patience) where
  -- Only the whole frame can be the result, when `write_func` does not fail and the time is not over.
  whole_frame :
      (ts : ℕ) (c : CrcType) (owed : List ℕ) (w : W) (result : Outcome) (h : HdlcLl) (w' : W)
      → ((b : ℕ) (t : W) (code : ℕ) → (port.write_func (b ∷ []) t).0 ≢ refused code)
      → ((t : W) → expired port ts t ≡ false)
      → Sent port waits line patience writer ts c owed w result h w'
      → (n : ℕ) × (result ≡ amount n)
        × IsTx c h.tx
        × (h.tx.origin_data ≡ none)
        × (line w' ≡ line w ++ owed)
  unfolding Sent
  whole_frame ts c owed w (amount n) h w' works early (v, idle, on) = (n, refl, v, idle, on)
  whole_frame ts c owed w (status t) h w' works early (e, late, _, _, _, _) =
      absurd (cc (late, early w'))
  whole_frame ts c owed w (user_code code) h w' works early (v, b, before, refusal, _) =
      absurd (works b before code (ap (λ r. r.0) refusal))

  -- An idle sender, a frame that is not empty, and a `write_func` that does not fail, takes a byte in the
  -- end and in time: `tiny_light_send` returns the length of the frame, with fuel for the bytes of its
  -- wire image; the line has got the wire image, and the sender is idle again.
  pub light_send-frame :
      (fuel : ℕ) (light : Light) (frame : List ℕ) (w : W)
      → let c = light.hdlc.crc_type in
        IsTx c light.hdlc.tx
        → light.hdlc.tx.origin_data ≡ none
        → 0 < length frame
        → length (wire c frame) + 1 < fuel
        → ((b : ℕ) (t : W) (code : ℕ) → (port.write_func (b ∷ []) t).0 ≢ refused code)
        → ((t : W) → expired port (port.millis w) t ≡ false)
        → (light' : Light) × (w' : W) × (light_send fuel waits port light frame w
            ≡ some (amount (length frame), light', w'))
          × (light'.hdlc.crc_type ≡ c)
          × IsTx c light'.hdlc.tx
          × (light'.hdlc.tx.origin_data ≡ none)
          × (line w' ≡ line w ++ wire c frame)
  light_send-frame fuel light frame w v idle pos enough works early =
      let c = light.hdlc.crc_type in
      let start : light.hdlc.tx.state ≡ send_start = ground (arith, v.owned, idle) in
      let (_, _, image) = put_frame_pending c light.hdlc.tx frame v idle start pos in
      let (result, light', w', runs, kind, sent, len) =
        light_send-Sent port waits line patience writer fuel light frame w v
          (omega (arith, enough, ap length image)) in
      let (n, e, v', idle', on) =
        whole_frame (port.millis w) c _ w result light'.hdlc w' works early sent in
      (
        light',
        w',
        runs ∙ ap (λ r. some (r, light', w')) (e ∙ ap amount (len n e)),
        kind,
        v',
        idle',
        on ∙ ap (λ image. line w ++ image) image,
      )
