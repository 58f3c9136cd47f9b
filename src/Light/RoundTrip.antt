-- ===== src/Light/RoundTrip.antt =====
-- A frame from one handle of src/proto/light/tiny_light.c to another.
use tinyproto.Prelude.{
  ℕ, ◌+◌, ◌*◌, ◌<◌, ◌≤◌, ◌≡◌, ◌≢◌, sym, ◌∙◌, ap, false, some, List, [], ◌∷◌, ◌++◌, append-nil,
  length, take, subst,
}
use tinyproto.Crc.{crc_off}
use tinyproto.Hdlc.Wire.{wire, fcs_size}
use tinyproto.User.{Port, refused, amount}
use tinyproto.Light.{Light, expired}
use tinyproto.Light.Send.{light_send}
use tinyproto.Light.Read.{light_read}
use tinyproto.Light.Sent.{IsWriter}
use tinyproto.Light.Sent.Frame.{light_send-frame}
use tinyproto.Light.Heard.Blocks.{IsReader}
use tinyproto.Light.Heard.Frame.{light_read-frame}
use tinyproto.Light.Ready.{IsLight}

-- Two handles with the same check sum type, between calls, and a line that the first writes and the second
-- reads, both in time and without failures: a frame that is not empty and fits the reader's buffer with
-- its check sum is sent and read. Both calls return its length, with fuel for the bytes of its wire image,
-- the frame stands at the start of the buffer, and the line is empty again.
pub frame_carried :
    {W R : Type 0} (port : Port W) (port' : Port R) (waits waits' : ℕ) (line : W → List ℕ)
    (input : R → List ℕ) (patience : W → ℕ) (patience' : R → ℕ) (connect : W → R) (fuel fuel' : ℕ)
    (light light' : Light) (at : ℕ) (frame pbuf : List ℕ) (w : W)
    → IsWriter port waits line patience
    → IsReader port' waits' input patience'
    → ((t : W) → input (connect t) ≡ line t)
    → ((b : ℕ) (t : W) (code : ℕ) → (port.write_func (b ∷ []) t).0 ≢ refused code)
    → ((t : W) → expired port (port.millis w) t ≡ false)
    → ((t : W) (u : R) → expired port' (port'.millis (connect t)) u ≡ false)
    → IsLight light
    → IsLight light'
    → light'.hdlc.crc_type ≡ light.hdlc.crc_type
    → line w ≡ []
    → 0 < length frame
    → length frame + fcs_size light.hdlc.crc_type ≤ length pbuf
    → length (wire light.hdlc.crc_type frame) + 1 < fuel
    → length (wire light.hdlc.crc_type frame) * waits' < fuel'
    → (sent : Light) × (w' : W) × (read : Light) × (r : R) × (light_send fuel waits port light frame
          w
        ≡ some (amount (length frame), sent, w'))
      × (light_read fuel' port' light' at pbuf (connect w') ≡ some (amount (length frame), read, r))
      × (take (length frame) read.hdlc.rx.rx_buf ≡ frame)
      × (input r ≡ [])
frame_carried port port' waits waits' line input patience patience' connect fuel fuel' light light'
      at frame pbuf w writer reader joined works early early' v v' same empty pos fits enough
      enough' =
    let c = light.hdlc.crc_type in
    let (sent, w', sends, _, _, _, on) =
      light_send-frame port waits line patience writer fuel light frame w v.sender v.idle pos enough
        works early in
    let image : input (connect w') ≡ wire light'.hdlc.crc_type frame ++ [] =
      joined w'
      ∙ on
      ∙ ap (λ l. l ++ wire c frame) empty
      ∙ sym (ap (λ t. wire t frame ++ []) same ∙ append-nil (wire c frame)) in
    let (read, r, reads, stored, rest, _, _, _) =
      light_read-frame port' waits' input patience' reader fuel' light' at pbuf (connect w') frame
        [] (subst (λ t. t ≢ crc_off) (sym same) v.sender.stored) v'.listening v'.waits pos
        (subst (λ t. length frame + fcs_size t ≤ length pbuf) (sym same) fits) image (early' w')
        (subst (λ t. length (wire t frame) * waits' < fuel') (sym same) enough') in
    (sent, w', read, r, sends, reads, stored, rest)
