-- ===== src/Hdlc/RoundTrip.antt =====
-- What the sender puts on the wire, the receiver delivers.
use tinyproto.Prelude.{
  ℕ, ◌+◌, ◌≤◌, ◌<◌, ◌≡◌, sym, ◌∙◌, ap, none, some, List, [], ◌∷◌, ◌++◌, length, take, take_all,
  append-nil,
}
use tinyproto.Crc.{CrcType}
use tinyproto.Hdlc.Wire.{fcs_size, wire}
use tinyproto.Hdlc.Tx.{Tx, send_start, hdlc_ll_put_frame}
use tinyproto.Hdlc.Tx.Pending.{IsTx}
use tinyproto.Hdlc.Tx.Stream.{transmit, sum, frame_goes_out}
use tinyproto.Hdlc.Rx.{Rx, read_start}
use tinyproto.Hdlc.Rx.Chunks.{IsReady, receive, join}
use tinyproto.Hdlc.Rx.Listen.{listen_in}
use tinyproto.Hdlc.Recovery.{frames_delivered}

-- End to end: a frame put to an idle sender, taken out of it through buffers of any sizes that hold
-- its wire image together, and handed to a ready receiver that waits for a flag, in chunks cut
-- anywhere, is delivered once, with the payload that was put, if the receiver's `phys_mtu` holds it
-- with its check sum. No call faults or fails to return.
pub frame_arrives :
    (c : CrcType) (tx : Tx) (rx : Rx) (payload sizes : List ℕ) (chunks : List (List ℕ))
    → IsTx c tx
    → tx.origin_data ≡ none
    → tx.state ≡ send_start
    → IsReady rx
    → rx.state ≡ read_start
    → 0 < length payload
    → length payload + fcs_size c ≤ rx.phys_mtu
    → length (wire c payload) ≤ sum sizes
    → join chunks ≡ take (sum sizes) (wire c payload)
    → (last : Tx) × (rx' : Rx) × (transmit c sizes (hdlc_ll_put_frame tx payload).1
        ≡ some (join chunks, last))
      × (receive c rx chunks ≡ some rx')
      × (rx'.state ≡ read_start)
      × (rx'.frames_read ≡ rx.frames_read ++ payload ∷ [])
unfolding listen_in
frame_arrives c tx rx payload sizes chunks vt idle start vr waits pos fits enough cut =
    let (bytes, last, sends, image, v') = frame_goes_out c tx payload sizes vt idle start pos in
    let whole : join chunks ≡ wire c payload = cut ∙ take_all (sum sizes) (wire c payload) enough in
    let (rx', runs, ready, s, frames) =
      frames_delivered c rx [] (payload ∷ []) chunks vt.stored vr waits tt (pos, fits, tt)
        (whole ∙ sym (append-nil (wire c payload))) in
    (last, rx', sends ∙ ap (λ b. some (b, last)) (image ∙ sym cut), runs, s, frames)
