-- ===== src/Hdlc/Tx/Close.antt =====
-- What `hdlc_ll_close` tells the user about a frame that is not sent to its end.
use tinyproto.Prelude.{ℕ, ◌+◌, ◌≡◌, true, some, List, [], ◌∷◌, ◌++◌, arith, length}
use tinyproto.Crc.{CrcType}
use tinyproto.Hdlc.Tx.{Tx, send_start, send_crc, hdlc_ll_close}
use tinyproto.Hdlc.Tx.Pending.{IsTx}

-- `hdlc_ll_close` with the send callback set, on a valid sender that has accepted a frame: it reports
-- the frame once, with its length if no byte of the frame is sent yet; but while the check sum is
-- sent, with the length of the frame plus the number of bits of the check sum that are sent, since
-- `tx.len` then counts those.
pub close_reports :
    (c : CrcType) (tx : Tx) (frame : List ℕ)
    → IsTx c tx
    → tx.origin_data ≡ some frame
    → tx.on_frame_send ≡ true
    → ((tx.state ≡ send_start)
        → (hdlc_ll_close tx).frames_sent ≡ tx.frames_sent ++ (some frame, length frame) ∷ [])
      × ((tx.state ≡ send_crc)
          → (hdlc_ll_close tx).frames_sent
            ≡ tx.frames_sent ++ (some frame, length frame + tx.len) ∷ [])
unfolding hdlc_ll_close
close_reports c tx frame v e on = (λ s. ground arith, λ s. ground arith)
