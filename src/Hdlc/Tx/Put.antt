-- ===== src/Hdlc/Tx/Put.antt =====
-- `hdlc_ll_put_frame` of src/proto/hdlc/low_level/hdlc.c, busy or not.
use tinyproto.Prelude.{ℕ, List, arith, inl, inr}
use tinyproto.Crc.{CrcType}
use tinyproto.Hdlc.Tx.{Tx, hdlc_ll_put_frame}
use tinyproto.Hdlc.Tx.Pending.{IsTx}

-- The sender stays valid, whether it takes the frame or not.
pub put_frame-IsTx :
    (c : CrcType) (tx : Tx) (frame : List ℕ) → IsTx c tx → IsTx c (hdlc_ll_put_frame tx frame).1
unfolding hdlc_ll_put_frame
put_frame-IsTx c tx frame v = elim v.owned [
  | inl start ↦ ground (arith, start)
  | inr held ↦ ground (arith, held)
]
