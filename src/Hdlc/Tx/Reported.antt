-- ===== src/Hdlc/Tx/Reported.antt =====
-- The user is told of every frame that is sent.
use tinyproto.Prelude.{
  ℕ, ◌≤◌, ◌<◌, ◌≡◌, ◌⊎◌, inl, inr, refl, sym, ◌∙◌, ap, true, Option, none, some, List, [], ◌∷◌,
  ◌++◌, append-nil, arith, length, length-append, append-eq_nil,
}
use tinyproto.Crc.{CrcType}
use tinyproto.Hdlc.Wire.{wire}
use tinyproto.Hdlc.Tx.{Tx, TxState, send_start, send_crc, hdlc_ll_put_frame}
use tinyproto.Hdlc.Tx.Pending.{reports, pending, pending_in, IsTx}
use tinyproto.Prelude.{◌≢◌, nil_of_length}
use tinyproto.Hdlc.Bytes.{flag_sequence}
use tinyproto.Hdlc.Tx.Pending.{due, pending_frame}
use tinyproto.Hdlc.Tx.{send_data, send_crc, send_end}
use tinyproto.Hdlc.Tx.Stream.{sum, transmit, Transmits, transmit-Transmits, put_frame_pending}

wire-nonempty : (c : CrcType) (frame : List ℕ) → wire c frame ≢ []
unfolding wire
wire-nonempty c frame e = absurd (cc)

ends_with_flag : (bytes : List ℕ) → bytes ++ flag_sequence ∷ [] ≢ []
ends_with_flag bytes e = absurd (cc (append-eq_nil bytes (flag_sequence ∷ []) e))

-- A sender that owes nothing to the wire has no frame.
pub pending-none :
    (c : CrcType) (tx : Tx) (state : TxState) (origin : Option (List ℕ))
    → tx.state ≡ state
    → tx.origin_data ≡ origin
    → pending c tx ≡ []
    → tx.origin_data ≡ none
pending-none c tx send_start none s e h = e
pending-none c tx send_start (some frame) s e h =
    absurd
      (wire-nonempty c frame (sym (ap (λ t. pending_in c t tx) s ∙ ap (pending_frame c) e) ∙ h))
pending-none c tx send_data origin s e h =
    absurd (ends_with_flag _ (sym (ap (λ t. pending_in c t tx) s) ∙ h))
pending-none c tx send_crc origin s e h =
    absurd (ends_with_flag _ (sym (ap (λ t. pending_in c t tx) s) ∙ h))
pending-none c tx send_end origin s e h =
    absurd (ends_with_flag [] (sym (ap (λ t. pending_in c t tx) s) ∙ h))

all_sent :
    (bytes left image : List ℕ) {size : ℕ}
    → bytes ++ left ≡ image
    → length image ≤ size
    → (length bytes ≡ size) ⊎ (left ≡ [])
    → left ≡ []
all_sent bytes left image e h (inr done) = done
all_sent bytes left image {size} e h (inl full) =
    nil_of_length left (omega (arith, length-append bytes left, ap length e, h, full))

put_reports :
    (c : CrcType) (tx : Tx) (frame : List ℕ) {sizes bytes : List ℕ}
    → tx.origin_data ≡ none
    → tx.on_frame_send ≡ true
    → 0 < length frame
    → (last : Tx) → Transmits c sizes (hdlc_ll_put_frame tx frame).1 bytes last
    → reports last ≡ tx.frames_sent ++ (some frame, length frame) ∷ []
unfolding hdlc_ll_put_frame
put_reports c tx frame idle on h last t = ground (arith, t.reported)

-- With the send callback set and buffers that hold the wire image of the frame, the frame that an
-- idle sender accepts is reported once, with its whole length, after the frames reported before,
-- and the sender is then idle again.
pub frame_reported :
    (c : CrcType) (tx : Tx) (frame sizes : List ℕ)
    → IsTx c tx
    → tx.origin_data ≡ none
    → tx.state ≡ send_start
    → tx.on_frame_send ≡ true
    → 0 < length frame
    → length (wire c frame) ≤ sum sizes
    → (bytes : List ℕ) × (last : Tx) × (transmit c sizes (hdlc_ll_put_frame tx frame).1
        ≡ some (bytes, last))
      × (last.frames_sent ≡ tx.frames_sent ++ (some frame, length frame) ∷ [])
      × (last.origin_data ≡ none)
frame_reported c tx frame sizes v idle start on h enough =
    let put = put_frame_pending c tx frame v idle start h in
    let first = (hdlc_ll_put_frame tx frame).1 in
    let (bytes, last, t) = transmit-Transmits c sizes first put.1 in
    let done : pending c last ≡ [] =
      all_sent bytes (pending c last) (wire c frame) (t.stream ∙ put.2) enough t.filled in
    let none_left = pending-none c last last.state last.origin_data refl refl done in
    (
      bytes,
      last,
      t.runs,
      sym (append-nil last.frames_sent)
          ∙ ap (λ o. last.frames_sent ++ due o) (sym none_left)
          ∙ put_reports c tx frame idle on h last t,
      none_left,
    )
