-- ===== src/Hdlc/Tx/Steps.antt =====
-- Each state function of the sender writes what is pending, in order.
mod Crc
mod Data
use tinyproto.Prelude.{
  append-nil, ℕ, zero, suc, ◌+◌, ◌-◌, ◌*◌, ◌/◌, ◌%◌, ◌^◌, ◌≤◌, ◌<◌, min, ◌≡◌, ◌≢◌, ◌⊎◌, inl, inr,
  refl, ap, Bool, true, false, Option, none, some, List, [], ◌∷◌, ◌++◌, append_assoc, arith, length,
  get_or, take, drop, length-append, length-take, length-drop, take_all, nil_of_length, ◌∙◌, sym,
  ◌==◌, if◌then◌else◌, bit_xor, Bool-cases,
}
use native.Mathlib.Numerals.{towards_suc}
use native.Mathlib.Nat.{div-div-eq-div-mul}
use tinyproto.Crc.{CrcType, crc_default, crc_8, crc_16, crc_32, crc_off, crc_value}
use tinyproto.Hdlc.Bytes.{flag_sequence, tiny_escape_char, tiny_escape_bit, is_special}
use tinyproto.Hdlc.Wire.{le_bytes, fcs_size, fcs, fcs_bytes, stuff, wire}
use tinyproto.Hdlc.Wire.Stuffing.{stuff_from, stuff-special, stuff-plain, stuff-plain_prefix}
use tinyproto.Hdlc.Tx.{
  Tx, TxState, send_start, send_data, send_crc, send_end, crc_byte, bytes_taken, hdlc_ll_send_end,
  hdlc_ll_send_crc, send_crc_escaped, send_crc_plain, hdlc_ll_send_data, plain_prefix, send_escaped,
  send_plain, hdlc_ll_send_start, start_crc, run_state,
}
use tinyproto.Hdlc.Tx.Copy.{wrote, send_byte, send_bytes}
use tinyproto.Hdlc.Tx.Pending.{
  due, reports, has_frame, crc_left, pending, EscapeFits, IsTx, Steps, rank,
}
use Crc.{send_crc-Steps, crc_value_bytes}
use Data.{send_data-Steps}

bytes_taken-all :
    (tx : Tx) (origin : Option (List ℕ))
    → tx.origin_data ≡ origin
    → has_frame origin ≡ true
    → tx.rest ≡ []
    → (tx.origin_data, bytes_taken tx) ∷ [] ≡ due tx.origin_data
bytes_taken-all tx none e h r = absurd (cc)
bytes_taken-all tx (some frame) e h r =
    rw (e, r) (ap (λ n. (some frame, n) ∷ []) {x = length frame - 0} (omega arith))

send_end-reports :
    (tx : Tx)
    → has_frame tx.origin_data ≡ true
    → tx.rest ≡ []
    → (tx.frames_sent ++ (tx.origin_data, bytes_taken tx) ∷ []) ++ [] ≡ reports tx
send_end-reports tx h r =
    append-nil (tx.frames_sent ++ (tx.origin_data, bytes_taken tx) ∷ [])
    ∙ ap (◌++◌ tx.frames_sent) (bytes_taken-all tx tx.origin_data refl h r)

send_end-Steps :
    (c : CrcType) (tx : Tx)
    → tx.state ≡ send_end
    → IsTx c tx
    → 0 < tx.out_buffer_len
    → let (r, tx') = hdlc_ll_send_end tx in Steps c tx r tx'
unfolding hdlc_ll_send_end
send_end-Steps c tx s v h = ground (
  arith,
  send_byte tx flag_sequence,
  append_assoc tx.out_buffer (flag_sequence ∷ []) [],
  length-append tx.out_buffer (flag_sequence ∷ []),
  send_end-reports tx,
)

-- The check sum that is computed at the start is the one of the frame on the wire.
start_crc-fcs :
    (c : CrcType) (tx : Tx)
    → tx.len ≡ length tx.rest
    → le_bytes (fcs_size c) (start_crc c tx) ≡ fcs_bytes c tx.rest
unfolding start_crc le_bytes fcs_size fcs_bytes fcs
start_crc-fcs crc_default tx e = refl
start_crc-fcs crc_8 tx e =
    rw (take_all tx.len tx.rest (omega arith)) (ap (λ t. t ∷ []) (omega arith))
start_crc-fcs crc_16 tx e = rw (take_all tx.len tx.rest (omega arith))
start_crc-fcs crc_32 tx e = rw (take_all tx.len tx.rest (omega arith))
start_crc-fcs crc_off tx e = refl

send_start-Steps :
    (c : CrcType) (tx : Tx) (frame : Option (List ℕ))
    → tx.origin_data ≡ frame
    → tx.state ≡ send_start
    → IsTx c tx
    → 0 < tx.out_buffer_len
    → let (r, tx') = hdlc_ll_send_start c tx in Steps c tx r tx'
unfolding hdlc_ll_send_start wire
send_start-Steps c tx none e s v h = ground arith
send_start-Steps c tx (some frame) e s v h = ground (
  arith,
  send_byte (record tx { crc = start_crc c tx }) flag_sequence,
  start_crc-fcs c tx,
  append_assoc tx.out_buffer (flag_sequence ∷ [])
      (stuff (frame ++ fcs_bytes c frame) ++ flag_sequence ∷ []),
  length-append tx.out_buffer (flag_sequence ∷ []),
)

-- One round of the sender.
pub run_state-Steps :
    (c : CrcType) (tx : Tx) (state : TxState)
    → tx.state ≡ state
    → IsTx c tx
    → 0 < tx.out_buffer_len
    → let (r, tx') = run_state state c tx in Steps c tx r tx'
unfolding run_state
run_state-Steps c tx send_start s v h = send_start-Steps c tx tx.origin_data refl s v h
run_state-Steps c tx send_data s v h = send_data-Steps c tx tx.rest refl s v h
run_state-Steps c tx send_crc s v h = send_crc-Steps c tx s v h
run_state-Steps c tx send_end s v h = send_end-Steps c tx s v h
