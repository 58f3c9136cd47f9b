-- ===== src/Hdlc/Tx/Pending.antt =====
-- What a state of the sender still owes to the wire, and the states that a sender can be in.
use tinyproto.Prelude.{
  ℕ, ◌+◌, ◌-◌, ◌*◌, ◌/◌, ◌%◌, ◌^◌, ◌≤◌, ◌<◌, ◌≡◌, ◌≢◌, ◌⊎◌, Bool, true, false, Option, none, some,
  List, [], ◌∷◌, ◌++◌, length, get_or,
}
use tinyproto.Crc.{CrcType, crc_off, crc_value}
use tinyproto.Hdlc.Bytes.{flag_sequence, is_special}
use tinyproto.Hdlc.Wire.{le_bytes, fcs_size, wire}
use tinyproto.Hdlc.Wire.Stuffing.{stuff_from}
use tinyproto.Hdlc.Tx.{Tx, TxState, send_start, send_data, send_crc, send_end, crc_byte}

-- The check sum bytes that `send_crc` has not sent.
abbrev pub crc_left : CrcType → Tx → List ℕ
crc_left crc_type tx = le_bytes ((crc_value crc_type - tx.len) / 8) (tx.crc / 2 ^ tx.len)

abbrev pub pending_frame : CrcType → Option (List ℕ) → List ℕ
pending_frame crc_type none = []
pending_frame crc_type (some frame) = wire crc_type frame

abbrev pub pending_in : CrcType → TxState → Tx → List ℕ
pending_in crc_type send_start tx = pending_frame crc_type tx.origin_data
pending_in crc_type send_data tx =
    stuff_from tx.escape (tx.rest ++ le_bytes (fcs_size crc_type) tx.crc) ++ flag_sequence ∷ []
pending_in crc_type send_crc tx = stuff_from tx.escape (crc_left crc_type tx) ++ flag_sequence ∷ []
pending_in crc_type send_end tx = flag_sequence ∷ []

-- The bytes that are still to be written.
abbrev pub pending : CrcType → Tx → List ℕ
pending crc_type tx = pending_in crc_type tx.state tx

-- Between an escape and its byte, the byte is one to escape.
abbrev pub EscapeFits : Bool → ℕ → Type 0
EscapeFits false b = Unit {0}
EscapeFits true b = is_special b ≡ true

abbrev pub FrameFits : Option (List ℕ) → Tx → Type 0
FrameFits none tx = Unit {0}
FrameFits (some frame) tx = (tx.rest ≡ frame) × (tx.len ≡ length frame) × (0 < tx.len)

abbrev pub StateFits : CrcType → TxState → Tx → Type 0
StateFits crc_type send_start tx = FrameFits tx.origin_data tx
StateFits crc_type send_data tx =
    (tx.len ≡ length tx.rest) × (0 < tx.len) × EscapeFits tx.escape (get_or tx.rest 0 0)
StateFits crc_type send_crc tx =
    (tx.rest ≡ [])
    × (tx.len % 8 ≡ 0)
    × (tx.len ≤ crc_value crc_type)
    × EscapeFits tx.escape (crc_byte tx)
    × ((tx.escape ≡ true) → tx.len < crc_value crc_type)
StateFits crc_type send_end tx = tx.rest ≡ []

abbrev pub rank : TxState → ℕ
rank send_crc = 2
rank _ = 0

abbrev pub has_frame : Option (List ℕ) → Bool
has_frame none = false
has_frame (some frame) = true

-- The sender's invariant; `hdlc_ll_init` stores no HDLC_CRC_OFF.
pub record IsTx (crc_type : CrcType) (tx : Tx) : Type 0 where
  pub stored : crc_type ≢ crc_off
  pub fits : StateFits crc_type tx.state tx
  pub owned : (tx.state ≡ send_start) ⊎ (has_frame tx.origin_data ≡ true)

-- The reports of frames to the user: those made and the one that is due for the frame being sent.
abbrev pub due : Option (List ℕ) → List (Option (List ℕ) × ℕ)
due none = []
due (some frame) = (some frame, length frame) ∷ []

abbrev pub reports : Tx → List (Option (List ℕ) × ℕ)
reports tx = tx.frames_sent ++ due tx.origin_data

-- One call of a state function with room in the buffer: it keeps the invariant, moves bytes from
-- what is pending to the buffer and drops none, and either makes progress or is idle.
pub record Steps (crc_type : CrcType) (tx : Tx) (result : ℕ) (tx' : Tx) : Type 0 where
  pub valid : IsTx crc_type tx'
  pub stream : tx'.out_buffer ++ pending crc_type tx' ≡ tx.out_buffer ++ pending crc_type tx
  pub room : length tx'.out_buffer + tx'.out_buffer_len ≡ length tx.out_buffer + tx.out_buffer_len
  pub callback : tx'.on_frame_send ≡ tx.on_frame_send
  pub reported : tx.on_frame_send ≡ true → reports tx' ≡ reports tx
  pub progress :
      ((0 < result)
        × (4 * tx'.out_buffer_len + rank tx'.state + 2 ≤ 4 * tx.out_buffer_len + rank tx.state))
      ⊎ ((result ≡ 0) × (tx' ≡ tx) × (pending crc_type tx ≡ []))
