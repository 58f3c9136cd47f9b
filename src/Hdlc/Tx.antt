-- ===== src/Hdlc/Tx.antt =====
-- The sending half of src/proto/hdlc/low_level/hdlc.c. A function takes the `tx` part of
-- hdlc_ll_data_t (and crc_type, where it reads it) and returns its result and the new state.
pub mod Copy
pub mod Pending
pub mod Steps
pub mod Stream
pub mod Close
pub mod Reported
pub mod Put
use tinyproto.Prelude.{
  ℕ, zero, suc, ◌+◌, ◌-◌, ◌*◌, ◌/◌, ◌%◌, ◌^◌, bit_xor, Bool, true, false, ◌&&◌, Option, none, some,
  List, [], ◌∷◌, ◌++◌, length, get_or, take, drop, ltb, ◌==◌, if◌then◌else◌, ◌>>=◌,
}
use tinyproto.Crc.{
  CrcType, crc_8, crc_16, crc_32, crc_value, init_checksum, init_fcs16, init_fcs32, tiny_chksum,
  tiny_crc16, tiny_crc32,
}
use tinyproto.Hdlc.Bytes.{
  flag_sequence, tiny_escape_char, tiny_escape_bit, is_special, Status, success, busy,
}

-- The function that `tx.state` points to.
pub data TxState : Type 0 where
  send_start send_data send_crc send_end : TxState

-- The pointer `tx.data` is the list of the frame's bytes from it on, `rest`; `tx.origin_data` is
-- the frame that was put. `out_buffer` holds what is written to the caller's buffer so far, and
-- `frames_sent` the calls of the user's `on_frame_send` (its data and length), oldest first;
-- `on_frame_send` says whether that callback is set.
pub record Tx : Type 0 where
  pub state : TxState
  pub out_buffer : List ℕ
  pub out_buffer_len : ℕ
  pub origin_data : Option (List ℕ)
  pub rest : List ℕ
  pub len : ℕ
  pub crc : ℕ
  pub escape : Bool
  pub on_frame_send : Bool
  pub frames_sent : List (Option (List ℕ) × ℕ)

-- The `tx` part of `hdlc_ll_reset`.
unfoldable pub reset_tx : Tx → Tx
reset_tx tx = record tx { rest = []; origin_data = none; escape = false; state = send_start }

-- The loop of `hdlc_ll_send_tx_internal`, with `len` bytes to copy from `ptr`.
pub copy_out : List ℕ → ℕ → Tx → ℕ → ℕ × Tx
copy_out ptr zero tx sent = (sent, tx)
copy_out [] (suc len) tx sent = (sent, tx)
copy_out (byte ∷ ptr) (suc len) tx sent =
    let copied = record tx {
      out_buffer = tx.out_buffer ++ byte ∷ [];
      out_buffer_len = tx.out_buffer_len - 1;
    } in
    let more = copy_out ptr len copied (sent + 1) in
    if tx.out_buffer_len == 0 then (sent, tx) else more

pub send_tx_internal : Tx → List ℕ → ℕ → ℕ × Tx
send_tx_internal tx ptr len = copy_out ptr len tx 0

-- The `switch` of `hdlc_ll_send_start`.
pub start_crc : CrcType → Tx → ℕ
start_crc crc_16 tx = tiny_crc16 init_fcs16 (take tx.len tx.rest)
start_crc crc_32 tx = tiny_crc32 init_fcs32 (take tx.len tx.rest)
start_crc crc_8 tx = tiny_chksum init_checksum (take tx.len tx.rest)
start_crc _ tx = tx.crc

pub hdlc_ll_send_start : CrcType → Tx → ℕ × Tx
hdlc_ll_send_start crc_type tx = elim tx.origin_data [
  | none ↦ (0, tx)
  | some frame ↦
      let (result, tx') =
        send_tx_internal (record tx { crc = start_crc crc_type tx }) (flag_sequence ∷ []) 1 in
      (result, if result == 1 then record tx' { state = send_data; escape = false } else tx')
]

-- The `while` of `hdlc_ll_send_data`: how many of the `len` bytes come before a flag or an
-- escape. The source reads `data[pos]` before it tests `pos < len`; the byte that it reads past
-- the end does not change the result.
unfoldable pub plain_prefix : List ℕ → ℕ → ℕ
plain_prefix ptr zero = 0
plain_prefix [] (suc len) = 0
plain_prefix (byte ∷ ptr) (suc len) = if is_special byte then 0 else suc (plain_prefix ptr len)

-- The branch of `hdlc_ll_send_data` for `pos` plain bytes.
pub send_plain : ℕ → Tx → ℕ × Tx
send_plain pos tx =
    let (result, tx') = send_tx_internal tx tx.rest pos in
    (
      result,
      if ltb 0 result
          then record tx' { rest = drop result tx'.rest; len = tx'.len - result }
          else tx',
    )

-- Its branch for a byte that is escaped.
pub send_escaped : Tx → ℕ × Tx
send_escaped tx =
    let byte =
      if tx.escape then bit_xor (get_or tx.rest 0 0) tiny_escape_bit else tiny_escape_char in
    let (result, tx') = send_tx_internal tx (byte ∷ []) 1 in
    (
      result,
      if ltb 0 result
          then (if tx'.escape
              then record tx' { escape = false; rest = drop 1 tx'.rest; len = tx'.len - 1 }
              else record tx' { escape = true })
          else tx',
    )

pub hdlc_ll_send_data : Tx → ℕ × Tx
hdlc_ll_send_data tx =
    let pos = plain_prefix tx.rest tx.len in
    let (result, tx') = if pos == 0 then send_escaped tx else send_plain pos tx in
    (result, if tx'.len == 0 then record tx' { state = send_crc } else tx')

-- The byte of the check sum that `hdlc_ll_send_crc` is at, where `len` counts the bits sent.
abbrev pub crc_byte : Tx → ℕ
crc_byte tx = tx.crc / 2 ^ tx.len % 2 ^ 8

pub send_crc_escaped : Tx → ℕ × Tx
send_crc_escaped tx =
    let byte = if tx.escape then bit_xor (crc_byte tx) tiny_escape_bit else tiny_escape_char in
    let (result, tx') = send_tx_internal tx (byte ∷ []) 1 in
    (
      result,
      if result == 1
          then (if tx'.escape
              then record tx' { escape = false; len = tx'.len + 8 }
              else record tx' { escape = true })
          else tx',
    )

pub send_crc_plain : Tx → ℕ × Tx
send_crc_plain tx =
    let (result, tx') = send_tx_internal tx (crc_byte tx ∷ []) 1 in
    (result, if result == 1 then record tx' { len = tx'.len + 8 } else tx')

pub hdlc_ll_send_crc : CrcType → Tx → ℕ × Tx
hdlc_ll_send_crc crc_type tx =
    if tx.len == crc_value crc_type
    then (1, record tx { state = send_end })
    else (if is_special (crc_byte tx) then send_crc_escaped tx else send_crc_plain tx)

-- How far `tx.data` is past `tx.origin_data`.
abbrev pub bytes_taken : Tx → ℕ
bytes_taken tx = elim tx.origin_data [ none ↦ 0 | some frame ↦ length frame - length tx.rest ]

pub hdlc_ll_send_end : Tx → ℕ × Tx
hdlc_ll_send_end tx =
    let (result, tx') = send_tx_internal tx (flag_sequence ∷ []) 1 in
    (
      result,
      if result == 1
          then record tx' {
            state = send_start;
            escape = false;
            origin_data = none;
            rest = [];
            frames_sent =
                if tx'.on_frame_send
                then tx'.frames_sent ++ (tx'.origin_data, bytes_taken tx') ∷ []
                else tx'.frames_sent;
          }
          else tx',
    )

-- `handle->tx.state(handle)`.
pub run_state : TxState → CrcType → Tx → ℕ × Tx
run_state send_start crc_type tx = hdlc_ll_send_start crc_type tx
run_state send_data crc_type tx = hdlc_ll_send_data tx
run_state send_crc crc_type tx = hdlc_ll_send_crc crc_type tx
run_state send_end crc_type tx = hdlc_ll_send_end tx

-- The loop of `hdlc_ll_run_tx`; no state function returns a negative result. `none` means that
-- the fuel ran out.
pub run_tx_loop : ℕ → CrcType → Bool → Tx → Option Tx
run_tx_loop zero crc_type repeated_empty_data tx = none
run_tx_loop (suc fuel) crc_type repeated_empty_data tx =
    let (result, tx') = run_state tx.state crc_type tx in
    let again = run_tx_loop fuel crc_type (result == 0) tx' in
    if tx.out_buffer_len == 0
    then some tx
    else (if result == 0 && repeated_empty_data then some tx' else again)

-- The number of bytes written, and the new state, whose `out_buffer` holds them.
pub hdlc_ll_run_tx : CrcType → Tx → ℕ → Option (ℕ × Tx)
hdlc_ll_run_tx crc_type tx len = do
  tx' ←
      run_tx_loop (4 * len + 4) crc_type false (record tx { out_buffer = []; out_buffer_len = len })
  some (len - tx'.out_buffer_len, tx')

-- A NULL handle has no state to return; the model's handles are not NULL. NULL data is the empty
-- frame, since both are refused alike.
unfoldable pub hdlc_ll_put_frame : Tx → List ℕ → Status × Tx
hdlc_ll_put_frame tx frame = elim tx.origin_data [
  | some pending ↦ (busy, tx)
  | none ↦
      if length frame == 0
      then (success, tx)
      else (success, record tx { origin_data = some frame; rest = frame; len = length frame })
]

-- `hdlc_ll_close` reports a frame that is still being sent.
unfoldable pub hdlc_ll_close : Tx → Tx
hdlc_ll_close tx = elim tx.origin_data [
  | none ↦ tx
  | some frame ↦ record tx {
    frames_sent =
        if tx.on_frame_send
        then tx.frames_sent ++ (some frame, length frame - length tx.rest + tx.len) ∷ []
        else tx.frames_sent;
  }
]
