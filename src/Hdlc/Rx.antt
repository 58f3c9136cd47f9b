-- ===== src/Hdlc/Rx.antt =====
-- The receiving half of src/proto/hdlc/low_level/hdlc.c. Pointers into `rx_buf` are offsets, and
-- `none` stands for a write outside of it.
pub mod Listen
pub mod Refine
pub mod Rounds
pub mod Run
pub mod Chunks
pub mod Byte
use tinyproto.Prelude.{
  not, ◌&&◌, ℕ, zero, suc, ◌+◌, ◌-◌, ◌*◌, ◌/◌, ◌%◌, ◌^◌, bit_or, bit_xor, Bool, true, false, Option,
  none, some, List, [], ◌∷◌, ◌++◌, length, get_or, set, take, drop, ltb, ◌==◌, if◌then◌else◌, ◌>>=◌,
}
use tinyproto.Crc.{
  CrcType, crc_default, crc_8, crc_16, crc_32, crc_off, crc_value, init_checksum, init_fcs16,
  init_fcs32, tiny_chksum, tiny_crc16, tiny_crc32,
}
use tinyproto.Hdlc.Bytes.{
  flag_sequence, tiny_escape_char, tiny_escape_bit, Status, success, data_too_large, wrong_crc,
}

-- The function that `rx.state` points to.
pub data RxState : Type 0 where
  read_start read_data read_end : RxState

-- The parts of hdlc_ll_data_t that the receiver reads and writes. `rx_buf` is the memory of
-- `rx_buf_size` bytes, `active_frame_buf` an offset in it, `ptr` counts from `active_frame_buf`.
-- `frames_read` holds the calls of the user's `on_frame_read`, oldest first; `on_frame_read` says
-- whether that callback is set.
pub record Rx : Type 0 where
  pub state : RxState
  pub phys_mtu : ℕ
  pub rx_buf : List ℕ
  pub active_frame_buf : ℕ
  pub ptr : ℕ
  pub escape : Bool
  pub on_frame_read : Bool
  pub frames_read : List (List ℕ)

-- What a state function returns: the bytes it used, or a code that ends the loop.
pub data Reply : Type 0 where
  used : ℕ → Reply
  stopped : Status → Reply

-- The `rx` part of `hdlc_ll_reset`.
unfoldable pub reset_rx : Rx → Rx
reset_rx rx = record rx { state = read_start }

-- `*handle->rx.ptr = byte; handle->rx.ptr++`.
pub store : ℕ → Rx → Option Rx
store byte rx =
    let at = rx.active_frame_buf + rx.ptr in
    if ltb at (length rx.rx_buf)
    then some (record rx { rx_buf = set rx.rx_buf at byte; ptr = rx.ptr + 1 })
    else none

pub hdlc_ll_read_start : Rx → List ℕ → Reply × Rx
hdlc_ll_read_start rx [] = (used 0, rx)
hdlc_ll_read_start rx (byte ∷ rest) =
    if byte == flag_sequence
    then (used 1, record rx { escape = false; ptr = 0; state = read_data })
    else (used 1, rx)

-- The body of the loop of `hdlc_ll_read_data` for a byte that is no flag.
pub read_byte : ℕ → Rx → Option Rx
read_byte byte rx =
    if byte == tiny_escape_char
    then some (record rx { escape = true })
    else (if ltb rx.ptr rx.phys_mtu
        then (if rx.escape
            then store (bit_xor byte tiny_escape_bit) (record rx { escape = false })
            else store byte rx)
        else some rx)

-- The loop of `hdlc_ll_read_data`, `result` bytes into the input.
pub read_loop : List ℕ → ℕ → Rx → Option (ℕ × Rx)
read_loop [] result rx = some (result, rx)
read_loop (byte ∷ rest) result rx =
    let more = read_byte byte rx >>= λ rx'. read_loop rest (result + 1) rx' in
    if byte == flag_sequence then some (result + 1, record rx { state = read_end }) else more

pub hdlc_ll_read_data : Rx → List ℕ → Option (Reply × Rx)
hdlc_ll_read_data rx input = do (result, rx') ← read_loop input 0 rx; some (used result, rx')

-- The `len` bytes of the frame buffer.
abbrev pub frame_bytes : Rx → List ℕ
frame_bytes rx = take rx.ptr (drop rx.active_frame_buf rx.rx_buf)

-- The two values that the `switch` of `hdlc_ll_read_end` computes from a frame of `len` bytes;
-- `rx.ptr[-k]` is the byte at `len - k`.
unfoldable pub calc_crc : CrcType → List ℕ → ℕ → ℕ
calc_crc crc_8 frame len = tiny_chksum init_checksum (take (len - 1) frame) % 2 ^ 8
calc_crc crc_16 frame len = tiny_crc16 init_fcs16 (take (len - 2) frame)
calc_crc crc_32 frame len = tiny_crc32 init_fcs32 (take (len - 4) frame)
calc_crc _ frame len = 0

unfoldable pub read_crc : CrcType → List ℕ → ℕ → ℕ
read_crc crc_8 frame len = get_or frame (len - 1) 0
read_crc crc_16 frame len = bit_or (get_or frame (len - 2) 0) (get_or frame (len - 1) 0 * 2 ^ 8)
read_crc crc_32 frame len =
    bit_or
      (bit_or (bit_or (get_or frame (len - 4) 0) (get_or frame (len - 3) 0 * 2 ^ 8))
        (get_or frame (len - 2) 0 * 2 ^ 16))
      (get_or frame (len - 1) 0 * 2 ^ 24)
read_crc _ frame len = 0

-- The window moves on by `phys_mtu`, and back to the start where the next would not fit.
abbrev pub next_window : Rx → ℕ
next_window rx =
    let at = rx.active_frame_buf + rx.phys_mtu in
    if ltb (length rx.rx_buf) (at + rx.phys_mtu) then 0 else at

-- `len` is not negative where the check sum's size has been tested.
pub deliver : CrcType → Rx → Rx
deliver crc_type rx = record rx {
  frames_read =
      if rx.on_frame_read
      then rx.frames_read ++ take (rx.ptr - crc_value crc_type / 8) (frame_bytes rx) ∷ []
      else rx.frames_read;
  active_frame_buf = next_window rx;
}

pub hdlc_ll_read_end : CrcType → Rx → Reply × Rx
hdlc_ll_read_end crc_type rx =
    if rx.ptr == 0
    then (stopped success, record rx { escape = false; state = read_data })
    else let rx' = record rx { state = read_start } in
      if ltb rx'.phys_mtu rx'.ptr
      then (stopped data_too_large, rx')
      else (if ltb rx'.ptr (crc_value crc_type / 8)
          then (stopped wrong_crc, rx')
          else (if calc_crc crc_type (frame_bytes rx') rx'.ptr
                == read_crc crc_type (frame_bytes rx') rx'.ptr
              then (stopped success, deliver crc_type rx')
              else (stopped wrong_crc, rx')))

-- `handle->rx.state(handle, data, len)`.
pub run_state : RxState → CrcType → Rx → List ℕ → Option (Reply × Rx)
run_state read_start crc_type rx input = some (hdlc_ll_read_start rx input)
run_state read_data crc_type rx input = hdlc_ll_read_data rx input
run_state read_end crc_type rx input = some (hdlc_ll_read_end crc_type rx)

abbrev pub at_end : RxState → Bool
at_end read_end = true
at_end _ = false

-- What `hdlc_ll_run_rx` returns (`result` and `*error`) beside the new state.
pub record RxResult : Type 0 where
  pub result : ℕ
  pub error : Status
  pub rx : Rx

-- What `hdlc_ll_run_rx` does with the reply of a state function: a reply of no byte ends the loop
-- like a code does; otherwise `again` goes on with the rest of the input.
abbrev pub after_reply :
    (Rx → List ℕ → ℕ → Option RxResult) → Reply × Rx → List ℕ → ℕ → Option RxResult
after_reply again (used zero, rx) input result =
    some (record { result = result; error = success; rx = rx })
after_reply again (used (suc n), rx) input result = again rx (drop (suc n) input) (result + suc n)
after_reply again (stopped code, rx) input result =
    some (record { result = result; error = code; rx = rx })

-- The loop of `hdlc_ll_run_rx`.
pub run_rx_loop : ℕ → CrcType → Rx → List ℕ → ℕ → Option RxResult
run_rx_loop zero crc_type rx input result = none
run_rx_loop (suc fuel) crc_type rx input result =
    let round = run_state rx.state crc_type rx input >>= λ reply.
    after_reply (run_rx_loop fuel crc_type) reply input result in
    if length input == 0 && not (at_end rx.state)
    then some (record { result = result; error = success; rx = rx })
    else round

-- Every round but the last uses a byte, so `length input + 2` rounds are enough.
pub hdlc_ll_run_rx : CrcType → Rx → List ℕ → Option RxResult
hdlc_ll_run_rx crc_type rx input = run_rx_loop (length input + 2) crc_type rx input 0

-- `tiny_fd_on_rx_data` of src/proto/fd/tiny_fd.c: the loop hands the input to the receiver until all
-- of it is used, and logs the errors. `none` is a write out of bounds or the end of the fuel.
pub on_rx_loop : ℕ → CrcType → Rx → List ℕ → Option Rx
on_rx_loop zero crc_type rx input = none
on_rx_loop (suc fuel) crc_type rx [] = some rx
on_rx_loop (suc fuel) crc_type rx (byte ∷ rest) = do
  r ← hdlc_ll_run_rx crc_type rx (byte ∷ rest)
  on_rx_loop fuel crc_type r.rx (drop r.result (byte ∷ rest))

-- Every round uses a byte at least.
pub tiny_fd_on_rx_data : CrcType → Rx → List ℕ → Option Rx
tiny_fd_on_rx_data crc_type rx input = on_rx_loop (length input + 1) crc_type rx input
