-- ===== src/Hdlc/Rx/Listen.antt =====
-- The receiver as a machine on single bytes: no memory, no window, no input chunks.
use tinyproto.Prelude.{
  ℕ, ◌+◌, ◌-◌, ◌/◌, ◌≤◌, ◌≡◌, ◌⊎◌, bit_xor, Bool, true, false, Option, none, some, List, [], ◌∷◌,
  ◌++◌, length, take, ltb, ◌==◌, if◌then◌else◌,
}
use tinyproto.Crc.{CrcType, crc_value}
use tinyproto.Hdlc.Bytes.{flag_sequence, tiny_escape_char, tiny_escape_bit}
use tinyproto.Hdlc.Rx.{
  Rx, RxState, read_start, read_data, read_end, calc_crc, read_crc, frame_bytes,
}

-- The frames heard so far, and the frame that is being collected.
pub data Listen : Type 0 where
  hunting : List (List ℕ) → Listen
  collecting : List (List ℕ) → List ℕ → Bool → Listen

-- The payload of a frame whose check sum is right.
unfoldable pub accept : CrcType → List ℕ → Option (List ℕ)
accept c frame =
    if ltb (length frame) (crc_value c / 8)
    then none
    else (if calc_crc c frame (length frame) == read_crc c frame (length frame)
        then some (take (length frame - crc_value c / 8) frame)
        else none)

unfoldable pub add_frame : List (List ℕ) → Option (List ℕ) → List (List ℕ)
add_frame heard none = heard
add_frame heard (some payload) = heard ++ payload ∷ []

-- The closing flag: after no byte at all it opens the frame anew.
unfoldable pub close : CrcType → List (List ℕ) → List ℕ → Listen
close c heard [] = collecting heard [] false
close c heard (b ∷ frame) = hunting (add_frame heard (accept c (b ∷ frame)))

-- A byte of the frame; what does not fit `mtu` bytes is dropped.
unfoldable pub collect : ℕ → List (List ℕ) → List ℕ → Bool → ℕ → Listen
collect mtu heard frame escape b =
    if b == tiny_escape_char
    then collecting heard frame true
    else (if ltb (length frame) mtu
        then collecting heard (frame ++ (if escape then bit_xor b tiny_escape_bit else b) ∷ [])
            false
        else collecting heard frame escape)

unfoldable pub hear : CrcType → ℕ → Listen → ℕ → Listen
hear c mtu (hunting heard) b =
    if b == flag_sequence then collecting heard [] false else hunting heard
hear c mtu (collecting heard frame escape) b =
    if b == flag_sequence then close c heard frame else collect mtu heard frame escape b

unfoldable pub hear_all : CrcType → ℕ → Listen → List ℕ → Listen
hear_all c mtu s [] = s
hear_all c mtu s (b ∷ bs) = hear_all c mtu (hear c mtu s b) bs

-- What a receiver has heard. One that has read the closing flag and not acted on it is where that
-- flag takes it.
unfoldable pub listen_in : CrcType → RxState → Rx → Listen
listen_in c read_start rx = hunting rx.frames_read
listen_in c read_data rx = collecting rx.frames_read (frame_bytes rx) rx.escape
listen_in c read_end rx = close c rx.frames_read (frame_bytes rx)

abbrev pub listen : CrcType → Rx → Listen
listen c rx = listen_in c rx.state rx

-- The receiver's invariant: the window lies inside the buffer, and a frame that is being read inside
-- the window. `rx.ptr` is not set before the opening flag.
pub record IsRx (rx : Rx) : Type 0 where
  pub window : rx.active_frame_buf + rx.phys_mtu ≤ length rx.rx_buf
  pub inside : (rx.state ≡ read_start) ⊎ (rx.ptr ≤ rx.phys_mtu)
  pub listening : rx.on_frame_read ≡ true
