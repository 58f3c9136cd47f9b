-- ===== src/Hdlc/Rx/Refine.antt =====
-- The receiver stays inside its buffer, and hears what the machine on single bytes hears, however
-- the input is cut.
use tinyproto.Prelude.{
  ℕ, suc, ◌+◌, ◌≤◌, ◌<◌, ◌≡◌, ◌⊎◌, inl, inr, refl, ◌∙◌, ap, bit_xor, true, false, some, List, [],
  ◌∷◌, ◌++◌, arith, length, take, drop, set, ltb, ◌==◌, if◌then◌else◌, ◌>>=◌, Bool-cases,
  length-set, length-take, length-drop, drop-set, take-set_next,
}
use tinyproto.Crc.{CrcType}
use tinyproto.Hdlc.Bytes.{flag_sequence, tiny_escape_char, tiny_escape_bit}
use tinyproto.Hdlc.Rx.{Rx, read_data, read_end, store, read_byte, read_loop, frame_bytes}
use tinyproto.Hdlc.Rx.Listen.{Listen, collect, hear, hear_all, listen_in, listen, IsRx}

pub length-frame_bytes :
    (rx : Rx) → IsRx rx → rx.ptr ≤ rx.phys_mtu → length (frame_bytes rx) ≡ rx.ptr
length-frame_bytes rx v h = ground (
  arith,
  length-take rx.ptr (drop rx.active_frame_buf rx.rx_buf),
  length-drop rx.active_frame_buf rx.rx_buf,
)

-- What storing a byte leaves.
abbrev pub stored : ℕ → Rx → Rx
stored byte rx = record rx {
  rx_buf = set rx.rx_buf (rx.active_frame_buf + rx.ptr) byte;
  ptr = rx.ptr + 1;
}

store_lem :
    (byte : ℕ) (rx : Rx) → IsRx rx → rx.ptr < rx.phys_mtu → store byte rx ≡ some (stored byte rx)
unfolding store
store_lem byte rx v h = ground arith

frame_bytes-stored :
    (byte : ℕ) (rx : Rx)
    → IsRx rx
    → rx.ptr < rx.phys_mtu
    → frame_bytes (stored byte rx) ≡ frame_bytes rx ++ byte ∷ []
frame_bytes-stored byte rx v h =
    ap (λ n. take n (drop rx.active_frame_buf (stored byte rx).rx_buf)) {y = suc rx.ptr}
      (omega arith)
    ∙ ap (take (suc rx.ptr)) (drop-set rx.rx_buf rx.active_frame_buf rx.ptr byte)
    ∙ take-set_next (drop rx.active_frame_buf rx.rx_buf) rx.ptr byte
        (omega (arith, length-drop rx.active_frame_buf rx.rx_buf))

-- A step of the receiver: no fault, the invariant kept, and `heard` reached.
pub record Hears (c : CrcType) (rx : Rx) (heard : Listen) (rx' : Rx) : Type 0 where
  pub valid : IsRx rx'
  pub same_mtu : rx'.phys_mtu ≡ rx.phys_mtu
  pub hears : listen c rx' ≡ heard

abbrev pub after_byte : ℕ → Rx → Rx
after_byte b rx =
    if b == tiny_escape_char
    then record rx { escape = true }
    else (if ltb rx.ptr rx.phys_mtu
        then (if rx.escape
            then stored (bit_xor b tiny_escape_bit) (record rx { escape = false })
            else stored b rx)
        else rx)

pub read_byte_lem : (b : ℕ) (rx : Rx) → IsRx rx → read_byte b rx ≡ some (after_byte b rx)
unfolding read_byte
read_byte_lem b rx v =
    ground (
      arith,
      store_lem b rx v,
      store_lem (bit_xor b tiny_escape_bit) (record rx { escape = false }),
    )

pub after_byte-state : (b : ℕ) (rx : Rx) → (after_byte b rx).state ≡ rx.state
after_byte-state b rx = ground arith

after_byte-Hears :
    (c : CrcType) (b : ℕ) (rx : Rx)
    → IsRx rx
    → rx.state ≡ read_data
    → (b == flag_sequence) ≡ false
    → Hears c rx (hear c rx.phys_mtu (listen c rx) b) (after_byte b rx)
unfolding listen_in hear collect
after_byte-Hears c b rx v s nf = ground (
  arith,
  length-frame_bytes rx v,
  length-set rx.rx_buf (rx.active_frame_buf + rx.ptr) b,
  length-set rx.rx_buf (rx.active_frame_buf + rx.ptr) (bit_xor b tiny_escape_bit),
  frame_bytes-stored b rx v,
  frame_bytes-stored (bit_xor b tiny_escape_bit) (record rx { escape = false }),
)

-- What reading the first `n` bytes of the input has done.
pub record Reads (c : CrcType) (rx : Rx) (input : List ℕ) (n : ℕ) (rx' : Rx) : Type 0 where
  pub step : Hears c rx (hear_all c rx.phys_mtu (listen c rx) (take n input)) rx'
  pub within : n ≤ length input
  pub stops : ((n ≡ length input) × (rx'.state ≡ read_data)) ⊎ ((rx'.state ≡ read_end) × (0 < n))

Reads-cons :
    {c : CrcType} {rx : Rx} (b : ℕ) (rest : List ℕ) (n : ℕ) (rx' : Rx)
    → Hears c rx (hear c rx.phys_mtu (listen c rx) b) (after_byte b rx)
    → Reads c (after_byte b rx) rest n rx'
    → Reads c rx (b ∷ rest) (suc n) rx'
unfolding hear_all
Reads-cons b rest n rx' h r = ground arith

flag_read :
    (c : CrcType) (b : ℕ) (rest : List ℕ) (rx : Rx)
    → (b == flag_sequence) ≡ true
    → IsRx rx
    → rx.state ≡ read_data
    → Reads c rx (b ∷ rest) 1 (record rx { state = read_end })
unfolding hear_all hear listen_in
flag_read c b rest rx fl v s = ground arith

pub read_loop-Reads :
    (c : CrcType) (input : List ℕ) (result : ℕ) (rx : Rx)
    → IsRx rx
    → rx.state ≡ read_data
    → (n : ℕ) × (rx' : Rx) × (read_loop input result rx ≡ some (result + n, rx'))
      × Reads c rx input n rx'
unfolding read_loop hear_all
read_loop-Reads c [] result rx v s = (0, rx, ground arith, ground arith)
read_loop-Reads c (b ∷ rest) result rx v s = elim (Bool-cases (b == flag_sequence)) [
  | inl fl ↦ (1, record rx { state = read_end }, rw fl refl, flag_read c b rest rx fl v s)
  | inr nf ↦
      let (n, rx', e, r) =
        read_loop-Reads c rest (result + 1) (after_byte b rx) (after_byte-Hears c b rx v s nf).valid
          (after_byte-state b rx ∙ s) in
      (
        suc n,
        rx',
        rw (nf, read_byte_lem b rx v, ◌>>=◌)
            (e ∙ ap (λ t. some (t, rx')) {y = result + suc n} (omega arith)),
        Reads-cons b rest n rx' (after_byte-Hears c b rx v s nf) r,
      )
]
