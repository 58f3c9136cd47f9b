-- ===== src/Hdlc/CheckSum.antt =====
-- The check sum that the receiver reads back is the one that the sender appended.
use tinyproto.Prelude.{
  ℕ, zero, suc, ◌+◌, ◌-◌, ◌*◌, ◌/◌, ◌%◌, ◌^◌, ◌≤◌, ◌<◌, ◌≡◌, ◌≢◌, refl, sym, ◌∙◌, ap, bit_or, some,
  List, ◌++◌, arith, length, take, get_or, length-append, take-length-append, get_or-append,
}
use tinyproto.Prelude.Bits.{bit_or_fields}
use tinyproto.Crc.{CrcType, crc_default, crc_8, crc_16, crc_32, crc_off, crc_value}
use tinyproto.Crc.Bounds.{tiny_crc16-lt, tiny_crc32-lt}
use tinyproto.Hdlc.Wire.{le_bytes, fcs_size, fcs, fcs_bytes}
use tinyproto.Hdlc.Rx.{calc_crc, read_crc}
use tinyproto.Hdlc.Rx.Listen.{accept}

module _ (payload tail : List ℕ) where
  take_payload :
      (k : ℕ) → length tail ≡ k → take (length (payload ++ tail) - k) (payload ++ tail) ≡ payload
  take_payload k h =
      ap (λ n. take n (payload ++ tail)) {y = length payload}
        (omega (arith, length-append payload tail))
      ∙ take-length-append payload tail

  get_tail :
      (k : ℕ)
      → k ≤ length tail
      → get_or (payload ++ tail) (length (payload ++ tail) - k) 0 ≡ get_or tail (length tail - k) 0
  get_tail k h =
      ap (λ n. get_or (payload ++ tail) n 0) {y = length payload + (length tail - k)}
        (omega (arith, length-append payload tail))
      ∙ get_or-append payload tail (length tail - k) 0

join_16 : (x : ℕ) → x < 2 ^ 16 → bit_or (x % 256) (x / 256 % 256 * 256) ≡ x
join_16 x h = omega (arith, bit_or_fields 8 (x % 256) (x / 256 % 256) (omega arith))

join_32 :
    (x : ℕ)
    → x < 2 ^ 32
    → bit_or
        (bit_or (bit_or (x % 256) (x / 256 % 256 * 2 ^ 8)) (x / 256 / 256 % 256 * 2 ^ 16))
        (x / 256 / 256 / 256 % 256 * 2 ^ 24)
      ≡ x
join_32 x h =
    rw
      (
        bit_or_fields 8 (x % 256) (x / 256 % 256) (omega arith),
        bit_or_fields 16 (x % 256 + x / 256 % 256 * 256) (x / 256 / 256 % 256) (omega arith),
        bit_or_fields 24 (x % 256 + x / 256 % 256 * 256 + x / 256 / 256 % 256 * 65536)
            (x / 256 / 256 / 256 % 256) (omega arith),
      )
      (omega arith)

-- The check sum of the frame matches.
fcs_matches :
    (c : CrcType) (payload : List ℕ)
    → c ≢ crc_off
    → let frame = payload ++ fcs_bytes c payload in
      calc_crc c frame (length frame) ≡ read_crc c frame (length frame)
unfolding calc_crc read_crc fcs_bytes fcs fcs_size le_bytes
fcs_matches crc_off payload h = absurd (h refl)
fcs_matches crc_default payload h = refl
fcs_matches crc_8 payload h =
    let tail = fcs_bytes crc_8 payload in
    rw (take_payload payload tail 1 refl, get_tail payload tail 1 (omega arith)) (omega arith)
fcs_matches crc_16 payload h =
    let tail = fcs_bytes crc_16 payload in
    rw
      (
        take_payload payload tail 2 refl,
        get_tail payload tail 1 (omega arith),
        get_tail payload tail 2 (omega arith),
      )
      (sym (join_16 _ (tiny_crc16-lt _ payload)))
fcs_matches crc_32 payload h =
    let tail = fcs_bytes crc_32 payload in
    rw
      (
        take_payload payload tail 4 refl,
        get_tail payload tail 1 (omega arith),
        get_tail payload tail 2 (omega arith),
        get_tail payload tail 3 (omega arith),
        get_tail payload tail 4 (omega arith),
      )
      (sym (join_32 _ (tiny_crc32-lt _ payload)))

pub crc_value_size : (c : CrcType) → c ≢ crc_off → crc_value c / 8 ≡ fcs_size c
unfolding fcs_size
crc_value_size crc_off h = absurd (h refl)
crc_value_size crc_default h = refl
crc_value_size _ h = refl

length-le_bytes : (n crc : ℕ) → length (le_bytes n crc) ≡ n
unfolding le_bytes
length-le_bytes zero crc = refl
length-le_bytes (suc n) crc = ap suc (length-le_bytes n (crc / 2 ^ 8))

pub fcs_bytes-length :
    (c : CrcType) (payload : List ℕ) → c ≢ crc_off → crc_value c / 8 ≡ length (fcs_bytes c payload)
unfolding fcs_bytes
fcs_bytes-length c payload h =
    crc_value_size c h ∙ sym (length-le_bytes (fcs_size c) (fcs c payload))

-- The receiver takes a sent frame apart again.
pub accept_sent :
    (c : CrcType) (payload : List ℕ)
    → c ≢ crc_off
    → accept c (payload ++ fcs_bytes c payload) ≡ some payload
unfolding accept
accept_sent c payload h =
    let tail = fcs_bytes c payload in
    let size : crc_value c / 8 ≡ length tail = fcs_bytes-length c payload h in
    ground (
      arith,
      fcs_matches c payload h,
      length-append payload tail,
      take_payload payload tail (length tail),
    )
