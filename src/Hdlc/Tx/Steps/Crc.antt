-- ===== src/Hdlc/Tx/Steps/Crc.antt =====
-- `hdlc_ll_send_crc` writes the check sum, least significant byte first.
use tinyproto.Prelude.{
  ℕ, zero, suc, ◌+◌, ◌-◌, ◌*◌, ◌/◌, ◌%◌, ◌^◌, ◌<◌, ◌≡◌, ◌≢◌, inl, inr, refl, ap, true, false, List,
  [], ◌∷◌, ◌++◌, append_assoc, arith, length-append, ◌∙◌, sym, bit_xor, Bool-cases,
}
use native.Mathlib.Numerals.{towards_suc}
use native.Mathlib.Nat.{div-div-eq-div-mul}
use tinyproto.Crc.{CrcType, crc_default, crc_off, crc_value}
use tinyproto.Hdlc.Bytes.{flag_sequence, tiny_escape_char, tiny_escape_bit, is_special}
use tinyproto.Hdlc.Wire.{le_bytes, fcs_size, stuff}
use tinyproto.Hdlc.Wire.Stuffing.{stuff-special, stuff-plain}
use tinyproto.Hdlc.Tx.{Tx, send_crc, crc_byte, hdlc_ll_send_crc, send_crc_escaped, send_crc_plain}
use tinyproto.Hdlc.Tx.Copy.{send_byte}
use tinyproto.Hdlc.Tx.Pending.{crc_left, IsTx, Steps}

pub crc_value_bytes : (c : CrcType) → c ≢ crc_off → (crc_value c ≡ 8 * fcs_size c)
unfolding fcs_size
crc_value_bytes crc_off st = absurd (st refl)
crc_value_bytes crc_default st = refl
crc_value_bytes c st = refl

shift_byte : (n k : ℕ) → n / 2 ^ (k + 8) ≡ n / 2 ^ k / 2 ^ 8
shift_byte n k =
    ap (λ t. n / t) (simp towards_suc (omega arith)) ∙ sym (div-div-eq-div-mul n (2 ^ k) (2 ^ 8))

le_bytes-suc : (n crc : ℕ) → 0 < n → le_bytes n crc ≡ crc % 2 ^ 8 ∷ le_bytes (n - 1) (crc / 2 ^ 8)
unfolding le_bytes
le_bytes-suc zero crc h = absurd (omega arith)
le_bytes-suc (suc n) crc h = ap (λ t. crc % 2 ^ 8 ∷ le_bytes t (crc / 2 ^ 8)) (omega arith)

abbrev crc_after : CrcType → Tx → List ℕ
crc_after c tx = le_bytes ((crc_value c - (tx.len + 8)) / 8) (tx.crc / 2 ^ (tx.len + 8))

-- One byte of the check sum.
crc_left-suc :
    (c : CrcType) (tx : Tx)
    → c ≢ crc_off
    → tx.len % 8 ≡ 0
    → tx.len < crc_value c
    → crc_left c tx ≡ crc_byte tx ∷ crc_after c tx
crc_left-suc c tx st m h = ground (
  arith,
  crc_value_bytes c,
  le_bytes-suc ((crc_value c - tx.len) / 8) (tx.crc / 2 ^ tx.len),
  shift_byte tx.crc tx.len,
)

send_crc_plain-Steps :
    (c : CrcType) (tx : Tx)
    → tx.state ≡ send_crc
    → IsTx c tx
    → 0 < tx.out_buffer_len
    → tx.len ≢ crc_value c
    → is_special (crc_byte tx) ≡ false
    → let (r, tx') = send_crc_plain tx in Steps c tx r tx'
unfolding send_crc_plain
send_crc_plain-Steps c tx s v h ne pl = ground (
  arith,
  send_byte tx (crc_byte tx),
  crc_left-suc c tx,
  crc_value_bytes c,
  stuff-plain (crc_byte tx) (crc_after c tx),
  append_assoc tx.out_buffer (crc_byte tx ∷ []) (stuff (crc_after c tx) ++ flag_sequence ∷ []),
  length-append tx.out_buffer (crc_byte tx ∷ []),
)

send_crc_escaped-Steps :
    (c : CrcType) (tx : Tx)
    → tx.state ≡ send_crc
    → IsTx c tx
    → 0 < tx.out_buffer_len
    → tx.len ≢ crc_value c
    → is_special (crc_byte tx) ≡ true
    → let (r, tx') = send_crc_escaped tx in Steps c tx r tx'
unfolding send_crc_escaped
send_crc_escaped-Steps c tx s v h ne sp = elim (Bool-cases tx.escape) [
  | inl e ↦ ground (
    arith,
    send_byte tx (bit_xor (crc_byte tx) tiny_escape_bit),
    crc_left-suc c tx,
    crc_value_bytes c,
    append_assoc tx.out_buffer (bit_xor (crc_byte tx) tiny_escape_bit ∷ [])
        (stuff (crc_after c tx) ++ flag_sequence ∷ []),
    length-append tx.out_buffer (bit_xor (crc_byte tx) tiny_escape_bit ∷ []),
  )
  | inr e ↦ ground (
    arith,
    send_byte tx tiny_escape_char,
    crc_left-suc c tx,
    crc_value_bytes c,
    stuff-special (crc_byte tx) (crc_after c tx),
    append_assoc tx.out_buffer (tiny_escape_char ∷ [])
        (bit_xor (crc_byte tx) tiny_escape_bit ∷ stuff (crc_after c tx) ++ flag_sequence ∷ []),
    length-append tx.out_buffer (tiny_escape_char ∷ []),
  )
]

le_bytes-none : (n crc : ℕ) → n ≡ 0 → le_bytes n crc ≡ []
unfolding le_bytes
le_bytes-none zero crc h = refl
le_bytes-none (suc n) crc h = absurd (omega arith)

pub send_crc-Steps :
    (c : CrcType) (tx : Tx)
    → tx.state ≡ send_crc
    → IsTx c tx
    → 0 < tx.out_buffer_len
    → let (r, tx') = hdlc_ll_send_crc c tx in Steps c tx r tx'
unfolding hdlc_ll_send_crc stuff
send_crc-Steps c tx s v h = ground (
  arith,
  send_crc_escaped-Steps c tx,
  send_crc_plain-Steps c tx,
  le_bytes-none ((crc_value c - tx.len) / 8) (tx.crc / 2 ^ tx.len),
)
