-- ===== src/Hdlc/Tx/Steps/Data.antt =====
-- `hdlc_ll_send_data` writes the frame's bytes, stuffed.
use tinyproto.Prelude.{
  ℕ, zero, suc, ◌-◌, ◌≤◌, ◌<◌, min, ◌≡◌, ◌≢◌, inl, inr, refl, Bool, true, false, List, [], ◌∷◌,
  ◌++◌, append_assoc, arith, length, get_or, take, drop, length-append, length-take, length-drop,
  nil_of_length, ◌==◌, if◌then◌else◌, bit_xor, Bool-cases,
}
use tinyproto.Crc.{CrcType}
use tinyproto.Hdlc.Bytes.{flag_sequence, tiny_escape_char, tiny_escape_bit, is_special}
use tinyproto.Hdlc.Wire.{le_bytes, fcs_size, stuff}
use tinyproto.Hdlc.Wire.Stuffing.{stuff-special, stuff-plain_prefix}
use tinyproto.Hdlc.Tx.{
  Tx, send_data, send_crc, hdlc_ll_send_data, plain_prefix, send_escaped, send_plain,
}
use tinyproto.Hdlc.Tx.Copy.{wrote, send_byte, send_bytes}
use tinyproto.Hdlc.Tx.Steps.Crc.{crc_value_bytes}
use tinyproto.Hdlc.Tx.Pending.{EscapeFits, IsTx, Steps}

-- The end of `hdlc_ll_send_data`.
abbrev finish_data : Tx → Tx
finish_data tx = if tx.len == 0 then record tx { state = send_crc } else tx

plain_prefix-le : (bytes : List ℕ) (len : ℕ) → plain_prefix bytes len ≤ len
unfolding plain_prefix
plain_prefix-le bytes zero = omega arith
plain_prefix-le [] (suc len) = omega arith
plain_prefix-le (b ∷ bytes) (suc len) = ground (arith, plain_prefix-le bytes len)

plain_prefix-not_escaped :
    (bytes : List ℕ) (len : ℕ) (escape : Bool)
    → EscapeFits escape (get_or bytes 0 0)
    → plain_prefix bytes len ≢ 0
    → escape ≡ false
unfolding plain_prefix
plain_prefix-not_escaped bytes zero escape h ne = absurd (ne refl)
plain_prefix-not_escaped [] (suc len) escape h ne = absurd (ne refl)
plain_prefix-not_escaped (b ∷ bytes) (suc len) false h ne = refl
plain_prefix-not_escaped (b ∷ bytes) (suc len) true h ne = ground arith

abbrev sent_plain : ℕ → Tx → Tx
sent_plain n tx = record (wrote tx (take n tx.rest)) { rest = drop n tx.rest; len = tx.len - n }

send_plain_lem :
    (tx : Tx) (pos : ℕ)
    → pos ≤ length tx.rest
    → pos ≢ 0
    → 0 < tx.out_buffer_len
    → let n = min pos tx.out_buffer_len in send_plain pos tx ≡ (n, sent_plain n tx)
unfolding send_plain
send_plain_lem tx pos h ne room = ground (arith, send_bytes tx tx.rest pos)

abbrev crc_all : CrcType → Tx → List ℕ
crc_all c tx = le_bytes (fcs_size c) tx.crc

sent_plain-Steps :
    (c : CrcType) (tx : Tx) (n : ℕ)
    → n ≤ plain_prefix tx.rest tx.len
    → n ≢ 0
    → n ≤ tx.out_buffer_len
    → tx.state ≡ send_data
    → IsTx c tx
    → Steps c tx n (finish_data (sent_plain n tx))
sent_plain-Steps c tx n h ne room s v = ground (
  arith,
  length-take n tx.rest,
  length-drop n tx.rest,
  plain_prefix-le tx.rest tx.len,
  plain_prefix-not_escaped tx.rest tx.len tx.escape,
  crc_value_bytes c,
  nil_of_length (drop n tx.rest),
  stuff-plain_prefix tx.rest tx.len n (crc_all c tx),
  append_assoc (take n tx.rest) (stuff (drop n tx.rest ++ crc_all c tx)) (flag_sequence ∷ []),
  append_assoc tx.out_buffer (take n tx.rest)
      (stuff (drop n tx.rest ++ crc_all c tx) ++ flag_sequence ∷ []),
  length-append tx.out_buffer (take n tx.rest),
)

send_plain-Steps :
    (c : CrcType) (tx : Tx)
    → plain_prefix tx.rest tx.len ≢ 0
    → tx.state ≡ send_data
    → IsTx c tx
    → 0 < tx.out_buffer_len
    → let (r, tx') = send_plain (plain_prefix tx.rest tx.len) tx in Steps c tx r (finish_data tx')
send_plain-Steps c tx ne s v h =
    let pos = plain_prefix tx.rest tx.len in
    let fits : pos ≤ length tx.rest = ground (arith, plain_prefix-le tx.rest tx.len) in
    rw (send_plain_lem tx pos fits ne h) (
      sent_plain-Steps c tx (min pos tx.out_buffer_len) (omega arith) (omega arith) (omega arith) s
        v)

plain_prefix-special :
    (b : ℕ) (bytes : List ℕ) (len : ℕ)
    → len ≡ length (b ∷ bytes)
    → plain_prefix (b ∷ bytes) len ≡ 0
    → is_special b ≡ true
unfolding plain_prefix
plain_prefix-special b bytes zero e h = absurd (omega arith)
plain_prefix-special b bytes (suc len) e h = ground arith

send_escaped-Steps :
    (c : CrcType) (tx : Tx) (b : ℕ) (bytes : List ℕ)
    → tx.rest ≡ b ∷ bytes
    → is_special b ≡ true
    → tx.state ≡ send_data
    → IsTx c tx
    → 0 < tx.out_buffer_len
    → let (r, tx') = send_escaped tx in Steps c tx r (finish_data tx')
unfolding send_escaped
send_escaped-Steps c tx b bytes e sp s v h = elim (Bool-cases tx.escape) [
  | inl esc ↦ ground (
    arith,
    send_byte tx (bit_xor b tiny_escape_bit),
    crc_value_bytes c,
    nil_of_length bytes,
    append_assoc tx.out_buffer (bit_xor b tiny_escape_bit ∷ [])
        (stuff (bytes ++ crc_all c tx) ++ flag_sequence ∷ []),
    length-append tx.out_buffer (bit_xor b tiny_escape_bit ∷ []),
  )
  | inr esc ↦ ground (
    arith,
    send_byte tx tiny_escape_char,
    stuff-special b (bytes ++ crc_all c tx),
    append_assoc tx.out_buffer (tiny_escape_char ∷ [])
        (bit_xor b tiny_escape_bit ∷ stuff (bytes ++ crc_all c tx) ++ flag_sequence ∷ []),
    length-append tx.out_buffer (tiny_escape_char ∷ []),
  )
]

pub send_data-Steps :
    (c : CrcType) (tx : Tx) (rest : List ℕ)
    → tx.rest ≡ rest
    → tx.state ≡ send_data
    → IsTx c tx
    → 0 < tx.out_buffer_len
    → let (r, tx') = hdlc_ll_send_data tx in Steps c tx r tx'
unfolding hdlc_ll_send_data
send_data-Steps c tx [] e s v h = absurd (ground arith)
send_data-Steps c tx (b ∷ bytes) e s v h = elim (Bool-cases (plain_prefix tx.rest tx.len == 0)) [
  | inl p ↦ rw p (
      send_escaped-Steps c tx b bytes e (ground (arith, plain_prefix-special b bytes tx.len)) s v h)
  | inr p ↦ rw p (send_plain-Steps c tx (ground arith) s v h)
]
