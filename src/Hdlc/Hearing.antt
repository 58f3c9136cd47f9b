-- ===== src/Hdlc/Hearing.antt =====
-- The receiver's byte machine hears a wire image as one frame.
use tinyproto.Prelude.{
  ℕ, ◌+◌, ◌≤◌, ◌<◌, ◌≡◌, ◌≢◌, ◌⊎◌, inl, inr, refl, ◌∙◌, ap, bit_xor, true, false, some, List, [],
  ◌∷◌, ◌++◌, append_assoc, append-nil, arith, length, Bool-cases, length-append,
}
use tinyproto.Crc.{CrcType, crc_off}
use tinyproto.Hdlc.Bytes.{flag_sequence, tiny_escape_char, tiny_escape_bit, is_special}
use tinyproto.Hdlc.Wire.{stuff, fcs_size, fcs_bytes, wire}
use tinyproto.Hdlc.Rx.Listen.{
  hunting, collecting, accept, add_frame, close, collect, hear, hear_all,
}
use tinyproto.Hdlc.CheckSum.{crc_value_size, fcs_bytes-length, accept_sent}

pub special_bytes : (b : ℕ) → is_special b ≡ true → (b ≡ 0x7e) ⊎ (b ≡ 0x7d)
special_bytes b h = ground arith

-- Hearing one stuffed byte.
hear_special :
    (c : CrcType) (mtu : ℕ) (heard : List (List ℕ)) (frame : List ℕ) (b : ℕ) (more : List ℕ)
    → is_special b ≡ true
    → length frame < mtu
    → hear_all c mtu
        (collecting heard frame false)
        (tiny_escape_char ∷ bit_xor b tiny_escape_bit ∷ more)
      ≡ hear_all c mtu (collecting heard (frame ++ b ∷ []) false) more
unfolding hear_all hear collect
hear_special c mtu heard frame b more h fits = elim (special_bytes b h) [
  | inl e ↦ rw e (ground arith)
  | inr e ↦ rw e (ground arith)
]

hear_plain :
    (c : CrcType) (mtu : ℕ) (heard : List (List ℕ)) (frame : List ℕ) (b : ℕ) (more : List ℕ)
    → is_special b ≡ false
    → length frame < mtu
    → hear_all c mtu (collecting heard frame false) (b ∷ more)
      ≡ hear_all c mtu (collecting heard (frame ++ b ∷ []) false) more
unfolding hear_all hear collect
hear_plain c mtu heard frame b more h fits = ground arith

hear_stuffed :
    (c : CrcType) (mtu : ℕ) (heard : List (List ℕ)) (frame bytes more : List ℕ)
    → length frame + length bytes ≤ mtu
    → hear_all c mtu (collecting heard frame false) (stuff bytes ++ more)
      ≡ hear_all c mtu (collecting heard (frame ++ bytes) false) more
unfolding stuff
hear_stuffed c mtu heard frame [] more h = rw append-nil refl
hear_stuffed c mtu heard frame (b ∷ bytes) more h =
    let rest =
      hear_stuffed c mtu heard (frame ++ b ∷ []) bytes more
        (omega (arith, length-append frame (b ∷ []))) in
    let joined =
      ap (λ f. hear_all c mtu (collecting heard f false) more)
        (append_assoc frame (b ∷ []) bytes) in
    elim (Bool-cases (is_special b)) [
      | inl p ↦
          rw p
            (hear_special c mtu heard frame b (stuff bytes ++ more) p (omega arith) ∙ rest ∙ joined)
      | inr p ↦
          rw p
            (hear_plain c mtu heard frame b (stuff bytes ++ more) p (omega arith) ∙ rest ∙ joined)
    ]

hear_opening :
    (c : CrcType) (mtu : ℕ) (heard : List (List ℕ)) (more : List ℕ)
    → hear_all c mtu (hunting heard) (flag_sequence ∷ more)
      ≡ hear_all c mtu (collecting heard [] false) more
unfolding hear_all hear
hear_opening c mtu heard more = refl

hear_closing :
    (c : CrcType) (mtu : ℕ) (heard : List (List ℕ)) (frame payload : List ℕ)
    → 0 < length frame
    → accept c frame ≡ some payload
    → hear_all c mtu (collecting heard frame false) (flag_sequence ∷ [])
      ≡ hunting (heard ++ payload ∷ [])
unfolding hear_all hear close add_frame
hear_closing c mtu heard [] payload h e = absurd (omega arith)
hear_closing c mtu heard (b ∷ frame) payload h e = rw e refl

-- A machine that hunts for a flag hears a frame that fits its buffer as one more frame, with the
-- payload that was sent.
pub wire_heard :
    (c : CrcType) (mtu : ℕ) (heard : List (List ℕ)) (payload : List ℕ)
    → c ≢ crc_off
    → 0 < length payload
    → length payload + fcs_size c ≤ mtu
    → hear_all c mtu (hunting heard) (wire c payload) ≡ hunting (heard ++ payload ∷ [])
unfolding wire
wire_heard c mtu heard payload h pos fits =
    let frame = payload ++ fcs_bytes c payload in
    hear_opening c mtu heard (stuff frame ++ flag_sequence ∷ [])
    ∙ hear_stuffed c mtu heard [] frame (flag_sequence ∷ []) (
        omega (
          arith,
          length-append payload (fcs_bytes c payload),
          fcs_bytes-length c payload h,
          crc_value_size c h,
        ))
    ∙ hear_closing c mtu heard frame payload
        (omega (arith, length-append payload (fcs_bytes c payload))) (accept_sent c payload h)
