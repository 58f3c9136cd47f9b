-- ===== src/Hdlc/Bytewise.antt =====
-- A wire image heard byte by byte: nothing is delivered and no frame ends before the last byte.
use tinyproto.Prelude.{
  ℕ, ◌+◌, ◌≤◌, ◌<◌, ◌≡◌, ◌≢◌, inl, inr, refl, sym, ◌∙◌, ap, bit_xor, Bool, true, false, List, [],
  ◌∷◌, ◌++◌, arith, length, Bool-cases, ◌==◌, ==_ne, ltb, subst, if◌then◌else◌,
}
use tinyproto.Crc.{CrcType, crc_off}
use tinyproto.Hdlc.Bytes.{flag_sequence, tiny_escape_char, tiny_escape_bit, is_special}
use tinyproto.Hdlc.Wire.{stuff, fcs_size, fcs_bytes, wire}
use tinyproto.Hdlc.Rx.Listen.{Listen, hunting, collecting, collect, hear, hear_all}
use tinyproto.Hdlc.Hearing.{special_bytes, wire_heard}
use tinyproto.Hdlc.Recovery.{NoFlag}

-- A machine in the middle of a frame that has heard none before.
abbrev pub Collects : Listen → Type 0
Collects s = (frame : List ℕ) × (escape : Bool) × (s ≡ collecting [] frame escape)

-- The last byte delivers the payload, and the machine is in the middle of a frame before.
abbrev pub Ends : CrcType → ℕ → Listen → List ℕ → List ℕ → Type 0
Ends c mtu s [] payload = Unit {0}
Ends c mtu s (b ∷ []) payload = hear c mtu s b ≡ hunting (payload ∷ [])
Ends c mtu s (b ∷ b' ∷ bs) payload =
    Collects (hear c mtu s b) × Ends c mtu (hear c mtu s b) (b' ∷ bs) payload

xored : (b : ℕ) → is_special b ≡ true → bit_xor b tiny_escape_bit ≢ flag_sequence
xored b h = elim (special_bytes b h) [ inl e ↦ rw e (omega arith) | inr e ↦ rw e (omega arith) ]

stuff-NoFlag : (bytes : List ℕ) → NoFlag (stuff bytes)
unfolding stuff
stuff-NoFlag [] = tt
stuff-NoFlag (b ∷ bytes) = elim (Bool-cases (is_special b)) [
  | inl p ↦ rw p ((omega arith, (xored b p, stuff-NoFlag bytes)))
  | inr p ↦ rw p (ground arith, stuff-NoFlag bytes)
]

-- A byte that is no flag leaves the machine in the middle of the frame.
collects :
    (c : CrcType) (mtu : ℕ) (frame : List ℕ) (escape : Bool) (b : ℕ)
    → b ≢ flag_sequence
    → Collects (hear c mtu (collecting [] frame escape) b)
unfolding hear collect
collects c mtu frame escape b h = elim (Bool-cases (b == tiny_escape_char)) [
  | inl p ↦ (frame, true, rw (==_ne b flag_sequence h, p) refl)
  | inr p ↦ elim (Bool-cases (ltb (length frame) mtu)) [
    | inl q ↦ (
      frame ++ (if escape then bit_xor b tiny_escape_bit else b) ∷ [],
      false,
      rw (==_ne b flag_sequence h, p, q) refl,
    )
    | inr q ↦ (frame, escape, rw (==_ne b flag_sequence h, p, q) refl)
  ]
]

closed-Ends :
    (c : CrcType) (mtu : ℕ) (frame : List ℕ) (escape : Bool) (bytes payload : List ℕ)
    → NoFlag bytes
    → hear_all c mtu (collecting [] frame escape) (bytes ++ flag_sequence ∷ [])
      ≡ hunting (payload ∷ [])
    → Ends c mtu (collecting [] frame escape) (bytes ++ flag_sequence ∷ []) payload
unfolding hear_all
closed-Ends c mtu frame escape [] payload h e = e
closed-Ends c mtu frame escape (b ∷ []) payload h e =
    let (frame', escape', at) = collects c mtu frame escape b h.0 in ((frame', escape', at), e)
closed-Ends c mtu frame escape (b ∷ b' ∷ bytes) payload h e =
    let (frame', escape', at) = collects c mtu frame escape b h.0 in
    let rest = b' ∷ bytes ++ flag_sequence ∷ [] in
    (
      (frame', escape', at),
      subst (λ s. Ends c mtu s rest payload) (sym at)
          (closed-Ends c mtu frame' escape' (b' ∷ bytes) payload h.1
            (ap (λ s. hear_all c mtu s rest) (sym at) ∙ e)),
    )

opened-Ends :
    (c : CrcType) (mtu : ℕ) (bytes payload : List ℕ)
    → NoFlag bytes
    → hear_all c mtu (hunting []) (flag_sequence ∷ bytes ++ flag_sequence ∷ [])
      ≡ hunting (payload ∷ [])
    → Ends c mtu (hunting []) (flag_sequence ∷ bytes ++ flag_sequence ∷ []) payload
unfolding hear_all hear
opened-Ends c mtu [] payload h e = (([], false, refl), closed-Ends c mtu [] false [] payload h e)
opened-Ends c mtu (b ∷ bytes) payload h e =
    (([], false, refl), closed-Ends c mtu [] false (b ∷ bytes) payload h e)

-- The wire image of a frame that fits the buffer ends with the frame.
pub wire-Ends :
    (c : CrcType) (mtu : ℕ) (payload : List ℕ)
    → c ≢ crc_off
    → 0 < length payload
    → length payload + fcs_size c ≤ mtu
    → Ends c mtu (hunting []) (wire c payload) payload
unfolding wire
wire-Ends c mtu payload off some_bytes fits =
    opened-Ends c mtu (stuff (payload ++ fcs_bytes c payload)) payload (stuff-NoFlag _)
      (wire_heard c mtu [] payload off some_bytes fits)
