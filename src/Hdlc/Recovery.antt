-- ===== src/Hdlc/Recovery.antt =====
-- A receiver finds back into step with the sender, and takes frames one after the other.
use tinyproto.Prelude.{
  ℕ, ◌+◌, ◌≤◌, ◌<◌, ◌≡◌, ◌≢◌, refl, sym, ◌∙◌, ap, ap₂, false, some, List, [], ◌∷◌, ◌++◌,
  append_assoc, append-nil, arith, length,
}
use tinyproto.Crc.{CrcType, crc_off}
use tinyproto.Hdlc.Bytes.{flag_sequence}
use tinyproto.Hdlc.Wire.{wire, fcs_size}
use tinyproto.Hdlc.Hearing.{wire_heard}
use tinyproto.Hdlc.Rx.{Rx, RxState, read_start, read_data, read_end, at_end}
use tinyproto.Hdlc.Rx.Listen.{
  Listen, hunting, collecting, accept, add_frame, close, hear, hear_all, listen, listen_in,
}
use tinyproto.Hdlc.Rx.Chunks.{IsReady, receive, join, receive_hears, hear_all-append}

-- A payload that can be sent: not empty, and with its check sum no longer than the receiver's
-- `mtu`.
abbrev pub Fits : CrcType → ℕ → List (List ℕ) → Type 0
Fits c mtu [] = Unit {0}
Fits c mtu (payload ∷ more) =
    (0 < length payload) × (length payload + fcs_size c ≤ mtu) × Fits c mtu more

-- The wire images one after the other.
abbrev pub wires : CrcType → List (List ℕ) → List ℕ
wires c [] = []
wires c (payload ∷ more) = wire c payload ++ wires c more

pub wires_heard :
    (c : CrcType) (mtu : ℕ) (heard : List (List ℕ)) (payloads : List (List ℕ))
    → c ≢ crc_off
    → Fits c mtu payloads
    → hear_all c mtu (hunting heard) (wires c payloads) ≡ hunting (heard ++ payloads)
unfolding hear_all
wires_heard c mtu heard [] off h = ap hunting (sym (append-nil heard))
wires_heard c mtu heard (payload ∷ more) off h =
    hear_all-append c mtu (hunting heard) (wire c payload) (wires c more)
    ∙ ap (λ s. hear_all c mtu s (wires c more)) (wire_heard c mtu heard payload off h.0 h.1)
    ∙ wires_heard c mtu (heard ++ payload ∷ []) more off h.2
    ∙ ap hunting (append_assoc heard (payload ∷ []) more)

-- Bytes between frames that are no flag are skipped.
abbrev pub NoFlag : List ℕ → Type 0
NoFlag [] = Unit {0}
NoFlag (b ∷ bs) = (b ≢ flag_sequence) × NoFlag bs

noise_skipped :
    (c : CrcType) (mtu : ℕ) (heard : List (List ℕ)) (noise : List ℕ)
    → NoFlag noise
    → hear_all c mtu (hunting heard) noise ≡ hunting heard
unfolding hear_all hear
noise_skipped c mtu heard [] h = refl
noise_skipped c mtu heard (b ∷ noise) h = ground (arith, noise_skipped c mtu heard noise h.1)

-- What a flag makes of the frames heard so far.
abbrev flagged : CrcType → Listen → List (List ℕ)
flagged c (hunting heard) = heard
flagged c (collecting heard [] escape) = heard
flagged c (collecting heard (b ∷ frame) escape) = add_frame heard (accept c (b ∷ frame))

-- Two flags in a row open a frame, whatever came before.
two_flags :
    (c : CrcType) (mtu : ℕ) (s : Listen) (rest : List ℕ)
    → hear_all c mtu s (flag_sequence ∷ flag_sequence ∷ rest)
      ≡ hear_all c mtu (hunting (flagged c s)) (flag_sequence ∷ rest)
unfolding hear_all hear close
two_flags c mtu (hunting heard) rest = refl
two_flags c mtu (collecting heard [] escape) rest = refl
two_flags c mtu (collecting heard (b ∷ frame) escape) rest = refl

-- The frames that a receiver has when a flag arrives: those that it has delivered, and the bytes
-- that it is collecting, if their check sum happens to be right.
abbrev pub frames_at_flag : CrcType → Rx → List (List ℕ)
frames_at_flag c rx = flagged c (listen c rx)

-- A ready receiver that is hunting waits for a flag.
pub hunting-read_start :
    (c : CrcType) (rx : Rx) (state : RxState) (frames : List (List ℕ))
    → rx.state ≡ state
    → at_end state ≡ false
    → listen c rx ≡ hunting frames
    → (rx.state ≡ read_start) × (rx.frames_read ≡ frames)
unfolding listen_in
hunting-read_start c rx read_start frames s e h = (s, ground arith)
hunting-read_start c rx read_data frames s e h = absurd (ground arith)
hunting-read_start c rx read_end frames s e h = absurd (cc)

-- What a ready receiver has delivered after input that leaves it hunting.
pub delivers :
    (c : CrcType) (rx : Rx) (chunks frames : List (List ℕ))
    → IsReady rx
    → hear_all c rx.phys_mtu (listen c rx) (join chunks) ≡ hunting frames
    → (rx' : Rx) × (receive c rx chunks ≡ some rx')
      × IsReady rx'
      × (rx'.state ≡ read_start)
      × (rx'.frames_read ≡ frames)
delivers c rx chunks frames v h =
    let (rx', runs, ready, same, hears) = receive_hears c rx chunks v in
    let (s, e) = hunting-read_start c rx' rx'.state frames refl ready.settled (hears ∙ h) in
    (rx', runs, ready, s, e)

-- Frames that follow one another are delivered in order, each once, with the payloads that were
-- sent: for a receiver that waits for a flag, whatever bytes other than a flag come first, and
-- however the input is cut into chunks. The receiver ends waiting for a flag again.
pub frames_delivered :
    (c : CrcType) (rx : Rx) (noise : List ℕ) (payloads chunks : List (List ℕ))
    → c ≢ crc_off
    → IsReady rx
    → rx.state ≡ read_start
    → NoFlag noise
    → Fits c rx.phys_mtu payloads
    → join chunks ≡ noise ++ wires c payloads
    → (rx' : Rx) × (receive c rx chunks ≡ some rx')
      × IsReady rx'
      × (rx'.state ≡ read_start)
      × (rx'.frames_read ≡ rx.frames_read ++ payloads)
unfolding listen_in
frames_delivered c rx noise payloads chunks off v s quiet fits cut =
    let heard = rx.frames_read in
    let mtu = rx.phys_mtu in
    delivers c rx chunks (heard ++ payloads) v (
      ap₂ (λ l b. hear_all c mtu l b) {y = hunting heard} (ap (λ t. listen_in c t rx) s) cut
      ∙ hear_all-append c mtu (hunting heard) noise (wires c payloads)
      ∙ ap (λ l. hear_all c mtu l (wires c payloads)) (noise_skipped c mtu heard noise quiet)
      ∙ wires_heard c mtu heard payloads off fits)

-- Recovery: a ready receiver in any state, also in the middle of a frame or after an escape, that
-- is given a flag and then the wire images of one or more payloads delivers those payloads, in
-- order, after the frames that it had when the first flag came. The receiver ends waiting for a
-- flag.
pub frames_recovered :
    (c : CrcType) (rx : Rx) (payload : List ℕ) (more chunks : List (List ℕ))
    → c ≢ crc_off
    → IsReady rx
    → Fits c rx.phys_mtu (payload ∷ more)
    → join chunks ≡ flag_sequence ∷ wires c (payload ∷ more)
    → (rx' : Rx) × (receive c rx chunks ≡ some rx')
      × IsReady rx'
      × (rx'.state ≡ read_start)
      × (rx'.frames_read ≡ frames_at_flag c rx ++ payload ∷ more)
unfolding wire
frames_recovered c rx payload more chunks off v fits cut =
    let mtu = rx.phys_mtu in
    delivers c rx chunks (frames_at_flag c rx ++ payload ∷ more) v (
      ap (hear_all c mtu (listen c rx)) cut
      ∙ two_flags c mtu (listen c rx) _
      ∙ wires_heard c mtu (frames_at_flag c rx) (payload ∷ more) off fits)
