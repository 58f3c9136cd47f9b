-- ===== src/Hdlc/Rx/Rounds.antt =====
-- One round of `hdlc_ll_run_rx`.
use tinyproto.Prelude.{
  ℕ, suc, ◌+◌, ◌-◌, ◌≤◌, ◌<◌, ◌≡◌, ◌⊎◌, inl, inr, refl, ◌∙◌, ap, subst, true, false, Option, some,
  List, [], ◌∷◌, arith, length, take, ◌==◌, if◌then◌else◌, ◌>>=◌, Bool-cases, ==_ne,
}
use tinyproto.Crc.{CrcType}
use tinyproto.Hdlc.Bytes.{Status, success, flag_sequence}
use tinyproto.Hdlc.Rx.{
  Rx, RxState, read_start, read_data, read_end, Reply, used, stopped, frame_bytes, deliver,
  hdlc_ll_read_start, hdlc_ll_read_data, hdlc_ll_read_end, at_end, RxResult, after_reply, run_state,
  run_rx_loop,
}
use tinyproto.Hdlc.Rx.Listen.{accept, add_frame, close, hear, hear_all, listen_in, listen, IsRx}
use tinyproto.Hdlc.Rx.Refine.{Hears, Reads, read_loop-Reads, length-frame_bytes}

-- Acting on the closing flag goes where the flag was heard to go.
pub read_end-Hears :
    (c : CrcType) (rx : Rx) (frame : List ℕ)
    → frame_bytes rx ≡ frame
    → IsRx rx
    → rx.state ≡ read_end
    → let rx' = (hdlc_ll_read_end c rx).1 in
      Hears c rx (listen c rx) rx' × (at_end rx'.state ≡ false)
unfolding hdlc_ll_read_end listen_in close accept add_frame deliver
read_end-Hears c rx [] e v s = ground (arith, length-frame_bytes rx v)
read_end-Hears c rx (b ∷ frame) e v s = ground (arith, length-frame_bytes rx v)

code_of : Reply → Status
code_of (stopped code) = code
code_of (used n) = success

-- `hdlc_ll_read_end` never asks for more input.
read_end-stops :
    (c : CrcType) (rx : Rx) → (code : Status) × ((hdlc_ll_read_end c rx).0 ≡ stopped code)
unfolding hdlc_ll_read_end code_of
read_end-stops c rx = (code_of (hdlc_ll_read_end c rx).0, ground arith)

-- A round with input and no closing flag read: `suc k` bytes are used and heard.
abbrev Uses : CrcType → Rx → List ℕ → ℕ → Rx → Type 0
Uses c rx input k rx1 =
    (run_state rx.state c rx input ≡ some (used (suc k), rx1))
    × Hears c rx (hear_all c rx.phys_mtu (listen c rx) (take (suc k) input)) rx1
    × (suc k ≤ length input)

after_start : ℕ → Rx → Rx
after_start b rx =
    if b == flag_sequence then record rx { escape = false; ptr = 0; state = read_data } else rx

read_start-round :
    (c : CrcType) (b : ℕ) (rest : List ℕ) (rx : Rx)
    → IsRx rx
    → rx.state ≡ read_start
    → Uses c rx (b ∷ rest) 0 (after_start b rx)
unfolding run_state hdlc_ll_read_start hear_all hear listen_in after_start
read_start-round c b rest rx v s = ground arith

read_data-round :
    (c : CrcType) (b : ℕ) (rest : List ℕ) (rx : Rx)
    → IsRx rx
    → rx.state ≡ read_data
    → (k : ℕ) × (rx1 : Rx) × Uses c rx (b ∷ rest) k rx1
unfolding run_state hdlc_ll_read_data
read_data-round c b rest rx v s =
    let (n, rx1, e, r) = read_loop-Reads c (b ∷ rest) 0 rx v s in
    let same : n ≡ suc (n - 1) = ground (arith, r.stops) in
    let reads = subst (λ t. Reads c rx (b ∷ rest) t rx1) same r in
    let runs : run_state rx.state c rx (b ∷ rest) ≡ some (used (suc (n - 1)), rx1) =
      ap (λ st. run_state st c rx (b ∷ rest)) s
      ∙ rw (e, ◌>>=◌) (ap (λ t. some (used t, rx1)) {x = 0 + n} (omega (arith, same))) in
    (n - 1, rx1, (runs, reads.step, reads.within))

pub state-round :
    (c : CrcType) (b : ℕ) (rest : List ℕ) (rx : Rx) (state : RxState)
    → IsRx rx
    → rx.state ≡ state
    → at_end state ≡ false
    → (k : ℕ) × (rx1 : Rx) × Uses c rx (b ∷ rest) k rx1
state-round c b rest rx read_start v s h = (0, after_start b rx, read_start-round c b rest rx v s)
state-round c b rest rx read_data v s h = read_data-round c b rest rx v s
state-round c b rest rx read_end v s h = absurd (cc)

pub state-end :
    (c : CrcType) (rx : Rx) (state : RxState)
    → rx.state ≡ state
    → at_end state ≡ true
    → rx.state ≡ read_end
state-end c rx read_end s h = s
state-end c rx _ s h = absurd (cc)

pub read_end-round :
    (c : CrcType) (rx : Rx) (input : List ℕ)
    → rx.state ≡ read_end
    → (code : Status) × (run_state rx.state c rx input
        ≡ some (stopped code, (hdlc_ll_read_end c rx).1))
unfolding run_state
read_end-round c rx input s =
    let (code, e) = read_end-stops c rx in
    (code, ap (λ st. run_state st c rx input) s ∙ ap (λ r. some (r, (hdlc_ll_read_end c rx).1)) e)

abbrev one_round : ℕ → CrcType → Rx → List ℕ → ℕ → Option RxResult
one_round fuel c rx input result =
    run_state rx.state c rx input >>= λ reply. after_reply (run_rx_loop fuel c) reply input result

pub run_rx_loop-round :
    (fuel : ℕ) (c : CrcType) (rx : Rx) (input : List ℕ) (result : ℕ) (reply : Reply × Rx)
    → (0 < length input) ⊎ (at_end rx.state ≡ true)
    → run_state rx.state c rx input ≡ some reply
    → run_rx_loop (suc fuel) c rx input result ≡ after_reply (run_rx_loop fuel c) reply input result
unfolding run_rx_loop
run_rx_loop-round fuel c rx input result reply (inl h) e =
    rw (==_ne (length input) 0 (omega arith), e, ◌>>=◌) refl
run_rx_loop-round fuel c rx input result reply (inr t) e = elim (Bool-cases (length input == 0)) [
  | inl p ↦ rw (p, t, e, ◌>>=◌) refl
  | inr p ↦ rw (p, e, ◌>>=◌) refl
]
