-- ===== src/Hdlc/Rx/Run.antt =====
-- `hdlc_ll_run_rx` and the loop that feeds it hear the whole input.
use tinyproto.Prelude.{
  ℕ, zero, suc, ◌+◌, ◌≤◌, ◌<◌, ◌≡◌, inl, inr, refl, ◌∙◌, ap, false, some, List, [], ◌∷◌, arith,
  length, take, drop, Bool-cases, length-drop,
}
use tinyproto.Crc.{CrcType}
use tinyproto.Hdlc.Bytes.{success}
use tinyproto.Hdlc.Rx.{
  Rx, read_end, frame_bytes, hdlc_ll_read_end, at_end, RxResult, run_rx_loop, hdlc_ll_run_rx,
}
use tinyproto.Hdlc.Rx.Listen.{Listen, hear, hear_all, listen, IsRx}
use tinyproto.Hdlc.Rx.Refine.{Hears}
use tinyproto.Hdlc.Rx.Rounds.{
  read_end-Hears, state-round, state-end, read_end-round, run_rx_loop-round,
}

hear_all-take :
    (c : CrcType) (mtu : ℕ) (s : Listen) (n m : ℕ) (bytes : List ℕ)
    → n ≤ length bytes
    → hear_all c mtu (hear_all c mtu s (take n bytes)) (take m (drop n bytes))
      ≡ hear_all c mtu s (take (n + m) bytes)
unfolding hear_all
hear_all-take c mtu s zero m bytes h = ap (λ k. hear_all c mtu s (take k bytes)) (omega arith)
hear_all-take c mtu s (suc n) m [] h = absurd (omega arith)
hear_all-take c mtu s (suc n) m (b ∷ bytes) h =
    hear_all-take c mtu (hear c mtu s b) n m bytes (omega arith)
    ∙ ap (λ k. hear_all c mtu s (take k (b ∷ bytes))) {x = suc (n + m)} (omega arith)

-- What a run on the input has done: `used` bytes of it are heard, and the closing flag of a frame is
-- acted on before it returns.
pub record Runs (c : CrcType) (rx : Rx) (input : List ℕ) (used : ℕ) (rx' : Rx) : Type 0 where
  pub step : Hears c rx (hear_all c rx.phys_mtu (listen c rx) (take used input)) rx'
  pub within : used ≤ length input
  pub settled : at_end rx'.state ≡ false
  pub progress : at_end rx.state ≡ false → 0 < length input → 0 < used

Runs-trans :
    {c : CrcType} {rx mid : Rx} {rx' : Rx} (input : List ℕ) (n m : ℕ)
    → Hears c rx (hear_all c rx.phys_mtu (listen c rx) (take n input)) mid
    → n ≤ length input
    → 0 < n
    → Runs c mid (drop n input) m rx'
    → Runs c rx input (n + m) rx'
Runs-trans {c} {rx} input n m st h p r =
    ground (arith, length-drop n input, hear_all-take c rx.phys_mtu (listen c rx) n m input)

run_rx_loop-end :
    (fuel : ℕ) (c : CrcType) (rx : Rx) (input : List ℕ) (result : ℕ)
    → IsRx rx
    → rx.state ≡ read_end
    → (r : RxResult) × (run_rx_loop (suc fuel) c rx input result ≡ some r)
      × (r.result ≡ result + 0)
      × Runs c rx input 0 r.rx
unfolding hear_all
run_rx_loop-end fuel c rx input result v s =
    let (code, e) = read_end-round c rx input s in
    let (st, settled) = read_end-Hears c rx (frame_bytes rx) refl v s in
    (
      record { result = result; error = code; rx = (hdlc_ll_read_end c rx).1 },
      run_rx_loop-round fuel c rx input result _ (inr (ap at_end s)) e,
      omega arith,
      record {
        step = st;
        within = omega arith;
        settled = settled;
        progress = λ p q. absurd (cc (ap at_end s));
      },
    )

run_rx_loop-Runs :
    (fuel : ℕ) (c : CrcType) (rx : Rx) (input : List ℕ) (result : ℕ)
    → IsRx rx
    → length input < fuel
    → (n : ℕ) × (r : RxResult) × (run_rx_loop fuel c rx input result ≡ some r)
      × (r.result ≡ result + n)
      × Runs c rx input n r.rx
unfolding hear_all
run_rx_loop-Runs zero c rx input result v h = absurd (omega arith)
run_rx_loop-Runs (suc fuel) c rx [] result v h = elim (Bool-cases (at_end rx.state)) [
  | inl t ↦
      let (r, e, count, runs) =
        run_rx_loop-end fuel c rx [] result v (state-end c rx rx.state refl t) in
      (0, r, e, count, runs)
  | inr t ↦ (
    0,
    record { result = result; error = success; rx = rx },
    unfold run_rx_loop in rw t refl,
    omega arith,
    ground arith,
  )
]
run_rx_loop-Runs (suc fuel) c rx (b ∷ rest) result v h = elim (Bool-cases (at_end rx.state)) [
  | inl t ↦
      let (r, e, count, runs) =
        run_rx_loop-end fuel c rx (b ∷ rest) result v (state-end c rx rx.state refl t) in
      (0, r, e, count, runs)
  | inr t ↦
      let (k, rx1, u) = state-round c b rest rx rx.state v refl t in
      let (n, r, e, count, runs) =
        run_rx_loop-Runs fuel c rx1 (drop k rest) (result + suc k) u.1.valid
          (omega (arith, length-drop k rest)) in
      (
        suc k + n,
        r,
        run_rx_loop-round fuel c rx (b ∷ rest) result _ (inl (omega arith)) u.0 ∙ e,
        omega arith,
        Runs-trans (b ∷ rest) (suc k) n u.1 u.2 (omega arith) runs,
      )
]

-- `hdlc_ll_run_rx` writes inside its buffer and returns; the bytes that it reports as used are
-- heard, and after a call with input at least one is used.
pub run_rx-Runs :
    (c : CrcType) (rx : Rx) (input : List ℕ)
    → IsRx rx
    → (n : ℕ) × (r : RxResult) × (hdlc_ll_run_rx c rx input ≡ some r)
      × (r.result ≡ n)
      × Runs c rx input n r.rx
unfolding hdlc_ll_run_rx
run_rx-Runs c rx input v =
    let (n, r, e, count, runs) = run_rx_loop-Runs (length input + 2) c rx input 0 v (omega arith) in
    (n, r, e, omega arith, runs)
