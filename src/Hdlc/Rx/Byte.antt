-- ===== src/Hdlc/Rx/Byte.antt =====
-- `hdlc_ll_run_rx` with a single byte: its error code, and where a delivered frame lies.
use tinyproto.Prelude.{
  ℕ, zero, suc, ◌≡◌, inl, inr, refl, true, false, some, List, [], ◌∷◌, ◌++◌, arith, length, take,
  drop, ltb, ◌/◌, ◌-◌, Bool-cases, ◌==◌, ap, ◌>>=◌, ◌∙◌, subst, sym,
}
use tinyproto.Crc.{CrcType, crc_value}
use tinyproto.Hdlc.Bytes.{success, wrong_crc, flag_sequence}
use tinyproto.Hdlc.Rx.{
  Rx, RxState, read_start, read_data, read_end, at_end, RxResult, run_rx_loop, hdlc_ll_run_rx,
  hdlc_ll_read_end, hdlc_ll_read_start, hdlc_ll_read_data, read_loop, frame_bytes, deliver,
  run_state, calc_crc, read_crc,
}
use tinyproto.Hdlc.Rx.Refine.{after_byte, read_byte_lem}
use tinyproto.Hdlc.Rx.Run.{run_rx-Runs}
use tinyproto.Hdlc.Rx.Listen.{hear, hear_all, listen}
use tinyproto.Hdlc.Rx.Chunks.{IsReady}

-- A part from the start of a list's part is one of the list.
prefix : (m n : ℕ) (xs : List ℕ) → take (length (take m (take n xs))) xs ≡ take m (take n xs)
prefix zero n xs = refl
prefix (suc m) zero xs = refl
prefix (suc m) (suc n) [] = refl
prefix (suc m) (suc n) (x ∷ xs) = ap (◌∷◌ x) (prefix m n xs)

-- What a run with one byte has done beside hearing it: nothing is delivered, and an error comes only at
-- the end of a frame; or a frame is, and its payload stands in the window.
pub data Handed (rx : Rx) (r : RxResult) : Type 0 where
  silent :
      r.error ≡ success
      → r.rx.frames_read ≡ rx.frames_read
      → r.rx.active_frame_buf ≡ rx.active_frame_buf
      → Handed rx r
  dropped :
      r.rx.state ≡ read_start
      → r.rx.frames_read ≡ rx.frames_read
      → rx.state ≡ read_data
      → Handed rx r
  handed :
      (payload : List ℕ)
      → r.error ≡ success
      → r.rx.frames_read ≡ rx.frames_read ++ payload ∷ []
      → take (length payload) (drop rx.active_frame_buf r.rx.rx_buf) ≡ payload
      → Handed rx r

-- A run from the closing flag on returns with that.
abbrev Closes : CrcType → Rx → Rx → Type 0
Closes c rx closed = (r : RxResult) × (run_rx_loop 2 c closed [] 1 ≡ some r) × Handed rx r

-- The end of a frame that is not empty and fits its window.
end_frame :
    (c : CrcType) (rx : Rx)
    → rx.state ≡ read_data
    → rx.on_frame_read ≡ true
    → (rx.ptr == 0) ≡ false
    → ltb rx.phys_mtu rx.ptr ≡ false
    → Closes c rx (record rx { state = read_end })
unfolding run_rx_loop run_state hdlc_ll_read_end deliver
end_frame c rx s on some_bytes fits =
    let frame = frame_bytes rx in
    let rx' = record rx { state = read_start } in
    elim (Bool-cases (ltb rx.ptr (crc_value c / 8))) [
      | inl short ↦ (
        record { result = 1; error = wrong_crc; rx = rx' },
        rw (some_bytes, fits, short) refl,
        dropped refl refl s,
      )
      | inr long ↦ elim (Bool-cases (calc_crc c frame rx.ptr == read_crc c frame rx.ptr)) [
        | inl right ↦ (
          record { result = 1; error = success; rx = deliver c rx' },
          rw (some_bytes, fits, long, right) refl,
          handed (take (rx.ptr - crc_value c / 8) frame) refl (rw on refl)
              (prefix (rx.ptr - crc_value c / 8) rx.ptr (drop rx.active_frame_buf rx.rx_buf)),
        )
        | inr wrong ↦ (
          record { result = 1; error = wrong_crc; rx = rx' },
          rw (some_bytes, fits, long, wrong) refl,
          dropped refl refl s,
        )
      ]
    ]

end_byte :
    (c : CrcType) (rx : Rx)
    → IsReady rx
    → rx.state ≡ read_data
    → Closes c rx (record rx { state = read_end })
unfolding run_rx_loop run_state hdlc_ll_read_end
end_byte c rx v s = elim (Bool-cases (rx.ptr == 0)) [
  | inl empty ↦ (
    record { result = 1; error = success; rx = record rx { escape = false; state = read_data } },
    rw empty refl,
    silent refl refl refl,
  )
  | inr some_bytes ↦
      let fits : ltb rx.phys_mtu rx.ptr ≡ false = ground (arith, v.valid.inside) in
      end_frame c rx s v.valid.listening some_bytes fits
]

-- A run with one byte returns with that.
abbrev Hands : CrcType → Rx → ℕ → Type 0
Hands c rx b = (r : RxResult) × (hdlc_ll_run_rx c rx (b ∷ []) ≡ some r) × Handed rx r

start_byte : (c : CrcType) (rx : Rx) (b : ℕ) → rx.state ≡ read_start → Hands c rx b
unfolding hdlc_ll_run_rx run_rx_loop run_state hdlc_ll_read_start
start_byte c rx b s = elim (Bool-cases (b == flag_sequence)) [
  | inl fl ↦ (
    record {
      result = 1;
      error = success;
      rx = record rx { escape = false; ptr = 0; state = read_data };
    },
    rw (s, fl) refl,
    silent refl refl refl,
  )
  | inr nf ↦
      (record { result = 1; error = success; rx = rx }, rw (s, nf) refl, silent refl refl refl)
]

data_byte : (c : CrcType) (rx : Rx) (b : ℕ) → IsReady rx → rx.state ≡ read_data → Hands c rx b
unfolding hdlc_ll_run_rx run_rx_loop run_state hdlc_ll_read_data read_loop
data_byte c rx b v s = elim (Bool-cases (b == flag_sequence)) [
  | inl fl ↦ let (r, e, h) = end_byte c rx v s in (r, rw (s, fl, ◌>>=◌) e, h)
  | inr nf ↦ (
    record { result = 1; error = success; rx = after_byte b rx },
    simp (s, nf, read_byte_lem b rx v.valid, ◌>>=◌) (ground arith),
    silent refl (ground arith) (ground arith),
  )
]

hands :
    (c : CrcType) (rx : Rx) (b : ℕ) (state : RxState) → IsReady rx → rx.state ≡ state → Hands c rx b
hands c rx b read_start v s = start_byte c rx b s
hands c rx b read_data v s = data_byte c rx b v s
hands c rx b read_end v s = absurd (cc (v.settled, ap at_end s))

-- A run with one byte hears it.
pub run_rx_byte :
    (c : CrcType) (rx : Rx) (b : ℕ)
    → IsReady rx
    → (r : RxResult) × (hdlc_ll_run_rx c rx (b ∷ []) ≡ some r)
      × Handed rx r
      × IsReady r.rx
      × (r.rx.phys_mtu ≡ rx.phys_mtu)
      × (listen c r.rx ≡ hear c rx.phys_mtu (listen c rx) b)
unfolding hear_all
run_rx_byte c rx b v =
    let (r, e, h) = hands c rx b rx.state v refl in
    let (n, r', e', count, runs) = run_rx-Runs c rx (b ∷ []) v.valid in
    let one : n ≡ 1 = omega (arith, runs.within, runs.progress v.settled (omega arith)) in
    let same : r' ≡ r = cc (e, e') in
    (
      r',
      e',
      subst (Handed rx) (sym same) h,
      record { valid = runs.step.valid; settled = runs.settled },
      runs.step.same_mtu,
      runs.step.hears ∙ ap (λ k. hear_all c rx.phys_mtu (listen c rx) (take k (b ∷ []))) one,
    )

-- A run without input changes nothing.
pub run_rx_nothing :
    (c : CrcType) (rx : Rx)
    → IsReady rx
    → hdlc_ll_run_rx c rx [] ≡ some (record { result = 0; error = success; rx = rx })
unfolding hdlc_ll_run_rx run_rx_loop
run_rx_nothing c rx v = rw v.settled refl
