-- ===== src/Light/Sent.antt =====
-- One byte at a time of `tiny_light_send` in src/proto/light/tiny_light.c, and what is asked of the
-- user's `write_func`.
pub mod Blocks
pub mod Frame
use tinyproto.Prelude.{
  ℕ, zero, suc, ◌+◌, ◌<◌, ◌≤◌, ◌≡◌, ◌≢◌, ◌⊎◌, inl, inr, refl, sym, ◌∙◌, ap, Bool, true, false,
  Option, none, some, List, [], ◌∷◌, ◌++◌, append_assoc, append-nil, arith, length, ltb, Bool-cases,
  Option-cases, subst, ◌>>=◌, nil_of_length, ap₂,
}
use tinyproto.Crc.{CrcType}
use tinyproto.Hdlc.Bytes.{Status, timeout}
use tinyproto.Hdlc.Tx.{Tx, reset_tx, hdlc_ll_put_frame, hdlc_ll_run_tx}
use tinyproto.Hdlc.Tx.Stream.{run_tx_stream}
use tinyproto.Hdlc.Tx.Reported.{pending-none}
use tinyproto.Hdlc.Tx.Pending.{IsTx, pending}
use tinyproto.Hdlc.Init.{HdlcLl, reset_tx_only, hdlc_ll_reset}
use tinyproto.User.{Io, moved, refused, Port, Outcome, amount, status, user_code}
use tinyproto.Light.{Light, expired}
use tinyproto.Light.Send.{write_loop, send_blocks, light_send}

-- A `write_func` that appends the byte that it takes to the line, and that takes none fewer than `waits`
-- times in a row: `patience` is how often it may still do so.
pub record IsWriter {W : Type 0} (port : Port W) (waits : ℕ) (line : W → List ℕ) (patience : W → ℕ)
    : Type 0 where
  pub takes :
      (b : ℕ) (w : W) (n : ℕ)
      → (port.write_func (b ∷ []) w).0 ≡ moved (suc n)
      → line (port.write_func (b ∷ []) w).1 ≡ line w ++ b ∷ []
  pub idles :
      (b : ℕ) (w : W)
      → (port.write_func (b ∷ []) w).0 ≡ moved 0
      → (line (port.write_func (b ∷ []) w).1 ≡ line w)
        × (patience (port.write_func (b ∷ []) w).1 < patience w)
  pub fails :
      (b : ℕ) (w : W) (code : ℕ)
      → (port.write_func (b ∷ []) w).0 ≡ refused code
      → line (port.write_func (b ∷ []) w).1 ≡ line w
  pub bounded : (w : W) → patience w < waits

singleton : {A : Type 0} (xs : List A) → length xs ≡ 1 → (x : A) × (xs ≡ x ∷ [])
singleton [] h = absurd (omega (arith, h))
singleton (x ∷ []) h = (x, refl)
singleton (x ∷ y ∷ xs) h = absurd (omega (arith, h))

-- A sender that owes something gives the next byte of it to a buffer of one byte.
pub one_byte :
    (c : CrcType) (tx : Tx) (frame : List ℕ)
    → IsTx c tx
    → tx.origin_data ≡ some frame
    → (b : ℕ) × (tx' : Tx) × (hdlc_ll_run_tx c tx 1 ≡ some (1, tx'))
      × (tx'.out_buffer ≡ b ∷ [])
      × IsTx c tx'
      × (pending c tx ≡ b ∷ pending c tx')
one_byte c tx frame v held =
    let (n, tx', e, v', stream, count, fits, filled, _, _) = run_tx_stream c tx 1 v in
    let owes : pending c tx ≢ [] =
      λ nothing. absurd (cc (held, pending-none c tx tx.state tx.origin_data refl refl nothing)) in
    let one : n ≡ 1 = elim filled [
      | inl full ↦ full
      | inr done ↦
          let empty : n ≢ 0 =
            λ z. owes (sym stream ∙ ap₂ ◌++◌ (nil_of_length tx'.out_buffer (sym count ∙ z)) done) in
          omega (arith, fits, empty)
    ] in
    let (b, out) = singleton tx'.out_buffer (sym count ∙ one) in
    (
      b,
      tx',
      e ∙ ap (λ k. some (k, tx')) one,
      out,
      v',
      sym stream ∙ ap (λ o. o ++ pending c tx') out,
    )

module _ {W : Type 0} (port : Port W) (waits : ℕ) (line : W → List ℕ) (patience : W → ℕ)
    (writer : IsWriter port waits line patience) where
  -- What the loop for one byte has done.
  abbrev pub Wrote : ℕ → ℕ → HdlcLl → W → Outcome → HdlcLl → W → Type 0
  Wrote ts b h w (amount n) h' w' = (h' ≡ h) × (line w' ≡ line w ++ b ∷ [])
  Wrote ts b h w (status s) h' w' =
      (s ≡ timeout)
      × (expired port ts w' ≡ true)
      × (h' ≡ hdlc_ll_reset h reset_tx_only)
      × ((line w' ≡ line w) ⊎ (line w' ≡ line w ++ b ∷ []))
  Wrote ts b h w (user_code code) h' w' =
      (h' ≡ h)
      × (line w' ≡ line w)
      × (before : W) × (port.write_func (b ∷ []) before ≡ (refused code, w'))

  idle-Wrote :
      (ts b : ℕ) (h : HdlcLl) (w idle : W) (result : Outcome) (h' : HdlcLl) (w' : W)
      → line idle ≡ line w
      → Wrote ts b h idle result h' w'
      → Wrote ts b h w result h' w'
  idle-Wrote ts b h w idle (amount n) h' w' e (same, l) = (same, ground (arith, l))
  idle-Wrote ts b h w idle (status s) h' w' e (late, at, same, l) =
      (late, at, same, ground (arith, l))
  idle-Wrote ts b h w idle (user_code code) h' w' e (same, l, before, by) =
      (same, l ∙ e, before, by)

  -- The loop ends with something that it has done.
  abbrev Ends : ℕ → ℕ → HdlcLl → W → Option (Outcome × HdlcLl × W) → Type 0
  Ends ts b h w run =
      (result : Outcome) × (h' : HdlcLl) × (w' : W) × (run ≡ some (result, h', w'))
      × Wrote ts b h w result h' w'

  wrote :
      (fuel ts b : ℕ) (h : HdlcLl) (w : W) (result : Io ℕ)
      → patience w < suc fuel
      → ((w' : W) → patience w' < fuel → Ends ts b h w' (write_loop fuel port ts (b ∷ []) h w'))
      → (port.write_func (b ∷ []) w).0 ≡ result
      → Ends ts b h w (write_loop (suc fuel) port ts (b ∷ []) h w)
  unfolding write_loop
  wrote fuel ts b h w (refused code) p again e = (
    user_code code,
    h,
    _,
    rw (write_loop, e) refl,
    (refl, writer.fails b w code e, w, ap (λ r. (r, (port.write_func (b ∷ []) w).1)) e),
  )
  wrote fuel ts b h w (moved zero) p again e =
      let w' = (port.write_func (b ∷ []) w).1 in
      let (kept, less) = writer.idles b w e in
      elim (Bool-cases (expired port ts w')) [
        | inl late ↦
            (status timeout, _, w', rw (write_loop, e, late) refl, (refl, late, refl, inl kept))
        | inr early ↦
            let (result, h', last, runs, done) = again w' (omega arith) in
            (
              result,
              h',
              last,
              rw (write_loop, e, early) runs,
              idle-Wrote ts b h w w' result h' last kept done,
            )
      ]
  wrote fuel ts b h w (moved (suc n)) p again e =
      let w' = (port.write_func (b ∷ []) w).1 in
      let all : ltb (suc n) 1 ≡ false = ground arith in
      elim (Bool-cases (expired port ts w')) [
        | inl late ↦ (
          status timeout,
          _,
          w',
          rw (write_loop, e, late) refl,
          (refl, late, refl, inr (writer.takes b w n e)),
        )
        | inr early ↦ (
          amount (suc n),
          h,
          w',
          rw (write_loop, e, early, all) refl,
          (refl, writer.takes b w n e),
        )
      ]

  pub write_loop-Wrote :
      (fuel ts b : ℕ) (h : HdlcLl) (w : W)
      → patience w < fuel
      → Ends ts b h w (write_loop fuel port ts (b ∷ []) h w)
  write_loop-Wrote zero ts b h w p = absurd (omega arith)
  write_loop-Wrote (suc fuel) ts b h w p =
      wrote fuel ts b h w _ p (λ w'. write_loop-Wrote fuel ts b h w') refl
