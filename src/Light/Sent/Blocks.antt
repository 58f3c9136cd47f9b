-- ===== src/Light/Sent/Blocks.antt =====
-- What `tiny_light_send` of src/proto/light/tiny_light.c puts on the line.
use tinyproto.Prelude.{
  ℕ, zero, suc, ◌+◌, ◌<◌, ◌≡◌, inl, inr, refl, sym, ◌∙◌, ap, true, Option, none, some, List, [],
  ◌∷◌, ◌++◌, append_assoc, append-nil, arith, length, Option-cases, subst, ◌>>=◌,
}
use tinyproto.Crc.{CrcType}
use tinyproto.Hdlc.Bytes.{timeout}
use tinyproto.Hdlc.Tx.{Tx, reset_tx, hdlc_ll_put_frame, hdlc_ll_run_tx}
use tinyproto.Hdlc.Tx.Put.{put_frame-IsTx}
use tinyproto.Hdlc.Tx.Pending.{IsTx, pending}
use tinyproto.Hdlc.Init.{HdlcLl, reset_tx_only, hdlc_ll_reset}
use tinyproto.User.{refused, Port, Outcome, amount, status, user_code}
use tinyproto.Light.{Light, expired}
use tinyproto.Light.Sent.{IsWriter, one_byte, Wrote, write_loop-Wrote}
use tinyproto.Light.Send.{write_loop, sent_result, send_blocks, light_send}

module _ {W : Type 0} (port : Port W) (waits : ℕ) (line : W → List ℕ) (patience : W → ℕ)
    (writer : IsWriter port waits line patience) where
  -- What sending has done, where the sender first owed the line `owed`: all of it is on the line; or the
  -- time is over, some part is on the line and the sender is idle; or the user's function has failed, and
  -- the byte that it was given is neither on the line nor still to send.
  unfoldable pub Sent : ℕ → CrcType → List ℕ → W → Outcome → HdlcLl → W → Type 0
  Sent ts c owed w (amount n) h w' =
      IsTx c h.tx × (h.tx.origin_data ≡ none) × (line w' ≡ line w ++ owed)
  Sent ts c owed w (status s) h w' =
      (s ≡ timeout)
      × (expired port ts w' ≡ true)
      × IsTx c h.tx
      × (h.tx.origin_data ≡ none)
      × (left : List ℕ) × (line w' ++ left ≡ line w ++ owed)
  Sent ts c owed w (user_code code) h w' =
      IsTx c h.tx
      × (b : ℕ) × (before : W) × (port.write_func (b ∷ []) before ≡ (refused code, w'))
      × (line w' ++ b ∷ pending c h.tx ≡ line w ++ owed)

  abbrev Sending : ℕ → CrcType → List ℕ → W → Option (Outcome × HdlcLl × W) → Type 0
  Sending ts c owed w run =
      (result : Outcome) × (h' : HdlcLl) × (w' : W) × (run ≡ some (result, h', w'))
      × (h'.crc_type ≡ c)
      × Sent ts c owed w result h' w'

  -- A byte more on the line, a byte less owed.
  next-Sent :
      (ts : ℕ) (c : CrcType) (b : ℕ) (owed : List ℕ) (w on : W) (result : Outcome) (h' : HdlcLl)
      (w' : W)
      → line on ≡ line w ++ b ∷ []
      → Sent ts c owed on result h' w'
      → Sent ts c (b ∷ owed) w result h' w'
  unfolding Sent
  next-Sent ts c b owed w on (amount n) h' w' e s =
      ground (arith, append_assoc (line w) (b ∷ []) owed)
  next-Sent ts c b owed w on (status t) h' w' e s =
      ground (arith, append_assoc (line w) (b ∷ []) owed)
  next-Sent ts c b owed w on (user_code code) h' w' e s =
      ground (arith, append_assoc (line w) (b ∷ []) owed)

  sent_nothing :
      (h : HdlcLl) (w : W)
      → IsTx h.crc_type h.tx
      → h.tx.origin_data ≡ none
      → pending h.crc_type h.tx ≡ []
  sent_nothing h w v idle = ground (arith, v.owned)

  -- What is left of the outer loop after the loop for one byte.
  abbrev go_on : ℕ → ℕ → Outcome → HdlcLl → W → Option (Outcome × HdlcLl × W)
  go_on fuel ts result h w = elim result [
    | user_code code ↦ some (user_code code, h, w)
    | amount n ↦ send_blocks fuel waits port ts (amount n) h w
    | status s ↦ send_blocks fuel waits port ts (status s) h w
  ]

  go_on-Sending :
      (fuel ts b : ℕ) (h : HdlcLl) (w : W) (result : Outcome) (h' : HdlcLl) (w' : W)
      → IsTx h.crc_type h.tx
      → Wrote port waits line patience writer ts b h w result h' w'
      → ((n : ℕ)
          → Sending ts h.crc_type
              (pending h.crc_type h.tx)
              w'
              (send_blocks (suc fuel) waits port ts (amount n) h w'))
      → Sending ts h.crc_type (b ∷ pending h.crc_type h.tx) w (go_on (suc fuel) ts result h' w')
  unfolding send_blocks Sent hdlc_ll_reset reset_tx
  go_on-Sending fuel ts b h w (amount n) h' w' v (same, more) again =
      let (result, last, w'', runs, kind, sent) = again n in
      (
        result,
        last,
        w'',
        ap (λ k. send_blocks (suc fuel) waits port ts (amount n) k w') same ∙ runs,
        kind,
        next-Sent ts h.crc_type b (pending h.crc_type h.tx) w w' result last w'' more sent,
      )
  go_on-Sending fuel ts b h w (status s) h' w' v (late, at, same, more) again = (
    status s,
    hdlc_ll_reset h reset_tx_only,
    w',
    ap (λ k. send_blocks (suc fuel) waits port ts (status s) k w') same,
    refl,
    elim more [
      | inl kept ↦
          (late, at, ground (arith, v.stored), refl, b ∷ pending h.crc_type h.tx, rw kept refl)
      | inr on ↦ (
        late,
        at,
        ground (arith, v.stored),
        refl,
        pending h.crc_type h.tx,
        rw on (append_assoc (line w) (b ∷ []) (pending h.crc_type h.tx)),
      )
    ],
  )
  go_on-Sending fuel ts b h w (user_code code) h' w' v (same, kept, before, refusal) again = (
    user_code code,
    h,
    w',
    ap (λ k. some (user_code code, k, w')) same,
    refl,
    (v, b, before, refusal, rw kept refl),
  )

  block_sent :
      (fuel ts : ℕ) (before : Outcome) (h : HdlcLl) (w : W) {frame : List ℕ} {k b : ℕ} {tx : Tx}
      → h.tx.origin_data ≡ some frame
      → hdlc_ll_run_tx h.crc_type h.tx 1 ≡ some (k, tx)
      → tx.out_buffer ≡ b ∷ []
      → (result : Outcome) (h' : HdlcLl) (w' : W)
      → write_loop waits port ts (b ∷ []) (record h { tx = tx }) w ≡ some (result, h', w')
      → send_blocks (suc fuel) waits port ts before h w ≡ go_on fuel ts result h' w'
  unfolding send_blocks
  block_sent fuel ts before h w held e out result h' w' runs =
      simp (send_blocks, held, e, ◌>>=◌, out, runs)

  send_blocks-Sending :
      (fuel ts n : ℕ) (h : HdlcLl) (w : W)
      → IsTx h.crc_type h.tx
      → length (pending h.crc_type h.tx) + 1 < fuel
      → Sending ts h.crc_type
          (pending h.crc_type h.tx)
          w
          (send_blocks fuel waits port ts (amount n) h w)
  unfolding send_blocks Sent
  send_blocks-Sending zero ts n h w v p = absurd (omega (arith, p))
  send_blocks-Sending (suc zero) ts n h w v p = absurd (omega (arith, p))
  send_blocks-Sending (suc (suc fuel)) ts n h w v p = elim (Option-cases h.tx.origin_data) [
    | inl idle ↦ (
      amount n,
      h,
      w,
      simp (send_blocks, idle),
      refl,
      (v, idle, rw (sent_nothing h w v idle) (sym (append-nil (line w)))),
    )
    | inr (frame, held) ↦
        let (b, tx, e, out, v', owed) = one_byte h.crc_type h.tx frame v held in
        let next = record h { tx = tx } in
        let (result, h', w', runs, done) =
          write_loop-Wrote port waits line patience writer waits ts b next w (writer.bounded w) in
        let (result', last, w'', ends, kind, sent) =
          go_on-Sending fuel ts b next w result h' w' v' done (λ m.
            send_blocks-Sending (suc fuel) ts m next w' v' (omega (arith, p, ap length owed))) in
        (
          result',
          last,
          w'',
          block_sent (suc fuel) ts (amount n) h w held e out result h' w' runs ∙ ends,
          kind,
          subst (λ o. Sent ts h.crc_type o w result' last w'') (sym owed) sent,
        )
  ]

  sent_result-Sent :
      (ts : ℕ) (c : CrcType) (owed : List ℕ) (w : W) (len : ℕ) (result : Outcome) (h : HdlcLl)
      (w' : W)
      → Sent ts c owed w result h w'
      → Sent ts c owed w (sent_result len result) h w'
        × ((n : ℕ) → sent_result len result ≡ amount n → n ≡ len)
  unfolding Sent sent_result
  sent_result-Sent ts c owed w len (amount n) h w' s = (s, λ m e. ground arith)
  sent_result-Sent ts c owed w len (status t) h w' s = (s, λ m e. ground arith)
  sent_result-Sent ts c owed w len (user_code code) h w' s = (s, λ m e. ground arith)

  -- With a valid sender, idle or not, and a `write_func` that takes a byte in the end,
  -- `tiny_light_send` returns, with fuel for the bytes that are owed: those of the frame, or, if the
  -- sender was busy, what was left of the frame before. Either it returns the length of the frame, and
  -- all that was owed is on the line, in order, and the sender is idle; or it returns the time-out, only
  -- when 1000 ms are over, a part from the start is on the line, and the sender is idle; or it returns
  -- the code of a `write_func` that has failed, and what was owed is on the line or still owed but for
  -- the one byte that the function was given.
  pub light_send-Sent :
      (fuel : ℕ) (light : Light) (frame : List ℕ) (w : W)
      → let c = light.hdlc.crc_type in
        let first = (hdlc_ll_put_frame light.hdlc.tx frame).1 in
        IsTx c light.hdlc.tx
        → length (pending c first) + 1 < fuel
        → (result : Outcome) × (light' : Light) × (w' : W) × (light_send fuel waits port light frame
              w
            ≡ some (result, light', w'))
          × (light'.hdlc.crc_type ≡ c)
          × Sent (port.millis w) c (pending c first) w result light'.hdlc w'
          × ((n : ℕ) → result ≡ amount n → n ≡ length frame)
  unfolding light_send
  light_send-Sent fuel light frame w v p =
      let tx = (hdlc_ll_put_frame light.hdlc.tx frame).1 in
      let c = light.hdlc.crc_type in
      let h = record light.hdlc { tx = tx } in
      let (result, h', w', runs, kind, sent) =
        send_blocks-Sending fuel (port.millis w) 0 h w (put_frame-IsTx c light.hdlc.tx frame v) p in
      let (sent', len) =
        sent_result-Sent (port.millis w) c (pending c tx) w (length frame) result h' w' sent in
      (
        sent_result (length frame) result,
        record light { hdlc = h' },
        w',
        rw (runs, ◌>>=◌) refl,
        kind,
        sent',
        len,
      )
