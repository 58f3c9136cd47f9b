-- ===== src/Light/Heard/Blocks.antt =====
-- What `tiny_light_read` of src/proto/light/tiny_light.c gives of the bytes that come from the line.
use tinyproto.Prelude.{
  ℕ, zero, suc, ◌+◌, ◌*◌, ◌<◌, ◌≡◌, ◌≢◌, ◌⊎◌, inl, inr, refl, sym, ◌∙◌, ap, false, Option, some,
  List, [], ◌∷◌, ◌++◌, arith, length, take, drop, ==_ne, ◌>>=◌, subst,
}
use tinyproto.Crc.{CrcType}
use tinyproto.Hdlc.Bytes.{success}
use tinyproto.Hdlc.Rx.Listen.{listen, Listen}
use tinyproto.Hdlc.Rx.Chunks.{IsReady}
use tinyproto.Hdlc.Bytewise.{Ends}
use tinyproto.User.{Port, moved, Outcome, amount}
use tinyproto.Light.{Light, expired}
use tinyproto.Light.Read.{take_stream, read_blocks}
use tinyproto.Light.Heard.{
  fresh, fresh-IsReady, waited, take_nothing, Delivers, byte-Goes, byte-Delivers,
}

-- A `read_func` that takes the first byte of `input`, one at a time, and that finds none ready fewer than
-- `waits` times in a row: `patience` is how often it may still do so. Nothing is asked of it when there
-- is no input.
pub record IsReader {W : Type 0} (port : Port W) (waits : ℕ) (input : W → List ℕ) (patience : W → ℕ)
    : Type 0 where
  pub gives :
      (w : W) (b : ℕ) (rest : List ℕ)
      → input w ≡ b ∷ rest
      → (((port.read_func 1 w).0 ≡ moved (b ∷ [])) × (input (port.read_func 1 w).1 ≡ rest))
        ⊎ (((port.read_func 1 w).0 ≡ moved [])
            × (input (port.read_func 1 w).1 ≡ b ∷ rest)
            × (patience (port.read_func 1 w).1 < patience w))
  pub bounded : (w : W) → patience w < waits

pub Ends-at :
    {c c' : CrcType} {mtu mtu' : ℕ} {s s' : Listen} (bytes payload : List ℕ)
    → c' ≡ c
    → mtu' ≡ mtu
    → s' ≡ s
    → Ends c mtu s bytes payload
    → Ends c' mtu' s' bytes payload
Ends-at {c} {c'} {mtu} {mtu'} {s} {s'} bytes payload ec em es ends =
    subst (λ t. Ends t mtu' s' bytes payload) (sym ec)
      (subst (λ t. Ends c t s' bytes payload) (sym em)
        (subst (λ t. Ends c mtu t bytes payload) (sym es) ends))

pub rounds :
    (bytes : List ℕ) (b : ℕ) (rest : List ℕ) (waits : ℕ)
    → bytes ≡ b ∷ rest
    → length bytes * waits ≡ waits + length rest * waits
rounds bytes b rest waits p = rw p (omega arith)

handed_on :
    {light mid light' : Light} {payload : List ℕ}
    → mid.hdlc.crc_type ≡ light.hdlc.crc_type
    → mid.hdlc.rx.active_frame_buf ≡ light.hdlc.rx.active_frame_buf
    → Delivers mid light' payload
    → Delivers light light' payload
handed_on {light} {mid} {light'} {payload} ec ew d = record {
  ready = d.ready;
  waits = d.waits;
  same_crc = d.same_crc ∙ ec;
  len = d.len;
  stored = subst (λ n. take (length payload) (drop n light'.hdlc.rx.rx_buf) ≡ payload) ew d.stored;
}

module _ {W : Type 0} (port : Port W) (waits : ℕ) (input : W → List ℕ) (patience : W → ℕ)
    (reader : IsReader port waits input patience) where
  -- The loop ends with the payload delivered and the input read up to `more`.
  abbrev pub Reads : Light → List ℕ → List ℕ → Option (Outcome × Light × W) → Type 0
  Reads light payload more run =
      (light' : Light) × (w' : W) × (run ≡ some (amount 0, light', w'))
      × Delivers light light' payload
      × (input w' ≡ more)

  -- A round without an error, in time.
  round :
      (fuel ts : ℕ) (light : Light) (w : W) (bytes : List ℕ) (light' : Light)
      → (port.read_func 1 w).0 ≡ moved bytes
      → take_stream light bytes ≡ some (success, light')
      → expired port ts (port.read_func 1 w).1 ≡ false
      → (light'.rx_len ≡ 0
          → read_blocks (suc fuel) port ts light w
            ≡ read_blocks fuel port ts light' (port.read_func 1 w).1)
        × (light'.rx_len ≢ 0
            → read_blocks (suc fuel) port ts light w
              ≡ some (amount 0, light', (port.read_func 1 w).1))
  unfolding read_blocks
  round fuel ts light w bytes light' e t early = (
    λ none_read. rw (read_blocks, e, t, ◌>>=◌, early, none_read) refl,
    λ some_read. rw (read_blocks, e, t, ◌>>=◌, early, ==_ne light'.rx_len 0 some_read) refl,
  )

  -- A byte has come: the last one, or the loop goes on from the next.
  received :
      (fuel ts : ℕ) (light : Light) (w : W) (b : ℕ) (bytes payload more : List ℕ)
      → IsReady light.hdlc.rx
      → light.rx_len ≡ 0
      → 0 < length payload
      → ((t : W) → expired port ts t ≡ false)
      → Ends light.hdlc.crc_type light.hdlc.rx.phys_mtu
          (listen light.hdlc.crc_type (fresh light.hdlc.rx))
          (b ∷ bytes)
          payload
      → ((light' : Light) (b' : ℕ) (rest : List ℕ)
          → bytes ≡ b' ∷ rest
          → IsReady light'.hdlc.rx
          → light'.rx_len ≡ 0
          → Ends light'.hdlc.crc_type light'.hdlc.rx.phys_mtu
              (listen light'.hdlc.crc_type (fresh light'.hdlc.rx))
              (b' ∷ rest)
              payload
          → Reads light' payload more (read_blocks fuel port ts light' (port.read_func 1 w).1))
      → (port.read_func 1 w).0 ≡ moved (b ∷ [])
      → input (port.read_func 1 w).1 ≡ bytes ++ more
      → Reads light payload more (read_blocks (suc fuel) port ts light w)
  received fuel ts light w b [] payload more v z pos early ends again got left =
      let (light', t, d) = byte-Delivers light b payload v ends in
      let some_read : light'.rx_len ≢ 0 = omega (arith, d.len, pos) in
      (
        light',
        (port.read_func 1 w).1,
        (round fuel ts light w (b ∷ []) light' got t (early _)).1 some_read,
        d,
        left,
      )
  received fuel ts light w b (b' ∷ rest) payload more v z pos early (quiet, ends) again got left =
      let (mid, t, goes) = byte-Goes light b v quiet in
      let at =
        Ends-at (b' ∷ rest) payload goes.same_crc goes.same_mtu
          (ap (λ c. listen c (fresh mid.hdlc.rx)) goes.same_crc ∙ goes.hears) ends in
      let (light', w', runs, delivers, end) =
        again mid b' rest refl goes.ready (goes.same_len ∙ z) at in
      (
        light',
        w',
        (round fuel ts light w (b ∷ []) mid got t (early _)).0 (goes.same_len ∙ z) ∙ runs,
        handed_on goes.same_crc goes.same_window delivers,
        end,
      )

  pub read_blocks-Reads :
      (fuel ts : ℕ) (light : Light) (w : W) (b : ℕ) (bytes payload more : List ℕ)
      → IsReady light.hdlc.rx
      → light.rx_len ≡ 0
      → 0 < length payload
      → ((t : W) → expired port ts t ≡ false)
      → input w ≡ b ∷ bytes ++ more
      → Ends light.hdlc.crc_type light.hdlc.rx.phys_mtu
          (listen light.hdlc.crc_type (fresh light.hdlc.rx))
          (b ∷ bytes)
          payload
      → length bytes * waits + patience w < fuel
      → Reads light payload more (read_blocks fuel port ts light w)
  read_blocks-Reads zero ts light w b bytes payload more v z pos early i ends h =
      absurd (omega (arith, h))
  read_blocks-Reads (suc fuel) ts light w b bytes payload more v z pos early i ends h =
      elim (reader.gives w b (bytes ++ more) i) [
        | inl (got, left) ↦
            received fuel ts light w b bytes payload more v z pos early ends
              (λ light' b' rest p v' z' ends'.
                read_blocks-Reads fuel ts light' (port.read_func 1 w).1 b' rest payload more v' z'
                  pos early (left ∙ ap (λ l. l ++ more) p) ends'
                  (omega (
                    arith,
                    h,
                    rounds bytes b' rest waits p,
                    reader.bounded (port.read_func 1 w).1,
                  )))
              got left
        | inr (nothing, left, less) ↦
            let (light', w', runs, delivers, rest) =
              read_blocks-Reads fuel ts (waited light) (port.read_func 1 w).1 b bytes payload more
                (fresh-IsReady light.hdlc.rx v) z pos early left ends (omega (arith, h, less)) in
            (
              light',
              w',
              (round fuel ts light w [] (waited light) nothing (take_nothing light v) (early _)).0 z
                  ∙ runs,
              handed_on refl refl delivers,
              rest,
            )
      ]
