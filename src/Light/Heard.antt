-- ===== src/Light/Heard.antt =====
-- One round of `tiny_light_read` in src/proto/light/tiny_light.c: what a byte from the line does to the
-- handle.
pub mod Blocks
pub mod Frame
use tinyproto.Prelude.{
  ℕ, ◌≡◌, ◌≢◌, ◌⊎◌, inl, inr, refl, sym, ◌∙◌, ap, Bool, true, false, Option, some, List, [], ◌∷◌,
  ◌++◌, arith, length, take, drop, ◌>>=◌, subst,
}
use tinyproto.Crc.{CrcType}
use tinyproto.Hdlc.Bytes.{success}
use tinyproto.Hdlc.Rx.{
  Rx, RxState, RxResult, read_start, read_data, read_end, at_end, hdlc_ll_run_rx,
}
use tinyproto.Hdlc.Rx.Listen.{Listen, hunting, collecting, hear, listen_in, listen}
use tinyproto.Hdlc.Rx.Chunks.{IsReady}
use tinyproto.Hdlc.Rx.Byte.{Handed, silent, dropped, handed, run_rx_byte, run_rx_nothing}
use tinyproto.Hdlc.Bytewise.{Collects}
use tinyproto.Light.{Light}
use tinyproto.Light.Read.{heard_len, hear_block, take_stream}

-- The receiver without the frames of earlier runs.
abbrev pub fresh : Rx → Rx
fresh rx = record rx { frames_read = List.[] }

pub fresh-IsReady : (rx : Rx) → IsReady rx → IsReady (fresh rx)
fresh-IsReady rx v = ground (arith, v.valid, v.settled)

frames_of : Listen → List (List ℕ)
frames_of (hunting heard) = heard
frames_of (collecting heard frame escape) = heard

listen-frames :
    (c : CrcType) (rx : Rx) (state : RxState)
    → rx.state ≡ state
    → at_end rx.state ≡ false
    → frames_of (listen c rx) ≡ rx.frames_read
unfolding frames_of listen_in
listen-frames c rx read_start s v = rw s refl
listen-frames c rx read_data s v = rw s refl
listen-frames c rx read_end s v = absurd (cc (v, ap at_end s))

-- The handle after a round in which a run has returned `r`, and after one without input.
abbrev pub taken : Light → RxResult → Light
taken light r = record light {
  hdlc = record light.hdlc { rx = fresh r.rx };
  rx_len = heard_len r.rx.frames_read light.rx_len;
}

abbrev pub waited : Light → Light
waited light = record light { hdlc = record light.hdlc { rx = fresh light.hdlc.rx } }

hear_nothing :
    (light : Light) → IsReady light.hdlc.rx → hear_block light [] ≡ some (success, waited light)
unfolding hear_block heard_len
hear_nothing light v =
    rw
      (
        run_rx_nothing light.hdlc.crc_type (fresh light.hdlc.rx) (fresh-IsReady light.hdlc.rx v),
        ◌>>=◌,
      )
      refl

pub take_nothing :
    (light : Light) → IsReady light.hdlc.rx → take_stream light [] ≡ some (success, waited light)
unfolding take_stream
take_nothing light v =
    rw (hear_nothing light v, ◌>>=◌) (hear_nothing (waited light) (fresh-IsReady light.hdlc.rx v))

take_byte :
    (light : Light) (b : ℕ) (r : RxResult)
    → hdlc_ll_run_rx light.hdlc.crc_type (fresh light.hdlc.rx) (b ∷ []) ≡ some r
    → r.error ≡ success
    → IsReady r.rx
    → take_stream light (b ∷ []) ≡ some (success, taken light r)
unfolding take_stream hear_block heard_len
take_byte light b r e ok v =
    let heard = record light {
      hdlc = record light.hdlc { rx = r.rx };
      rx_len = heard_len r.rx.frames_read light.rx_len;
    } in
    rw (e, ◌>>=◌, ok) (hear_nothing heard v)

fresh_lem : (c : CrcType) (rx : Rx) → rx.frames_read ≡ [] → listen c (fresh rx) ≡ listen c rx
fresh_lem c rx none_read = ap (λ f. listen c (record rx { frames_read = f })) (sym none_read)

-- A round without an error that delivers nothing.
pub record Goes (light light' : Light) (s : Listen) : Type 0 where
  pub ready : IsReady light'.hdlc.rx
  pub same_crc : light'.hdlc.crc_type ≡ light.hdlc.crc_type
  pub same_mtu : light'.hdlc.rx.phys_mtu ≡ light.hdlc.rx.phys_mtu
  pub same_window : light'.hdlc.rx.active_frame_buf ≡ light.hdlc.rx.active_frame_buf
  pub same_len : light'.rx_len ≡ light.rx_len
  pub hears : listen light.hdlc.crc_type (fresh light'.hdlc.rx) ≡ s

-- A round that delivers the payload.
pub record Delivers (light light' : Light) (payload : List ℕ) : Type 0 where
  pub ready : IsReady light'.hdlc.rx
  pub waits : light'.hdlc.rx.state ≡ read_start
  pub same_crc : light'.hdlc.crc_type ≡ light.hdlc.crc_type
  pub len : light'.rx_len ≡ length payload
  pub stored :
      take (length payload) (drop light.hdlc.rx.active_frame_buf light'.hdlc.rx.rx_buf) ≡ payload

collecting_state : (c : CrcType) (rx : Rx) → Collects (listen c rx) → rx.state ≢ read_start
unfolding listen_in
collecting_state c rx (frame, escape, at) h = absurd (cc (ap (λ t. listen_in c t rx) h, at))

hunting_state :
    (c : CrcType) (rx : Rx) (state : RxState) (heard : List (List ℕ))
    → rx.state ≡ state
    → at_end rx.state ≡ false
    → listen c rx ≡ hunting heard
    → rx.state ≡ read_start
unfolding listen_in
hunting_state c rx read_start heard s v h = s
hunting_state c rx read_data heard s v h = absurd (cc (ap (λ t. listen_in c t rx) s, h))
hunting_state c rx read_end heard s v h = absurd (cc (v, ap at_end s))

no_payload :
    (rx : Rx) (r : RxResult)
    → Handed (fresh rx) r
    → r.rx.frames_read ≡ []
    → r.rx.state ≢ read_start
    → (r.error ≡ success) × (r.rx.active_frame_buf ≡ rx.active_frame_buf)
no_payload rx r (silent ok frames window) none_read goes_on = (ok, window)
no_payload rx r (dropped start frames before) none_read goes_on = absurd (goes_on start)
no_payload rx r (handed payload ok frames at) none_read goes_on = absurd (cc (frames, none_read))

payload_read :
    (rx : Rx) (r : RxResult) (payload : List ℕ)
    → Handed (fresh rx) r
    → r.rx.frames_read ≡ payload ∷ []
    → (r.error ≡ success) × (take (length payload) (drop rx.active_frame_buf r.rx.rx_buf) ≡ payload)
payload_read rx r payload (silent ok frames window) one_read = absurd (cc (frames, one_read))
payload_read rx r payload (dropped start frames before) one_read = absurd (cc (frames, one_read))
payload_read rx r payload (handed other ok frames at) one_read =
    let same : other ≡ payload = cc (frames, one_read) in
    (ok, subst (λ p. take (length p) (drop rx.active_frame_buf r.rx.rx_buf) ≡ p) same at)

pub byte-Goes :
    (light : Light) (b : ℕ)
    → IsReady light.hdlc.rx
    → let s =
        hear light.hdlc.crc_type light.hdlc.rx.phys_mtu
          (listen light.hdlc.crc_type (fresh light.hdlc.rx))
          b in
      Collects s
      → (light' : Light) × (take_stream light (b ∷ []) ≡ some (success, light'))
        × Goes light light' s
unfolding heard_len frames_of
byte-Goes light b v (frame, escape, at) =
    let c = light.hdlc.crc_type in
    let rx = fresh light.hdlc.rx in
    let (r, e, h, ready, mtu, hears) = run_rx_byte c rx b (fresh-IsReady light.hdlc.rx v) in
    let nothing : r.rx.frames_read ≡ [] =
      sym (listen-frames c r.rx r.rx.state refl ready.settled) ∙ ap frames_of (hears ∙ at) in
    let (ok, window) =
      no_payload light.hdlc.rx r h nothing (collecting_state c r.rx (frame, escape, hears ∙ at)) in
    (
      taken light r,
      take_byte light b r e ok ready,
      record {
        ready = fresh-IsReady r.rx ready;
        same_crc = refl;
        same_mtu = mtu;
        same_window = window;
        same_len = ap (λ f. heard_len f light.rx_len) nothing;
        hears = fresh_lem c r.rx nothing ∙ hears;
      },
    )

pub byte-Delivers :
    (light : Light) (b : ℕ) (payload : List ℕ)
    → IsReady light.hdlc.rx
    → hear light.hdlc.crc_type light.hdlc.rx.phys_mtu
        (listen light.hdlc.crc_type (fresh light.hdlc.rx))
        b
      ≡ hunting (payload ∷ [])
    → (light' : Light) × (take_stream light (b ∷ []) ≡ some (success, light'))
      × Delivers light light' payload
unfolding heard_len frames_of
byte-Delivers light b payload v at =
    let c = light.hdlc.crc_type in
    let rx = fresh light.hdlc.rx in
    let (r, e, h, ready, mtu, hears) = run_rx_byte c rx b (fresh-IsReady light.hdlc.rx v) in
    let one : r.rx.frames_read ≡ payload ∷ [] =
      sym (listen-frames c r.rx r.rx.state refl ready.settled) ∙ ap frames_of (hears ∙ at) in
    let (ok, stored) = payload_read light.hdlc.rx r payload h one in
    (
      taken light r,
      take_byte light b r e ok ready,
      record {
        ready = fresh-IsReady r.rx ready;
        waits = hunting_state c r.rx r.rx.state (payload ∷ []) refl ready.settled (hears ∙ at);
        same_crc = refl;
        len = ap (λ f. heard_len f light.rx_len) one;
        stored = stored;
      },
    )
