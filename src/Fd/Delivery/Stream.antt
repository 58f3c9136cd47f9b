-- ===== src/Fd/Delivery/Stream.antt =====
-- Packets that come in order, again, or not at all, against what the user gets.
use tinyproto.Prelude.{
  ℕ, zero, suc, ◌+◌, ◌/◌, ◌%◌, ◌<◌, ◌≡◌, ◌≢◌, ◌∙◌, refl, sym, true, false, List, [], ◌∷◌, ◌++◌,
  append-nil, append_assoc, arith,
}
use tinyproto.Fd.Handle.{Link}
use tinyproto.Fd.Control.{is_s_control}
use tinyproto.Fd.OnRx.{on_i_frame_read, on_s_frame_read}
use tinyproto.Fd.OnFrame.{dispatch, note_arrival}
use tinyproto.Fd.Invariant.{IsOpen, is_quiet}
use tinyproto.Fd.Invariant.Steps.Exchange.{on_i_frame_read-IsOpen, on_s_frame_read-IsOpen}
use tinyproto.Fd.Delivery.{Listens}
use tinyproto.Fd.Delivery.Frames.{refused-Listens, accepted-Listens, on_s_frame_read-Listens}

-- A frame: its address field, its control field and its payload.
abbrev pub Frame : Type 0
Frame = ℕ × ℕ × List ℕ

-- The frames of a peer, one after the other.
unfoldable pub take_frames : ℕ → List Frame → Link → Link
take_frames now [] link = link
take_frames now ((address, control, payload) ∷ frames) link =
    take_frames now frames (dispatch now address control payload (note_arrival now link))

-- `control` is that of the I-frame `n`, whatever its N(R) and P/F bit are.
pub record IsNumbered (control n : ℕ) : Type 0 where
  pub even : control % 2 ≡ 0
  pub number : control / 2 % 8 ≡ n % 8

-- Frames that come while packet `r` of the stream is the first that has not come, and how many more
-- packets have come in order after them. Between them frames come that are not expected: packets
-- that are fewer than 8 away from `r`, earlier or later ones, and S-frames.
pub data Arrivals (stream : ℕ → List ℕ) : ℕ → List Frame → ℕ → Type 0 where
  nothing : {r : ℕ} → Arrivals stream r [] 0
  expected :
      {r count : ℕ} {frames : List Frame} (address control : ℕ)
      → IsNumbered control r
      → Arrivals stream (suc r) frames count
      → Arrivals stream r ((address, control, stream r) ∷ frames) (suc count)
  unexpected :
      {r count : ℕ} {frames : List Frame} (address control n : ℕ)
      → IsNumbered control n
      → n ≢ r
      → r < n + 8
      → n < r + 8
      → Arrivals stream r frames count
      → Arrivals stream r ((address, control, stream n) ∷ frames) count
  supervisory :
      {r count : ℕ} {frames : List Frame} (address control : ℕ) (payload : List ℕ)
      → is_s_control control ≡ true
      → Arrivals stream r frames count
      → Arrivals stream r ((address, control, payload) ∷ frames) count

-- `count` packets of the stream from `r` on.
unfoldable pub packets : (ℕ → List ℕ) → ℕ → ℕ → List (List ℕ)
packets stream r zero = []
packets stream r (suc count) = stream r ∷ packets stream (suc r) count

dispatch-i :
    (now address control : ℕ) (payload : List ℕ) (link : Link)
    → control % 2 ≡ 0
    → is_quiet link.peer.state ≡ false
    → dispatch now address control payload link ≡ on_i_frame_read control payload link
unfolding dispatch
dispatch-i now address control payload link e loud = ground (arith, e, loud)

dispatch-s :
    (now address control : ℕ) (payload : List ℕ) (link : Link)
    → is_s_control control ≡ true
    → is_quiet link.peer.state ≡ false
    → dispatch now address control payload link ≡ on_s_frame_read address control link
unfolding dispatch
dispatch-s now address control payload link e loud = ground (arith, e, loud)

noted-IsOpen : (now : ℕ) (link : Link) → IsOpen link → IsOpen (note_arrival now link)
noted-IsOpen now link o = record { tables = o.tables; numbers = o.numbers; loud = o.loud }

noted-Listens :
    (now : ℕ) (link : Link) {payloads : List (List ℕ)} {nr : ℕ}
    → Listens link payloads nr
    → Listens (note_arrival now link) payloads nr
noted-Listens now link h = record { got = h.got; expects = h.expects; listens = h.listens }

recast :
    (link : Link) {p q : List (List ℕ)} {n m : ℕ}
    → p ≡ q
    → n ≡ m
    → Listens link p n
    → Listens link q m
recast link same equal h = record {
  got = h.got ∙ same;
  expects = h.expects ∙ equal;
  listens = h.listens;
}

-- One frame from the peer, read by the handler that its control field chooses.
expected-Listens :
    (now address control r : ℕ) (payload : List ℕ) (link : Link) {payloads : List (List ℕ)}
    → IsNumbered control r
    → IsOpen link
    → Listens link payloads (r % 8)
    → let link' = dispatch now address control payload link in
      IsOpen link' × Listens link' (payloads ++ payload ∷ []) (suc r % 8)
expected-Listens now address control r payload link {payloads} i o h =
    let heard = accepted-Listens control payload link o (recast link refl (sym i.number) h) in
    let next : (control / 2 % 8 + 1) % 8 ≡ suc r % 8 = omega (arith, i.number) in
    rw (dispatch-i now address control payload link i.even o.loud)
      (on_i_frame_read-IsOpen control payload link o, recast _ refl next heard)

unexpected-Listens :
    (now address control n r : ℕ) (payload : List ℕ) (link : Link) {payloads : List (List ℕ)}
    → IsNumbered control n
    → n ≢ r
    → r < n + 8
    → n < r + 8
    → IsOpen link
    → Listens link payloads (r % 8)
    → let link' = dispatch now address control payload link in
      IsOpen link' × Listens link' payloads (r % 8)
unexpected-Listens now address control n r payload link i apart before behind o h =
    let other : control / 2 % 8 ≢ r % 8 = λ e. apart (omega (arith, e, i.number)) in
    rw (dispatch-i now address control payload link i.even o.loud) (
      on_i_frame_read-IsOpen control payload link o,
      refused-Listens control payload link o other h,
    )

-- A connected station whose user has got `payloads` and that expects packet `r` of the stream: after
-- the frames of the arrivals the user has got the `count` packets from `r` on besides, in order, each
-- once and none that came out of turn, and packet `r + count` is expected. So no packet is delivered
-- twice, left out or out of order, however often frames are lost or sent again, as long as a packet
-- that comes is fewer than 8 away from the one that is expected.
pub take_frames-Listens :
    (stream : ℕ → List ℕ) (now r count : ℕ) (frames : List Frame) (link : Link)
    (payloads : List (List ℕ))
    → Arrivals stream r frames count
    → IsOpen link
    → Listens link payloads (r % 8)
    → let link' = take_frames now frames link in
      IsOpen link' × Listens link' (payloads ++ packets stream r count) ((r + count) % 8)
unfolding take_frames packets
take_frames-Listens stream now r _ _ link payloads nothing o h =
    (o, recast link (sym (append-nil payloads)) (omega arith) h)
take_frames-Listens stream now r _ _ link payloads
      (expected {count} {frames} address control i more) o h =
    let noted = note_arrival now link in
    let (o', h') =
      expected-Listens now address control r (stream r) noted i (noted-IsOpen now link o)
        (noted-Listens now link h) in
    let (o'', h'') =
      take_frames-Listens stream now (suc r) count frames _ (payloads ++ stream r ∷ []) more o'
        h' in
    (
      o'',
      recast _ (append_assoc payloads (stream r ∷ []) (packets stream (suc r) count)) (omega arith)
          h'',
    )
take_frames-Listens stream now r _ _ link payloads
      (unexpected {count} {frames} address control n i apart before behind more) o h =
    let (o', h') =
      unexpected-Listens now address control n r (stream n) (note_arrival now link) i apart before
        behind (noted-IsOpen now link o) (noted-Listens now link h) in
    take_frames-Listens stream now r count frames _ payloads more o' h'
take_frames-Listens stream now r _ _ link payloads
      (supervisory {count} {frames} address control payload s more) o h =
    let noted = note_arrival now link in
    let o' = noted-IsOpen now link o in
    let e = dispatch-s now address control payload noted s o'.loud in
    take_frames-Listens stream now r count frames _ payloads more
      (rw e (on_s_frame_read-IsOpen address control noted o'))
      (rw e (on_s_frame_read-Listens address control noted o' (noted-Listens now link h)))
