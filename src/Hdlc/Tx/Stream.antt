-- ===== src/Hdlc/Tx/Stream.antt =====
-- The sender as a whole: `hdlc_ll_run_tx` cuts the wire stream of the frame to any buffer sizes.
use tinyproto.Prelude.{
  ℕ, zero, suc, ◌+◌, ◌-◌, ◌*◌, ◌≤◌, ◌<◌, ◌≡◌, ◌⊎◌, inl, inr, refl, sym, ◌∙◌, ap, Bool, true, false,
  Option, none, some, List, [], ◌∷◌, ◌++◌, append_assoc, append-nil, arith, length, take,
  length-append, append-eq_nil, take-length-append, take_all, ◌==◌, Bool-cases, ◌>>=◌, ◌&&◌,
}
use tinyproto.Crc.{CrcType}
use tinyproto.Hdlc.Bytes.{success}
use tinyproto.Hdlc.Wire.{wire}
use tinyproto.Hdlc.Tx.{
  Tx, TxState, send_start, send_crc, run_state, run_tx_loop, hdlc_ll_run_tx, hdlc_ll_put_frame,
}
use tinyproto.Hdlc.Tx.Pending.{reports, pending, pending_in, IsTx, Steps, rank}
use tinyproto.Hdlc.Tx.Steps.{run_state-Steps}

-- What a run of the loop from `tx` to `tx'` has done.
pub record Sends (c : CrcType) (tx tx' : Tx) : Type 0 where
  pub valid : IsTx c tx'
  pub stream : tx'.out_buffer ++ pending c tx' ≡ tx.out_buffer ++ pending c tx
  pub room : length tx'.out_buffer + tx'.out_buffer_len ≡ length tx.out_buffer + tx.out_buffer_len
  pub callback : tx'.on_frame_send ≡ tx.on_frame_send
  pub reported : tx.on_frame_send ≡ true → reports tx' ≡ reports tx
  pub exhausted : (tx'.out_buffer_len ≡ 0) ⊎ (pending c tx' ≡ [])

abbrev patience : Bool → ℕ
patience true = 0
patience false = 1

Steps-Sends :
    {c : CrcType} {tx next : Tx} {r : ℕ} (tx' : Tx)
    → Steps c tx r next
    → Sends c next tx'
    → Sends c tx tx'
Steps-Sends tx' st se = record {
  valid = se.valid;
  stream = se.stream ∙ st.stream;
  room = se.room ∙ st.room;
  callback = se.callback ∙ st.callback;
  reported = λ on. se.reported (st.callback ∙ on) ∙ st.reported on;
  exhausted = se.exhausted;
}

-- A round that writes nothing, after one that wrote nothing, is the last.
Steps-idle : {c : CrcType} {tx next : Tx} {r : ℕ} → Steps c tx r next → r ≡ 0 → Sends c tx next
Steps-idle st e = ground arith

Steps-patience :
    {c : CrcType} {tx next : Tx} {r : ℕ} (repeated : Bool) (fuel : ℕ)
    → Steps c tx r next
    → (r == 0) && repeated ≡ false
    → 4 * tx.out_buffer_len + rank tx.state + patience repeated < suc fuel
    → 4 * next.out_buffer_len + rank next.state + patience (r == 0) < fuel
Steps-patience repeated fuel st e h = ground arith

run_tx_loop-Sends :
    (fuel : ℕ) (c : CrcType) (repeated : Bool) (tx : Tx)
    → IsTx c tx
    → 4 * tx.out_buffer_len + rank tx.state + patience repeated < fuel
    → (tx' : Tx) × (run_tx_loop fuel c repeated tx ≡ some tx') × Sends c tx tx'
unfolding run_tx_loop
run_tx_loop-Sends zero c repeated tx v h = absurd (omega arith)
run_tx_loop-Sends (suc fuel) c repeated tx v h = elim (Bool-cases (tx.out_buffer_len == 0)) [
  | inl full ↦ (tx, rw full refl, ground arith)
  | inr room ↦
      let r = (run_state tx.state c tx).0 in
      let next = (run_state tx.state c tx).1 in
      let st : Steps c tx r next = run_state-Steps c tx tx.state refl v (ground arith) in
      elim (Bool-cases ((r == 0) && repeated)) [
        | inl stop ↦ (next, rw (room, stop) refl, Steps-idle st (ground arith))
        | inr go ↦
            let (tx', e, se) =
              run_tx_loop-Sends fuel c (r == 0) next st.valid
                (Steps-patience repeated fuel st go h) in
            (tx', rw (room, go) e, Steps-Sends tx' st se)
      ]
]

abbrev pub sum : List ℕ → ℕ
sum [] = 0
sum (n ∷ ns) = n + sum ns

abbrev opened : Tx → ℕ → Tx
opened tx len = record tx { out_buffer = []; out_buffer_len = len }

opened-pending_in :
    (c : CrcType) (s : TxState) (tx : Tx) (len : ℕ)
    → pending_in c s (opened tx len) ≡ pending_in c s tx
opened-pending_in c send_start tx len = refl
opened-pending_in c _ tx len = refl

opened-IsTx : {c : CrcType} {tx : Tx} (len : ℕ) → IsTx c tx → IsTx c (opened tx len)
opened-IsTx len v = ground arith

rank-le : (s : TxState) → rank s ≤ 2
rank-le send_crc = omega arith
rank-le _ = omega arith

-- From any valid state and for any buffer size, `hdlc_ll_run_tx` returns; the bytes it wrote
-- followed by the bytes still pending are the bytes that were pending before, and it stops short
-- of a full buffer only when nothing is pending. With the send callback set, the frames reported and
-- the frame that is still to report stay the same.
pub run_tx_stream :
    (c : CrcType) (tx : Tx) (len : ℕ)
    → IsTx c tx
    → (n : ℕ) × (tx' : Tx) × (hdlc_ll_run_tx c tx len ≡ some (n, tx'))
      × IsTx c tx'
      × (tx'.out_buffer ++ pending c tx' ≡ pending c tx)
      × (n ≡ length tx'.out_buffer)
      × (n ≤ len)
      × ((n ≡ len) ⊎ (pending c tx' ≡ []))
      × (tx'.on_frame_send ≡ tx.on_frame_send)
      × (tx.on_frame_send ≡ true → reports tx' ≡ reports tx)
unfolding hdlc_ll_run_tx
run_tx_stream c tx len v =
    let (tx', e, se) =
      run_tx_loop-Sends (4 * len + 4) c false (opened tx len) (opened-IsTx len v)
        (omega (arith, rank-le tx.state)) in
    (
      len - tx'.out_buffer_len,
      tx',
      rw e refl,
      se.valid,
      se.stream ∙ opened-pending_in c tx.state tx len,
      ground arith,
      omega arith,
      ground arith,
      se.callback,
      se.reported,
    )

-- `hdlc_ll_put_frame` on an idle sender makes the whole wire image of the frame pending.
pub put_frame_pending :
    (c : CrcType) (tx : Tx) (frame : List ℕ)
    → IsTx c tx
    → tx.origin_data ≡ none
    → tx.state ≡ send_start
    → 0 < length frame
    → let (status, tx') = hdlc_ll_put_frame tx frame in
      (status ≡ success) × IsTx c tx' × (pending c tx' ≡ wire c frame)
unfolding hdlc_ll_put_frame
put_frame_pending c tx frame v e s h = ground arith

-- Calls of `hdlc_ll_run_tx` with buffers of the given sizes, one after the other, and all that they
-- write.
pub transmit : CrcType → List ℕ → Tx → Option (List ℕ × Tx)
transmit c [] tx = some ([], tx)
transmit c (size ∷ sizes) tx = do
  (n, tx') ← hdlc_ll_run_tx c tx size
  (bytes, last) ← transmit c sizes tx'
  some (tx'.out_buffer ++ bytes, last)

-- What calls with buffers of those sizes have done.
pub record Transmits (c : CrcType) (sizes : List ℕ) (tx : Tx) (bytes : List ℕ) (last : Tx)
    : Type 0 where
  pub runs : transmit c sizes tx ≡ some (bytes, last)
  pub valid : IsTx c last
  pub callback : last.on_frame_send ≡ tx.on_frame_send
  pub reported : tx.on_frame_send ≡ true → reports last ≡ reports tx
  pub stream : bytes ++ pending c last ≡ pending c tx
  pub filled : (length bytes ≡ sum sizes) ⊎ (pending c last ≡ [])
  pub bounded : length bytes ≤ sum sizes

pub transmit-Transmits :
    (c : CrcType) (sizes : List ℕ) (tx : Tx)
    → IsTx c tx
    → (bytes : List ℕ) × (last : Tx) × Transmits c sizes tx bytes last
unfolding transmit
transmit-Transmits c [] tx v = ([], tx, ground arith)
transmit-Transmits c (size ∷ sizes) tx v =
    let (n, tx', e, v', stream, count, fits, filled, callback, reported) =
      run_tx_stream c tx size v in
    let (bytes, last, rest) = transmit-Transmits c sizes tx' v' in
    (
      tx'.out_buffer ++ bytes,
      last,
      record {
        runs = rw (e, ◌>>=◌) (rw (rest.runs, ◌>>=◌) refl);
        valid = rest.valid;
        callback = rest.callback ∙ callback;
        reported = λ on. rest.reported (callback ∙ on) ∙ reported on;
        stream =
            append_assoc tx'.out_buffer bytes (pending c last)
            ∙ ap (◌++◌ tx'.out_buffer) rest.stream
            ∙ stream;
        filled = ground (
          arith,
          rest.filled,
          rest.stream,
          stream,
          count,
          filled,
          length-append tx'.out_buffer bytes,
          append-eq_nil bytes (pending c last),
        );
        bounded = ground (arith, rest.bounded, count, fits, length-append tx'.out_buffer bytes);
      },
    )

-- The bytes of a run are the first of those pending, as many as the buffers hold.
Transmits-take :
    {c : CrcType} {tx : Tx} (sizes bytes : List ℕ) {last : Tx}
    → Transmits c sizes tx bytes last
    → bytes ≡ take (sum sizes) (pending c tx)
Transmits-take {c} {tx} sizes bytes {last} t = elim t.filled [
  | inl full ↦ sym (rw (← t.stream, ← full) (take-length-append bytes (pending c last)))
  | inr done ↦
      let all : pending c tx ≡ bytes = sym t.stream ∙ ap (◌++◌ bytes) done ∙ append-nil bytes in
      rw all (sym (take_all (sum sizes) bytes t.bounded))
]

-- A frame that an idle sender accepts goes out as its wire image, whatever the sizes of the
-- buffers that `hdlc_ll_run_tx` is given: the bytes written are the first of the image, as many as
-- the buffers hold together. Every call returns.
pub frame_goes_out :
    (c : CrcType) (tx : Tx) (frame sizes : List ℕ)
    → IsTx c tx
    → tx.origin_data ≡ none
    → tx.state ≡ send_start
    → 0 < length frame
    → (bytes : List ℕ) × (last : Tx) × (transmit c sizes (hdlc_ll_put_frame tx frame).1
        ≡ some (bytes, last))
      × (bytes ≡ take (sum sizes) (wire c frame))
      × IsTx c last
frame_goes_out c tx frame sizes v idle start h =
    let put = put_frame_pending c tx frame v idle start h in
    let (bytes, last, t) = transmit-Transmits c sizes (hdlc_ll_put_frame tx frame).1 put.1 in
    (bytes, last, t.runs, Transmits-take sizes bytes t ∙ ap (take (sum sizes)) put.2, t.valid)
