-- ===== src/Fd/TxData.antt =====
-- `tiny_fd_get_tx_data` of src/proto/fd/tiny_fd.c: bytes for the line, of the frame that is being sent
-- and then of the next ones. No other thread runs, so that a wait for an event succeeds at once or
-- times out.
use tinyproto.Prelude.{
  ℕ, zero, suc, ◌+◌, ◌-◌, ◌*◌, Bool, true, false, not, ◌&&◌, ◌||◌, Option, none, some, List, [],
  ◌++◌, length, leb, ◌==◌, if◌then◌else◌, ◌>>=◌,
}
use tinyproto.Hdlc.Bytes.{Status, success, unknown_peer}
use tinyproto.Hdlc.Tx.{Tx, hdlc_ll_run_tx, hdlc_ll_put_frame}
use tinyproto.Fd.Peers.{is_abm, invalid_peer}
use tinyproto.Fd.Handle.{
  Fd, Link, FramePtr, peer_at, put_back, with_peer, is_primary, elapsed, frame_at,
}
use tinyproto.Fd.OnFrame.{is_nrm, may_exchange, on_frame_send}
use tinyproto.Fd.NextFrame.{get_next_frame, frame_bytes}
use tinyproto.Fd.IdleTimeout.{connected_check_idle_timeout, disconnected_check_idle_timeout}

-- What a round of the loop does: it ends the loop, with an error in place of the count perhaps; it
-- starts the next one by `continue`; or it has generated bytes.
pub data TxRound : Type 0 where
  finished : Status → Fd → TxRound
  restarted : Fd → TxRound
  generated : List ℕ → Fd → TxRound

-- The HDLC level reports the frame that it holds a pointer to.
abbrev pub report_sent : Option FramePtr → Fd → Fd
report_sent none fd = fd
report_sent (some ptr) fd = on_frame_send ptr fd

-- `on_frame_send` for each report; it leaves the HDLC level alone, so that it may run after it.
unfoldable pub report_frames : ℕ → Fd → Fd
report_frames zero fd = fd
report_frames (suc n) fd = report_frames n (report_sent fd.sending fd)

abbrev pub with_tx : Tx → Fd → Fd
with_tx tx fd = record fd { hdlc = record fd.hdlc { tx = tx } }

abbrev pub after_tx : Tx → Fd → Fd
after_tx tx fd =
    report_frames (length tx.frames_sent - length fd.hdlc.tx.frames_sent) (with_tx tx fd)

-- A frame is being sent.
unfoldable pub run_sender : ℕ → Fd → Option TxRound
run_sender room fd = hdlc_ll_run_tx fd.hdlc.crc_type fd.hdlc.tx room >>= λ r.
    some (generated r.1.out_buffer (after_tx r.1 fd))

abbrev pub check_idle_timeout : ℕ → Link → Link
check_idle_timeout now link =
    if may_exchange link.peer.state
    then connected_check_idle_timeout now link
    else disconnected_check_idle_timeout now link

-- The HDLC level is given the frame.
abbrev pub start_frame : FramePtr → Fd → Fd
start_frame ptr fd =
    let put = (hdlc_ll_put_frame fd.hdlc.tx (frame_bytes (frame_at fd ptr))).1 in
    record (with_tx put fd) { tx_data_available = true; tx_sending = true; sending = some ptr }

-- ABM mode and a secondary station do not go on without a frame.
abbrev pub may_stop : Fd → TxRound
may_stop fd = if is_abm fd.mode || not (is_primary fd) then finished success fd else generated [] fd

abbrev pub after_choice : ℕ → Option FramePtr × Link → TxRound
after_choice peer (some ptr, link) = restarted (start_frame ptr (put_back peer link))
after_choice peer (none, link) = may_stop (put_back peer link)

-- The station has the marker.
abbrev pub with_marker : ℕ → ℕ → Fd → TxRound
with_marker now peer fd =
    let cleared = record fd { tx_data_available = false } in
    if fd.tx_data_available || is_nrm fd.mode
    then after_choice peer
        (get_next_frame now (record { fd = cleared; peer = peer_at cleared peer }))
    else may_stop fd

-- A primary station takes the marker back from a peer that does not answer.
abbrev pub without_marker : ℕ → Fd → TxRound
without_marker now fd =
    if is_primary fd
    then (if leb fd.retry_timeout (elapsed now fd.last_marker_ts)
        then generated [] (record fd { has_marker = true })
        else finished success fd)
    else generated [] fd

-- Nothing is being sent.
unfoldable pub run_idle : ℕ → ℕ → Bool → Fd → TxRound
run_idle now peer waited fd =
    let timed = with_peer peer (check_idle_timeout now) fd in
    if (peer_at fd peer).addr == invalid_peer
    then finished unknown_peer fd
    else (if waited
        then finished success timed
        else (if timed.has_marker then with_marker now peer timed else without_marker now timed))

unfoldable pub tx_round : ℕ → ℕ → ℕ → Bool → Fd → Option TxRound
tx_round now peer room waited fd =
    if fd.tx_sending then run_sender room fd else some (run_idle now peer waited fd)

-- What `tiny_fd_get_tx_data` returns, an error or the count of the bytes, and the new state.
pub record TxData : Type 0 where
  pub error : Status
  pub bytes : List ℕ
  pub fd : Fd

abbrev pub is_empty : List ℕ → Bool
is_empty [] = true
is_empty _ = false

-- The end of the loop's body, where `again` is the next round.
abbrev pub after_round :
    (Bool → Fd → List ℕ → Option TxData) → Bool → List ℕ → TxRound → Option TxData
after_round again repeat out (finished error fd) =
    some (record { error = error; bytes = out; fd = fd })
after_round again repeat out (restarted fd) = again repeat fd out
after_round again repeat out (generated bytes fd) =
    let more = again (not (is_empty bytes)) fd (out ++ bytes) in
    if is_empty bytes && not repeat
    then some (record { error = success; bytes = out; fd = fd })
    else more

unfoldable pub tx_loop : ℕ → ℕ → ℕ → ℕ → Bool → Bool → Fd → List ℕ → Option TxData
tx_loop zero now peer len repeat waited fd out = none
tx_loop (suc fuel) now peer len repeat waited fd out =
    let round = tx_round now peer (len - length out) waited fd >>= λ r.
    after_round (λ b f o. tx_loop fuel now peer len b (waited || not fd.tx_sending) f o) repeat out
      r in
    if leb len (length out) then some (record { error = success; bytes = out; fd = fd }) else round

-- A round writes bytes, or is followed by one that does or ends the loop.
unfoldable pub fd_get_tx_data : ℕ → ℕ → Fd → Option TxData
fd_get_tx_data now len fd = tx_loop (2 * len + 6) now fd.next_peer len true false fd [] >>= λ r.
    if r.fd.hung then none else some r
