-- ===== src/Fd/Invariant/Transmit.antt =====
-- `tiny_fd_on_rx_data` and `tiny_fd_get_tx_data` of src/proto/fd/tiny_fd.c keep the invariant of the
-- handle.
use tinyproto.Prelude.{
  ℕ, zero, suc, Bool, false, Option, none, some, List, refl, not, ◌||◌, ◌==◌, leb,
}
use tinyproto.Hdlc.Rx.{Rx}
use tinyproto.Hdlc.Tx.{Tx}
use tinyproto.Fd.Peers.{invalid_peer, is_abm}
use tinyproto.Fd.Handle.{
  Fd, Link, FramePtr, peer_at, with_peer, unless_hung, is_primary, elapsed, frame_at,
}
use tinyproto.Fd.OnFrame.{after_rx, fd_on_rx_data, is_nrm}
use tinyproto.Fd.TxData.{
  TxRound, finished, restarted, generated, report_sent, report_frames, with_tx, check_idle_timeout,
  start_frame, may_stop, after_choice, with_marker, without_marker, run_idle,
}
use tinyproto.Fd.Invariant.{IsFd, IsHdlc, IsLink, if_keeps, Returns}
use tinyproto.Hdlc.Init.{HdlcLl}
use tinyproto.Hdlc.Tx.Pending.{IsTx}
use tinyproto.Hdlc.Tx.Put.{put_frame-IsTx}
use tinyproto.Hdlc.Rx.Chunks.{IsReady, on_rx_data-Hears}
use tinyproto.Fd.NextFrame.{frame_bytes}
use tinyproto.Fd.Invariant.Steps.Frames.{check_idle_timeout-IsLink}
use tinyproto.Fd.Invariant.Steps.Sending.{get_next_frame-IsLink}
use tinyproto.Fd.Invariant.Handles.{
  link_at-IsLink, put_back-IsFd, same-IsFd, read_frames-IsFd, on_frame_send-IsFd,
}

-- Other bytes in the HDLC level.
hdlc-IsFd : (fd : Fd) (h : HdlcLl) → IsHdlc h → IsFd fd → IsFd (record fd { hdlc = h })
hdlc-IsFd fd h v t = record {
  i_table = t.i_table;
  s_table = t.s_table;
  peers = t.peers;
  hdlc = v;
  runs = t.runs;
  turn = t.turn;
}

pub with_tx-IsFd : (tx : Tx) (fd : Fd) → IsTx fd.hdlc.crc_type tx → IsFd fd → IsFd (with_tx tx fd)
with_tx-IsFd tx fd v t = hdlc-IsFd fd _ (record { sender = v; receiver = t.hdlc.receiver }) t

after_rx-IsFd : (now : ℕ) (fd : Fd) (rx : Rx) → IsReady rx → IsFd fd → IsFd (after_rx now fd rx)
after_rx-IsFd now fd rx v t =
    read_frames-IsFd now _ _ (hdlc-IsFd fd _ (record { sender = t.hdlc.sender; receiver = v }) t)

-- A handle that satisfies the invariant does not hang.
unless_hung-IsFd : (fd : Fd) → IsFd fd → Returns IsFd (unless_hung fd)
unless_hung-IsFd fd t = if_keeps (Returns IsFd) fd.hung (λ e. absurd (cc (e, t.runs))) (λ e. t)

-- Bytes from the line: the call returns.
pub fd_on_rx_data-IsFd :
    (now : ℕ) (input : List ℕ) (fd : Fd) → IsFd fd → Returns IsFd (fd_on_rx_data now input fd)
unfolding fd_on_rx_data
fd_on_rx_data-IsFd now input fd t =
    let (rx, e, ready, h) = on_rx_data-Hears fd.hdlc.crc_type fd.hdlc.rx input t.hdlc.receiver in
    rw e (unless_hung-IsFd (after_rx now fd rx) (after_rx-IsFd now fd rx ready t))

report_sent-IsFd : (ptr : Option FramePtr) (fd : Fd) → IsFd fd → IsFd (report_sent ptr fd)
report_sent-IsFd none fd t = t
report_sent-IsFd (some ptr) fd t = on_frame_send-IsFd ptr fd t

pub report_frames-IsFd : (n : ℕ) (fd : Fd) → IsFd fd → IsFd (report_frames n fd)
unfolding report_frames
report_frames-IsFd zero fd t = t
report_frames-IsFd (suc n) fd t = report_frames-IsFd n _ (report_sent-IsFd fd.sending fd t)

-- The handle after a round.
abbrev pub round_fd : TxRound → Fd
round_fd (finished status fd) = fd
round_fd (restarted fd) = fd
round_fd (generated bytes fd) = fd

may_stop-IsFd : (fd : Fd) → IsFd fd → IsFd (round_fd (may_stop fd))
may_stop-IsFd fd t =
    if_keeps (λ (r : TxRound). IsFd (round_fd r)) (is_abm fd.mode || not (is_primary fd)) (λ e. t)
      (λ e. t)

start_frame-IsFd : (ptr : FramePtr) (fd : Fd) → IsFd fd → IsFd (start_frame ptr fd)
start_frame-IsFd ptr fd t =
    let put =
      put_frame-IsTx fd.hdlc.crc_type fd.hdlc.tx (frame_bytes (frame_at fd ptr)) t.hdlc.sender in
    let v = with_tx-IsFd _ fd put t in
    record {
      i_table = v.i_table;
      s_table = v.s_table;
      peers = v.peers;
      hdlc = v.hdlc;
      runs = v.runs;
      turn = v.turn;
    }

after_choice-IsFd :
    (peer : ℕ) (r : Option FramePtr × Link) → IsLink r.1 → IsFd (round_fd (after_choice peer r))
after_choice-IsFd peer (some ptr, link) v = start_frame-IsFd ptr _ (put_back-IsFd peer link v)
after_choice-IsFd peer (none, link) v = may_stop-IsFd _ (put_back-IsFd peer link v)

with_marker-IsFd : (now peer : ℕ) (fd : Fd) → IsFd fd → IsFd (round_fd (with_marker now peer fd))
with_marker-IsFd now peer fd t =
    let cleared : IsFd (record fd { tx_data_available = false }) =
      same-IsFd _ refl refl refl refl refl refl t in
    if_keeps (λ (r : TxRound). IsFd (round_fd r)) (fd.tx_data_available || is_nrm fd.mode)
      (λ e. after_choice-IsFd peer _ (get_next_frame-IsLink now _ (link_at-IsLink peer _ cleared)))
      (λ e. may_stop-IsFd fd t)

without_marker-IsFd : (now : ℕ) (fd : Fd) → IsFd fd → IsFd (round_fd (without_marker now fd))
without_marker-IsFd now fd t =
    if_keeps (λ (r : TxRound). IsFd (round_fd r)) (is_primary fd)
      (λ e.
        if_keeps (λ (r : TxRound). IsFd (round_fd r))
          (leb fd.retry_timeout (elapsed now fd.last_marker_ts))
          (λ e. same-IsFd _ refl refl refl refl refl refl t) (λ e. t))
      (λ e. t)

pub run_idle-IsFd :
    (now peer : ℕ) (waited : Bool) (fd : Fd)
    → IsFd fd
    → IsFd (round_fd (run_idle now peer waited fd))
unfolding run_idle
run_idle-IsFd now peer waited fd t =
    let timed = put_back-IsFd peer _ (check_idle_timeout-IsLink now _ (link_at-IsLink peer fd t)) in
    if_keeps (λ (r : TxRound). IsFd (round_fd r)) ((peer_at fd peer).addr == invalid_peer) (λ e. t)
      (λ e.
        if_keeps (λ (r : TxRound). IsFd (round_fd r)) waited (λ e. timed)
          (λ e.
            if_keeps (λ (r : TxRound). IsFd (round_fd r))
              (with_peer peer (check_idle_timeout now) fd).has_marker
              (λ e. with_marker-IsFd now peer _ timed) (λ e. without_marker-IsFd now _ timed)))
