-- ===== src/Fd/Invariant/Steps/Frames.antt =====
-- A frame that has come, a time-out, the next frame to send and a packet of the user keep the invariant
-- of the handle and one peer.
use tinyproto.Prelude.{ℕ, ◌-◌, ◌*◌, ◌≡◌, ap, true, List, refl, not, ◌&&◌, ltb, leb}
use tinyproto.Fd.FramesQueue.{s_frame, u_frame}
use tinyproto.Fd.Control.{is_u_control, is_i_control, is_s_control}
use tinyproto.Fd.Handle.{connecting, Link, elapsed, is_primary}
use tinyproto.Fd.ServiceQueue.{send_u_s_frame}
use tinyproto.Fd.OnFrame.{may_exchange, dispatch, note_arrival}
use tinyproto.Fd.IdleTimeout.{
  is_overdue, retry, keep_alive, connected_check_idle_timeout, disconnected_check_idle_timeout,
}
use tinyproto.Fd.TxData.{check_idle_timeout}
use tinyproto.Fd.Invariant.{is_quiet, IsLink, IsOpen, IsLink-IsOpen, IsOpen-IsLink, if_keeps}
use tinyproto.Fd.Invariant.Tables.{send_u_s-IsOpen, send_u_s-IsLink}
use tinyproto.Fd.Invariant.Steps.Exchange.{
  on_i_frame_read-IsOpen, on_s_frame_read-IsOpen, resend-IsOpen,
}
use tinyproto.Fd.Invariant.Steps.Connect.{on_u_frame_read-IsLink, switch_to_disconnected-IsLink}

-- The handler of a frame.
pub dispatch-IsLink :
    (now address control : ℕ) (payload : List ℕ) (link : Link)
    → IsLink link
    → IsLink (dispatch now address control payload link)
unfolding dispatch
dispatch-IsLink now address control payload link v =
    if_keeps IsLink (is_u_control control)
      (λ e. on_u_frame_read-IsLink now address control payload link v)
      (λ e.
        if_keeps IsLink (not (may_exchange link.peer.state))
          (λ e. send_u_s-IsLink u_frame _ _ _ link v)
          (λ free.
            let o = IsLink-IsOpen v free in
            if_keeps IsLink (is_i_control control)
              (λ e. IsOpen-IsLink (on_i_frame_read-IsOpen control payload link o))
              (λ e.
                if_keeps IsLink (is_s_control control)
                  (λ e. IsOpen-IsLink (on_s_frame_read-IsOpen address control link o)) (λ e. v))))

pub note_arrival-IsLink : (now : ℕ) (link : Link) → IsLink link → IsLink (note_arrival now link)
note_arrival-IsLink now link v = record {
  tables = v.tables;
  peer = record {
    awake = v.peer.awake;
    numbers = v.peer.numbers;
    quiet = λ q.
        let r = v.peer.quiet q in
        record { numbers = r.numbers; rejects = r.rejects; requests = r.requests; waits = r.waits };
  };
}

retry-IsOpen : (link : Link) → IsOpen link → IsOpen (retry link)
retry-IsOpen link o =
    resend-IsOpen 0 _ (record link { peer = record link.peer { retries = link.peer.retries - 1 } })
      (record { tables = o.tables; numbers = o.numbers; loud = o.loud })

keep_alive-IsOpen : (now : ℕ) (link : Link) → IsOpen link → IsOpen (keep_alive now link)
keep_alive-IsOpen now link o =
    let asked = send_u_s-IsOpen s_frame _ _ _ link o in
    record { tables = asked.tables; numbers = asked.numbers; loud = asked.loud }

pub connected_check-IsOpen :
    (now : ℕ) (link : Link) → IsOpen link → IsLink (connected_check_idle_timeout now link)
unfolding connected_check_idle_timeout
connected_check-IsOpen now link o =
    let v = IsOpen-IsLink o in
    let closed = switch_to_disconnected-IsLink link v in
    if_keeps IsLink (is_overdue now link)
      (λ e.
        if_keeps IsLink (ltb 0 link.peer.retries) (λ e. IsOpen-IsLink (retry-IsOpen link o))
          (λ e. closed))
      (λ e.
        if_keeps IsLink
          (leb (link.fd.ka_timeout * 2) (elapsed now link.peer.last_received_frame_ts))
          (λ e. if_keeps IsLink link.peer.ka_confirmed (λ e. v) (λ e. closed))
          (λ e.
            if_keeps IsLink (leb link.fd.ka_timeout (elapsed now link.peer.last_sent_frame_ts))
              (λ e. IsOpen-IsLink (keep_alive-IsOpen now link o)) (λ e. v)))

asked_to_connect-IsLink :
    (now : ℕ) (link : Link)
    → is_quiet link.peer.state ≡ true
    → IsLink link
    → IsLink (record link {
      peer = record link.peer { state = connecting; last_received_frame_ts = now };
    })
asked_to_connect-IsLink now link q v =
    let r = v.peer.quiet q in
    record {
      tables = v.tables;
      peer = record {
        awake = refl;
        numbers = v.peer.numbers;
        quiet = λ _. record {
          numbers = r.numbers;
          rejects = r.rejects;
          requests = r.requests;
          waits = r.waits;
        };
      };
    }

pub disconnected_check-IsLink :
    (now : ℕ) (link : Link)
    → is_quiet link.peer.state ≡ true
    → IsLink link
    → IsLink (disconnected_check_idle_timeout now link)
unfolding disconnected_check_idle_timeout send_u_s_frame
disconnected_check-IsLink now link q v =
    if_keeps IsLink
      (leb link.fd.retry_timeout (elapsed now link.peer.last_received_frame_ts)
        && is_primary link.fd)
      (λ e. asked_to_connect-IsLink now _ q (send_u_s-IsLink u_frame _ _ _ link v)) (λ e. v)

-- The time-outs of a peer.
pub check_idle_timeout-IsLink :
    (now : ℕ) (link : Link) → IsLink link → IsLink (check_idle_timeout now link)
check_idle_timeout-IsLink now link v =
    if_keeps IsLink (may_exchange link.peer.state)
      (λ e. connected_check-IsOpen now link (IsLink-IsOpen v (ap not e)))
      (λ e. disconnected_check-IsLink now link (ap not e) v)
