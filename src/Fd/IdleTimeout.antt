-- ===== src/Fd/IdleTimeout.antt =====
-- The time-outs of src/proto/fd/tiny_fd.c: `tiny_fd_connected_check_idle_timeout` and
-- `tiny_fd_disconnected_check_idle_timeout`.
use tinyproto.Prelude.{ℕ, ◌+◌, ◌-◌, ◌*◌, Bool, false, ◌&&◌, [], ltb, leb, if◌then◌else◌}
use tinyproto.Fd.FramesQueue.{s_frame, u_frame}
use tinyproto.Fd.IQueueControl.{has_unconfirmed_frames, all_frames_are_sent}
use tinyproto.Fd.Control.{u_control, s_control, type_rr}
use tinyproto.Fd.Handle.{connecting, Link, peer_address, is_primary, elapsed}
use tinyproto.Fd.ServiceQueue.{send_u_s_frame}
use tinyproto.Fd.Connection.{switch_to_disconnected}
use tinyproto.Fd.Confirm.{resend_all_unconfirmed_frames}
use tinyproto.Fd.OnRx.{connect_type}

-- A frame that was sent is not acknowledged in time.
abbrev pub is_overdue : ℕ → Link → Bool
is_overdue now link =
    has_unconfirmed_frames link.peer.i_queue_control
    && all_frames_are_sent link.peer.i_queue_control
    && leb link.fd.retry_timeout (elapsed now link.peer.last_sent_i_ts)

abbrev pub retry : Link → Link
retry link =
    let counted = record link { peer = record link.peer { retries = link.peer.retries - 1 } } in
    resend_all_unconfirmed_frames 0 link.peer.i_queue_control.confirm_ns counted

-- An RR with the P bit asks the peer for a sign of life.
abbrev pub keep_alive : ℕ → Link → Link
keep_alive now link =
    let asked =
      send_u_s_frame s_frame (peer_address link)
        (s_control (type_rr + 16) link.peer.i_queue_control.next_nr) [] link in
    record asked { peer = record asked.peer { ka_confirmed = false; last_sent_frame_ts = now } }

unfoldable pub connected_check_idle_timeout : ℕ → Link → Link
connected_check_idle_timeout now link =
    if is_overdue now link
    then (if ltb 0 link.peer.retries then retry link else switch_to_disconnected link)
    else (if leb (link.fd.ka_timeout * 2) (elapsed now link.peer.last_received_frame_ts)
        then (if link.peer.ka_confirmed then link else switch_to_disconnected link)
        else (if leb link.fd.ka_timeout (elapsed now link.peer.last_sent_frame_ts)
            then keep_alive now link
            else link))

unfoldable pub disconnected_check_idle_timeout : ℕ → Link → Link
disconnected_check_idle_timeout now link =
    let asked =
      send_u_s_frame u_frame (peer_address link + 2) (u_control (connect_type link.fd.mode)) []
        link in
    if leb link.fd.retry_timeout (elapsed now link.peer.last_received_frame_ts)
      && is_primary link.fd
    then record asked {
      peer = record asked.peer { state = connecting; last_received_frame_ts = now };
    }
    else link
