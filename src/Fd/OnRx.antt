-- ===== src/Fd/OnRx.antt =====
-- src/proto/fd/tiny_fd_on_rx_int.h: the handlers of I-, S- and U-frames. Their results are not used by
-- the callers but for that of `__check_received_frame`.
use tinyproto.Prelude.{
  ℕ, ◌+◌, ◌*◌, ◌/◌, ◌%◌, ◌^◌, Bool, true, false, not, ◌&&◌, ◌||◌, List, [], length, ltb, ◌==◌,
  if◌then◌else◌,
}
use tinyproto.Fd.FramesQueue.{s_frame, u_frame}
use tinyproto.Fd.IQueueControl.{all_frames_are_sent, move_to_next_frame_to_receive}
use tinyproto.Fd.Peers.{Mode, mode_nrm}
use tinyproto.Fd.Control.{
  u_type, s_type, type_ua, type_dm, type_frmr, type_rset, type_sabm, type_snrm, type_disc, type_ui,
  type_rr, type_rnr, type_rej, is_command, u_control, s_control,
}
use tinyproto.Fd.Handle.{
  connecting, FdPeer, Link, read, read_ui, peer_address, user_address, call_user,
}
use tinyproto.Fd.ServiceQueue.{send_u_s_frame}
use tinyproto.Fd.Connection.{
  is_disconnected, is_connecting, is_disconnecting, reset_numbers, switch_to_connected,
  switch_to_disconnected,
}
use tinyproto.Fd.Confirm.{confirm_frames, resend_all_unconfirmed_frames, request_tx}

abbrev pub take_next : FdPeer → FdPeer
take_next peer = record peer {
  i_queue_control = move_to_next_frame_to_receive peer.i_queue_control;
  sent_reject = false;
}

abbrev pub send_rr : ℕ → Link → Link
send_rr p_bit link =
    send_u_s_frame s_frame (peer_address link)
      (s_control (type_rr + p_bit) link.peer.i_queue_control.next_nr) [] link

abbrev pub send_rej : Link → Link
send_rej link =
    send_u_s_frame s_frame (peer_address link + 2)
      (s_control type_rej link.peer.i_queue_control.next_nr) []
      (record link { peer = record link.peer { sent_reject = true } })

-- Whether the frame is the one that is expected.
unfoldable pub check_received_frame : ℕ → Link → Bool × Link
check_received_frame ns link =
    if ns == link.peer.i_queue_control.next_nr
    then (true, record link { peer = take_next link.peer })
    else (if link.peer.sent_reject then (false, link) else (false, send_rej link))

-- An I-frame that is expected goes to the user, and an RR answers it if no I-frame will.
abbrev pub accept_i_frame : List ℕ → Link → Link
accept_i_frame payload link =
    let told = call_user link.fd.on_read_cb (read (user_address link) payload) link in
    if all_frames_are_sent told.peer.i_queue_control
      && not (told.peer.sent_nr == told.peer.i_queue_control.next_nr)
    then send_rr 0 told
    else told

-- After `__check_received_frame` N(R) acknowledges, and the user gets a frame that is expected.
abbrev pub after_check : ℕ → List ℕ → Bool × Link → Link
after_check control payload (expected, checked) =
    let confirmed = confirm_frames (control / 32) checked in
    if expected then accept_i_frame payload confirmed else confirmed

unfoldable pub on_i_frame_read : ℕ → List ℕ → Link → Link
on_i_frame_read control payload link =
    after_check control payload (check_received_frame (control / 2 % 8) link)

-- `srej_req_mask |= (1 << nr)`.
abbrev pub request_frame : ℕ → FdPeer → FdPeer
request_frame nr peer = record peer {
  srej_req_mask =
      if peer.srej_req_mask / 2 ^ nr % 2 == 1
      then peer.srej_req_mask
      else peer.srej_req_mask + 2 ^ nr;
}

-- `control & HDLC_P_BIT`.
abbrev pub p_bit_of : ℕ → ℕ
p_bit_of control = control / 16 % 2 * 16

abbrev pub answer_rr : ℕ → ℕ → Link → Link
answer_rr address control link =
    if is_command address && all_frames_are_sent link.peer.i_queue_control
    then send_rr (p_bit_of control) link
    else link

unfoldable pub on_s_frame_read : ℕ → ℕ → Link → Link
on_s_frame_read address control link =
    let nr = control / 32 in
    let confirmed = confirm_frames nr link in
    if s_type control == type_rej
    then resend_all_unconfirmed_frames control nr confirmed
    else (if s_type control == type_rr
        then answer_rr address control confirmed
        else (if s_type control == type_rnr
            then confirmed
            else request_tx (record confirmed { peer = request_frame nr confirmed.peer })))

abbrev pub send_u_answer : ℕ → Link → Link
send_u_answer type link = send_u_s_frame u_frame (peer_address link) (u_control type) [] link

abbrev pub connect_type : Mode → ℕ
connect_type mode_nrm = type_snrm
connect_type _ = type_sabm

-- SABM or SNRM.
abbrev pub on_set_mode : ℕ → Link → Link
on_set_mode now link =
    let answered = send_u_answer type_ua link in
    switch_to_connected now (
      if is_disconnected link.peer.state || is_connecting link.peer.state
      then answered
      else switch_to_disconnected answered)

abbrev pub on_disc : Link → Link
on_disc link = switch_to_disconnected (send_u_answer type_ua link)

abbrev pub on_rset : Link → Link
on_rset link = send_u_answer type_ua (record link { peer = reset_numbers link.peer })

abbrev pub start_connecting : Link → Link
start_connecting link = record link { peer = record link.peer { state = connecting } }

-- `__switch_to_disconnected_state` tests the state itself, as the source does before the call.
abbrev pub on_frmr : Link → Link
on_frmr link =
    let closed = switch_to_disconnected link in
    start_connecting (
      send_u_s_frame u_frame (peer_address link + 2) (u_control (connect_type link.fd.mode)) []
        closed)

abbrev pub on_ua : ℕ → Link → Link
on_ua now link =
    if is_connecting link.peer.state
    then switch_to_connected now link
    else (if is_disconnecting link.peer.state then switch_to_disconnected link else link)

abbrev pub on_ui : List ℕ → Link → Link
on_ui payload link =
    call_user (link.fd.on_read_ui_cb && ltb 0 (length payload))
      (read_ui (user_address link) payload) link

-- A disconnected peer is answered by DM unless it sets the mode or sends a UI frame.
abbrev pub is_refused : Link → ℕ → Bool
is_refused link type =
    is_disconnected link.peer.state
    && not (type == type_sabm)
    && not (type == type_snrm)
    && not (type == type_ui)

unfoldable pub on_u_frame_read : ℕ → ℕ → ℕ → List ℕ → Link → Link
on_u_frame_read now address control payload link =
    let type = u_type control in
    if is_refused link type
    then (if is_command address then send_u_answer type_dm link else link)
    else (if type == type_sabm || type == type_snrm
        then on_set_mode now link
        else (if type == type_disc
            then on_disc link
            else (if type == type_rset
                then on_rset link
                else (if type == type_frmr
                    then on_frmr link
                    else (if type == type_ua
                        then on_ua now link
                        else (if type == type_dm
                            then switch_to_disconnected link
                            else (if type == type_ui then on_ui payload link else link)))))))
