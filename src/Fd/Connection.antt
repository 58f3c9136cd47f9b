-- ===== src/Fd/Connection.antt =====
-- The two ends of a connection: `__switch_to_connected_state` and `__switch_to_disconnected_state` of
-- src/proto/fd/tiny_fd.c.
use tinyproto.Prelude.{ℕ, ◌||◌, Bool, true, false, if◌then◌else◌}
use tinyproto.Fd.FramesQueue.{queue_reset_for, queue_has_free_slots}
use tinyproto.Fd.IQueueControl.{reset_i_queue_control}
use tinyproto.Fd.Handle.{
  Fd, FdState, connected, disconnected, disconnecting, connecting, FdPeer, Link, connect_event,
  peer_address, user_address, call_user,
}

abbrev pub is_connected : FdState → Bool
is_connected connected = true
is_connected _ = false

abbrev pub is_disconnected : FdState → Bool
is_disconnected disconnected = true
is_disconnected _ = false

abbrev pub is_connecting : FdState → Bool
is_connecting connecting = true
is_connecting _ = false

abbrev pub is_disconnecting : FdState → Bool
is_disconnecting disconnecting = true
is_disconnecting _ = false

-- What both do to the numbers of the peer.
abbrev pub reset_numbers : FdPeer → FdPeer
reset_numbers peer = record peer {
  i_queue_control = reset_i_queue_control;
  sent_nr = 0;
  sent_reject = false;
  srej_req_mask = 0;
}

-- `tiny_fd_queue_reset_for` on the I-frames of the peer.
abbrev pub drop_i_frames : Link → Link
drop_i_frames link = record link {
  fd = record link.fd { i_queue = queue_reset_for link.fd.i_queue (peer_address link) };
}

abbrev pub connect_peer : ℕ → FdPeer → FdPeer
connect_peer now peer = record (reset_numbers peer) {
  state = connected;
  last_received_frame_ts = now;
  last_sent_frame_ts = now;
  can_accept_i_frames = true;
}

abbrev pub wake_sender : Fd → Fd
wake_sender fd = record fd {
  tx_data_available = true;
  queue_has_free_slots = queue_has_free_slots fd.i_queue || fd.queue_has_free_slots;
}

unfoldable pub switch_to_connected : ℕ → Link → Link
switch_to_connected now link =
    let dropped = drop_i_frames link in
    let opened : Link = record { fd = wake_sender dropped.fd; peer = connect_peer now link.peer } in
    if is_connected link.peer.state
    then link
    else call_user link.fd.on_connect_event_cb (connect_event (user_address link) true) opened

abbrev pub disconnect_peer : FdPeer → FdPeer
disconnect_peer peer = record (reset_numbers peer) {
  state = disconnected;
  can_accept_i_frames = false;
}

unfoldable pub switch_to_disconnected : Link → Link
switch_to_disconnected link =
    let dropped = drop_i_frames link in
    let closed = record dropped { peer = disconnect_peer link.peer } in
    if is_disconnected link.peer.state
    then link
    else call_user link.fd.on_connect_event_cb (connect_event (user_address link) false) closed
