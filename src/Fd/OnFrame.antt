-- ===== src/Fd/OnFrame.antt =====
-- The callbacks of the HDLC level in src/proto/fd/tiny_fd.c: `on_frame_read` for a frame that has come,
-- `on_frame_send` for one that has gone; and `tiny_fd_on_rx_data`.
use tinyproto.Prelude.{
  ℕ, Bool, true, false, not, ◌&&◌, ◌||◌, Option, none, some, List, [], ◌∷◌, length, drop, ◌==◌,
  if◌then◌else◌, ◌>>=◌,
}
use tinyproto.Hdlc.Rx.{Rx, tiny_fd_on_rx_data}
use tinyproto.Fd.FramesQueue.{queue_free_by_header}
use tinyproto.Fd.Peers.{
  Mode, mode_nrm, invalid_peer, address_field_to_peer, switch_to_next_peer, Station,
}
use tinyproto.Fd.Control.{has_p, is_i_control, is_s_control, is_u_control, type_dm}
use tinyproto.Fd.Handle.{
  Fd, FdState, Link, FramePtr, s_slot, i_slot, with_peer, station, is_primary, frame_at, hang,
  unless_hung,
}
use tinyproto.Fd.Connection.{is_connected, is_disconnecting}
use tinyproto.Fd.OnRx.{on_u_frame_read, on_i_frame_read, on_s_frame_read, send_u_answer}

abbrev pub is_nrm : Mode → Bool
is_nrm mode_nrm = true
is_nrm _ = false

abbrev pub note_arrival : ℕ → Link → Link
note_arrival now link = record link {
  peer = record link.peer { last_received_frame_ts = now; ka_confirmed = true };
}

abbrev pub may_exchange : FdState → Bool
may_exchange state = is_connected state || is_disconnecting state

-- The handler by the kind of the frame. Every control field is of one of the three kinds.
unfoldable pub dispatch : ℕ → ℕ → ℕ → List ℕ → Link → Link
dispatch now address control payload link =
    if is_u_control control
    then on_u_frame_read now address control payload link
    else (if not (may_exchange link.peer.state)
        then send_u_answer type_dm link
        else (if is_i_control control
            then on_i_frame_read control payload link
            else (if is_s_control control then on_s_frame_read address control link else link)))

-- In NRM mode the P/F bit hands over the marker.
abbrev pub capture_marker : ℕ → Fd → Fd
capture_marker control fd = record fd {
  has_marker = (is_nrm fd.mode && has_p control) || fd.has_marker;
}

unfoldable pub on_frame_read : ℕ → List ℕ → Fd → Fd
on_frame_read now (address ∷ control ∷ payload) fd =
    let peer = address_field_to_peer (station fd) address in
    let handled =
      with_peer peer (λ link. dispatch now address control payload (note_arrival now link)) fd in
    if peer == invalid_peer then fd else capture_marker control handled
on_frame_read now _ fd = fd

-- A pointer into the table of I-frames is the header of no S- or U-frame.
abbrev pub free_service : FramePtr → Fd → Fd
free_service (s_slot index) fd = record fd { s_queue = queue_free_by_header fd.s_queue index }
free_service (i_slot index) fd = fd

-- Where the fuel of `__switch_to_next_peer` ran out the handle hangs.
abbrev pub after_switch : Option (Bool × Station) → Fd → Fd
after_switch none fd = hang fd
after_switch (some (moved, next)) fd = record fd { next_peer = next.next_peer }

-- In NRM mode the marker goes with the P/F bit, and a primary station turns to the next peer.
abbrev pub release_marker : ℕ → Fd → Fd
release_marker control fd =
    let turned = after_switch (switch_to_next_peer (station fd)) fd in
    if is_nrm fd.mode && has_p control
    then record (if is_primary fd then turned else fd) { has_marker = false }
    else fd

abbrev pub sent_service : ℕ → FramePtr → Fd → Fd
sent_service control ptr fd = if is_i_control control then fd else free_service ptr fd

unfoldable pub on_frame_send : FramePtr → Fd → Fd
on_frame_send ptr fd =
    let frame = frame_at fd ptr in
    let peer = address_field_to_peer (station fd) frame.address in
    if peer == invalid_peer
    then fd
    else record (release_marker frame.control (sent_service frame.control ptr fd)) {
      tx_sending = false;
    }

unfoldable pub read_frames : ℕ → List (List ℕ) → Fd → Fd
read_frames now [] fd = fd
read_frames now (frame ∷ frames) fd = read_frames now frames (on_frame_read now frame fd)

-- The receiver of the HDLC level calls `on_frame_read` for each frame that it delivers, and
-- `on_frame_read` leaves it alone: so the frames are handled in their order, after the bytes.
abbrev pub after_rx : ℕ → Fd → Rx → Fd
after_rx now fd rx =
    read_frames now (drop (length fd.hdlc.rx.frames_read) rx.frames_read)
      (record fd { hdlc = record fd.hdlc { rx = rx } })

unfoldable pub fd_on_rx_data : ℕ → List ℕ → Fd → Option Fd
fd_on_rx_data now input fd =
    tiny_fd_on_rx_data fd.hdlc.crc_type fd.hdlc.rx input >>= λ rx. unless_hung (after_rx now fd rx)
