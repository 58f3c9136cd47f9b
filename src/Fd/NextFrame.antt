-- ===== src/Fd/NextFrame.antt =====
-- The choice of the next frame: `tiny_fd_get_next_i_frame` and `tiny_fd_get_next_frame_to_send` of
-- src/proto/fd/tiny_fd.c.
use tinyproto.Prelude.{
  ℕ, zero, suc, ◌+◌, ◌-◌, ◌/◌, ◌%◌, ◌^◌, Bool, true, not, ◌&&◌, ◌||◌, Option, none, some, List, [],
  ◌∷◌, take, ◌==◌, if◌then◌else◌,
}
use tinyproto.Fd.FramesQueue.{FrameInfo, type_value, i_frame, s_frame, queue_get_next}
use tinyproto.Fd.IQueueControl.{all_frames_are_sent, move_to_next_ns}
use tinyproto.Fd.Control.{
  u_control, s_control, type_snrm, type_rr, with_nr, with_p, is_i_control, is_u_control,
}
use tinyproto.Fd.Handle.{Link, FramePtr, i_slot, peer_address, is_primary, frame_at, change_frame}
use tinyproto.Fd.ServiceQueue.{get_next_s_u_frame, send_u_s_frame}
use tinyproto.Fd.Connection.{is_disconnected, is_connecting}
use tinyproto.Fd.OnFrame.{is_nrm}

-- The loop over the bits of `srej_req_mask`, with `n` more to test from `i` on: the first that is
-- set.
pub first_request : ℕ → ℕ → ℕ → Option ℕ
first_request zero i mask = none
first_request (suc n) i mask =
    let more = first_request n (i + 1) mask in if mask / 2 ^ i % 2 == 1 then some i else more

-- N(R) goes into the header of the frame that is sent.
abbrev pub stamp_i_frame : ℕ → ℕ → Link → Link
stamp_i_frame now index link =
    let nr = link.peer.i_queue_control.next_nr in
    record {
      fd =
          change_frame (i_slot index)
            (λ (frame : FrameInfo). record frame { control = with_nr nr frame.control }) link.fd;
      peer = record link.peer { sent_nr = nr; last_sent_i_ts = now };
    }

abbrev pub found_i_frame : ℕ → Option ℕ → Link → Option FramePtr × Link
found_i_frame now none link = (none, link)
found_i_frame now (some index) link = (some (i_slot index), stamp_i_frame now index link)

abbrev pub clear_request : ℕ → Link → Link
clear_request nr link = record link {
  peer = record link.peer { srej_req_mask = link.peer.srej_req_mask - 2 ^ nr };
}

-- The frame that was asked for again, which is no longer asked for then.
abbrev pub resend_requested : ℕ → ℕ → Option ℕ → Link → Option FramePtr × Link
resend_requested now address none link = (none, link)
resend_requested now address (some nr) link =
    found_i_frame now (queue_get_next link.fd.i_queue (type_value i_frame) address nr)
      (clear_request nr link)

abbrev pub advance : Option FramePtr × Link → Option FramePtr × Link
advance (none, link) = (none, link)
advance (some ptr, link) = (
  some ptr,
  record link {
    peer = record link.peer { i_queue_control = move_to_next_ns link.peer.i_queue_control };
  },
)

unfoldable pub get_next_i_frame : ℕ → ℕ → Link → Option FramePtr × Link
get_next_i_frame now address link =
    if is_disconnected link.peer.state || is_connecting link.peer.state
    then (none, link)
    else (if not (link.peer.srej_req_mask == 0)
        then resend_requested now address (first_request 8 0 link.peer.srej_req_mask) link
        else advance (
            found_i_frame now
              (queue_get_next link.fd.i_queue (type_value i_frame) address
                link.peer.i_queue_control.next_ns)
              link))

-- In NRM mode a station with nothing to send hands the marker on by SNRM or RR.
abbrev pub put_marker_frame : ℕ → Link → Link
put_marker_frame address link =
    if is_primary link.fd && (is_disconnected link.peer.state || is_connecting link.peer.state)
    then send_u_s_frame s_frame (address + 2) (u_control type_snrm) [] link
    else send_u_s_frame s_frame address (s_control type_rr link.peer.i_queue_control.next_nr) []
        link

abbrev pub or_i_frame : ℕ → ℕ → Option FramePtr × Link → Option FramePtr × Link
or_i_frame now address (some ptr, link) = (some ptr, link)
or_i_frame now address (none, link) = get_next_i_frame now address link

abbrev pub or_marker_frame : ℕ → Option FramePtr × Link → Option FramePtr × Link
or_marker_frame address (some ptr, link) = (some ptr, link)
or_marker_frame address (none, link) =
    if is_nrm link.fd.mode
    then get_next_s_u_frame address (put_marker_frame address link)
    else (none, link)

-- Whether the P/F bit is set: in NRM mode on the last frame, in the others on U-frames.
abbrev pub sets_p : Link → ℕ → Bool
sets_p link control =
    if is_nrm link.fd.mode
    then (if is_i_control control then all_frames_are_sent link.peer.i_queue_control else true)
    else is_u_control control

abbrev pub mark_frame : FramePtr → Link → Link
mark_frame ptr link =
    if sets_p link (frame_at link.fd ptr).control
    then record link {
      fd =
          change_frame ptr (λ (frame : FrameInfo). record frame { control = with_p frame.control })
            link.fd;
    }
    else link

abbrev pub note_sending : ℕ → Link → Link
note_sending now link = record {
  fd = record link.fd { last_marker_ts = now };
  peer = record link.peer { last_sent_frame_ts = now };
}

abbrev pub finish_frame : ℕ → Option FramePtr × Link → Option FramePtr × Link
finish_frame now (none, link) = (none, link)
finish_frame now (some ptr, link) = (some ptr, note_sending now (mark_frame ptr link))

unfoldable pub get_next_frame : ℕ → Link → Option FramePtr × Link
get_next_frame now link =
    let address = peer_address link in
    finish_frame now
      (or_marker_frame address (or_i_frame now address (get_next_s_u_frame address link)))

-- The bytes from the header on, `len` of the payload and two of the header.
abbrev pub frame_bytes : FrameInfo → List ℕ
frame_bytes frame = frame.address ∷ frame.control ∷ take frame.len frame.payload
