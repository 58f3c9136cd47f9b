-- ===== src/Fd/ServiceQueue.antt =====
-- src/proto/fd/tiny_fd_service_queue.c: S- and U-frames wait in a table of their own.
use tinyproto.Prelude.{ℕ, ◌+◌, ◌/◌, true, Option, none, some, List, if◌then◌else◌, get_or}
use tinyproto.Fd.FramesQueue.{
  FrameInfo, FrameType, s_frame, u_frame, type_value, FdQueue, update, queue_allocate,
  queue_get_next,
}
use tinyproto.Fd.Handle.{Fd, Link, FramePtr, s_slot, no_frame}
use tinyproto.Fd.Control.{is_s_control}

abbrev pub with_header : ℕ → ℕ → FrameInfo → FrameInfo
with_header address control frame = record frame { address = address; control = control }

-- `__put_u_s_frame_to_tx_queue` after the allocation.
abbrev pub put_header : ℕ → ℕ → Option ℕ × FdQueue → Fd → Option ℕ × Fd
put_header address control (none, queue) fd = (none, fd)
put_header address control (some index, queue) fd = (
  some index,
  record fd {
    s_queue = update queue index (with_header address control);
    tx_data_available = true;
  },
)

-- The header is the first two bytes of the source's `data`, the payload is the rest.
unfoldable pub put_u_s_frame : FrameType → ℕ → ℕ → List ℕ → Fd → Option ℕ × Fd
put_u_s_frame type address control payload fd =
    put_header address control (queue_allocate fd.s_queue type payload) fd

-- A call whose result is not used.
unfoldable pub send_u_s_frame : FrameType → ℕ → ℕ → List ℕ → Link → Link
unfolding put_u_s_frame
send_u_s_frame type address control payload link = record link {
  fd = (put_u_s_frame type address control payload link.fd).1;
}

-- The frame that was found, and N(R) noted if it is an S-frame.
abbrev pub note_nr : Option ℕ → Link → Option FramePtr × Link
note_nr none link = (none, link)
note_nr (some index) link =
    let control = (get_or link.fd.s_queue.frames index no_frame).control in
    (
      some (s_slot index),
      if is_s_control control
          then record link { peer = record link.peer { sent_nr = control / 32 } }
          else link,
    )

unfoldable pub get_next_s_u_frame : ℕ → Link → Option FramePtr × Link
get_next_s_u_frame address link =
    note_nr (queue_get_next link.fd.s_queue (type_value s_frame + type_value u_frame) address 0)
      link
