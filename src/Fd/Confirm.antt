-- ===== src/Fd/Confirm.antt =====
-- src/proto/fd/tiny_fd_tx.c: acknowledged frames leave the table, the others are sent again.
use tinyproto.Prelude.{
  ℕ, ◌+◌, ◌*◌, Bool, true, false, Option, none, some, [], ◌∷◌, get_or, take, ◌==◌, ◌||◌,
  if◌then◌else◌,
}
use tinyproto.Fd.FramesQueue.{
  type_value, i_frame, u_frame, queue_get_next, queue_free_by_header, queue_has_free_slots,
}
use tinyproto.Fd.IQueueControl.{IQueueControl, confirm_sent_frames, retransmit_loop}
use tinyproto.Fd.Control.{u_control, type_frmr}
use tinyproto.Fd.Handle.{Link, sent, peer_address, user_address, call_user, no_frame, hang}
use tinyproto.Fd.ServiceQueue.{send_u_s_frame}

abbrev pub restore_retries : Link → Link
restore_retries link = record link { peer = record link.peer { retries = link.fd.retries } }

-- The slot is given back, and the users that wait for one are woken.
abbrev pub free_i_frame : ℕ → Link → Link
free_i_frame index link =
    let queue = queue_free_by_header link.fd.i_queue index in
    record link {
      fd = record link.fd {
        i_queue = queue;
        queue_has_free_slots = queue_has_free_slots queue || link.fd.queue_has_free_slots;
      };
    }

-- The body of `__on_frame_confirmed` after the search.
abbrev pub confirm_slot : Option ℕ → Link → Bool × Link
confirm_slot none link = (false, restore_retries link)
confirm_slot (some index) link =
    let slot = get_or link.fd.i_queue.frames index no_frame in
    let told =
      call_user link.fd.on_send_cb (sent (user_address link) (take slot.len slot.payload)) link in
    (true, restore_retries (free_i_frame index told))

-- The callback of the sequence numbers.
unfoldable pub on_frame_confirmed : ℕ → Link → Bool × Link
on_frame_confirmed nr link =
    confirm_slot (queue_get_next link.fd.i_queue (type_value i_frame) (peer_address link) nr) link

abbrev pub hang_link : Link → Link
hang_link link = record link { fd = hang link.fd }

-- The numbers of the peer change beside what the callback does. Where the fuel of the loop ran out the
-- handle hangs.
abbrev pub after_confirm : Option (Bool × IQueueControl × Link) → Link → Link
after_confirm none link = hang_link link
after_confirm (some (accepts, control, confirmed)) link = record confirmed {
  peer = record confirmed.peer {
    i_queue_control = control;
    can_accept_i_frames = accepts || confirmed.peer.can_accept_i_frames;
  };
}

unfoldable pub confirm_frames : ℕ → Link → Link
confirm_frames nr link =
    after_confirm (confirm_sent_frames on_frame_confirmed nr link.peer.i_queue_control link) link

abbrev pub with_control : IQueueControl → Link → Link
with_control control link = record link { peer = record link.peer { i_queue_control = control } }

abbrev pub request_tx : Link → Link
request_tx link = record link { fd = record link.fd { tx_data_available = true } }

-- After the loop of `__resend_all_unconfirmed_frames`, which is that of the sequence numbers: where
-- it stopped short of N(R) it has put an FRMR on the queue. Where its fuel ran out the handle hangs.
abbrev pub after_resend : ℕ → ℕ → Option IQueueControl → Link → Link
after_resend rejected nr none link = hang_link link
after_resend rejected nr (some control) link =
    let moved = with_control control link in
    let refused =
      send_u_s_frame u_frame (peer_address link + 2) (u_control type_frmr)
        (rejected ∷ (control.next_nr * 32 + control.next_ns * 2) ∷ []) moved in
    request_tx (if control.next_ns == nr then moved else refused)

unfoldable pub resend_all_unconfirmed_frames : ℕ → ℕ → Link → Link
resend_all_unconfirmed_frames rejected nr link =
    after_resend rejected nr (retransmit_loop 9 nr link.peer.i_queue_control) link
