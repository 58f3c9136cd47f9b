-- ===== src/Fd/Delivery.antt =====
-- What the user gets of the I-frames that come: `__on_i_frame_read` of src/proto/fd/tiny_fd_on_rx_int.h
-- against the stream of packets that the other station sends.
pub mod Frames
pub mod Stream
use tinyproto.Prelude.{
  ℕ, zero, suc, ◌+◌, ◌*◌, ◌/◌, ◌%◌, ◌<◌, ◌≡◌, ◌≢◌, ◌∙◌, refl, sym, ap, subst, Bool, true, false,
  Option, none, some, List, [], ◌∷◌, ◌++◌, append-nil, append_assoc, arith, not, ◌&&◌, ◌==◌,
  if◌then◌else◌, Bool-cases, inl, inr, ==_refl, ==_ne,
}
use tinyproto.Fd.FramesQueue.{FrameType, s_frame, u_frame, FdQueue, queue_allocate}
use tinyproto.Fd.IQueueControl.{IQueueControl, all_frames_are_sent, move_to_next_frame_to_receive}
use tinyproto.Fd.IQueueControl.Returns.{retransmit_returns, confirm_sent_frames-returns}
use tinyproto.Fd.Handle.{
  Fd, Link, UserCall, read, read_ui, sent, connect_event, call_user, user_address, peer_address,
}
use tinyproto.Fd.ServiceQueue.{put_header, put_u_s_frame, send_u_s_frame}
use tinyproto.Fd.Control.{u_control, type_frmr, type_rej, type_rr, type_rnr, s_type, is_command}
use tinyproto.Fd.Confirm.{
  with_control, resend_all_unconfirmed_frames, confirm_slot, on_frame_confirmed, confirm_frames,
}
use tinyproto.Fd.OnRx.{
  take_next, send_rr, send_rej, check_received_frame, accept_i_frame, after_check, on_i_frame_read,
  on_s_frame_read, p_bit_of,
}
use tinyproto.Fd.Invariant.{IsOpen, if_keeps}
use tinyproto.Fd.Invariant.Steps.Exchange.{
  send_rej-IsOpen, taken-IsOpen, confirm_frames-IsOpen, on_i_frame_read-IsOpen,
}

-- The payloads that `on_read_cb` is called with.
unfoldable pub reads : List UserCall → List (List ℕ)
reads [] = []
reads (read address payload ∷ calls) = payload ∷ reads calls
reads (read_ui address payload ∷ calls) = reads calls
reads (sent address payload ∷ calls) = reads calls
reads (connect_event address value ∷ calls) = reads calls

pub reads-append : (xs ys : List UserCall) → reads (xs ++ ys) ≡ reads xs ++ reads ys
unfolding reads
reads-append [] ys = refl
reads-append (read address payload ∷ xs) ys = ap (λ r. payload ∷ r) (reads-append xs ys)
reads-append (read_ui address payload ∷ xs) ys = reads-append xs ys
reads-append (sent address payload ∷ xs) ys = reads-append xs ys
reads-append (connect_event address value ∷ xs) ys = reads-append xs ys

-- The user has got `payloads`, and frame `nr` is expected.
pub record Listens (link : Link) (payloads : List (List ℕ)) (nr : ℕ) : Type 0 where
  pub got : reads link.fd.calls ≡ payloads
  pub expects : link.peer.i_queue_control.next_nr ≡ nr
  pub listens : link.fd.on_read_cb ≡ true

-- A frame on the service queue changes only that queue and wakes the sender.
pub put_header-shape :
    (address control : ℕ) (put : Option ℕ × FdQueue) (fd : Fd)
    → (queue : FdQueue) × (wakes : Bool) × ((put_header address control put fd).1
        ≡ record fd { s_queue = queue; tx_data_available = wakes })
put_header-shape address control (none, queue) fd = (fd.s_queue, fd.tx_data_available, refl)
put_header-shape address control (some index, queue) fd = (_, true, refl)

pub send_u_s-Listens :
    (type : FrameType) (address control : ℕ) (bytes : List ℕ) (link : Link)
    {payloads : List (List ℕ)} {nr : ℕ}
    → Listens link payloads nr
    → Listens (send_u_s_frame type address control bytes link) payloads nr
unfolding send_u_s_frame put_u_s_frame
send_u_s-Listens type address control bytes link {payloads} {nr} h =
    let (queue, wakes, e) =
      put_header-shape address control (queue_allocate link.fd.s_queue type bytes) link.fd in
    subst (λ (f : Fd). Listens (record link { fd = f }) payloads nr) (sym e)
      (record { got = h.got; expects = h.expects; listens = h.listens })

call_sent-Listens :
    (b : Bool) (address : ℕ) (bytes : List ℕ) (link : Link) {payloads : List (List ℕ)} {nr : ℕ}
    → Listens link payloads nr
    → Listens (call_user b (sent address bytes) link) payloads nr
unfolding reads
call_sent-Listens true address bytes link h = record {
  got =
      reads-append link.fd.calls (sent address bytes ∷ [])
      ∙ append-nil (reads link.fd.calls)
      ∙ h.got;
  expects = h.expects;
  listens = h.listens;
}
call_sent-Listens false address bytes link h = h

-- The callback for a frame that is acknowledged delivers nothing.
confirm_slot-Listens :
    (found : Option ℕ) (link : Link) {payloads : List (List ℕ)} {nr : ℕ}
    → Listens link payloads nr
    → Listens (confirm_slot found link).1 payloads nr
confirm_slot-Listens none link h = record { got = h.got; expects = h.expects; listens = h.listens }
confirm_slot-Listens (some index) link h =
    let told = call_sent-Listens link.fd.on_send_cb (user_address link) _ link h in
    record { got = told.got; expects = told.expects; listens = told.listens }

on_frame_confirmed-Listens :
    (nr : ℕ) (link : Link) {payloads : List (List ℕ)} {expected : ℕ}
    → Listens link payloads expected
    → Listens (on_frame_confirmed nr link).1 payloads expected
unfolding on_frame_confirmed
on_frame_confirmed-Listens nr link h = confirm_slot-Listens _ link h

pub confirm_frames-Listens :
    (nr : ℕ) (link : Link) {payloads : List (List ℕ)} {expected : ℕ}
    → IsOpen link
    → Listens link payloads expected
    → Listens (confirm_frames nr link) payloads expected
unfolding confirm_frames
confirm_frames-Listens nr link {payloads} {expected} o h =
    let (confirm, link', runs, small, h') =
      confirm_sent_frames-returns (λ l. Listens l payloads expected) on_frame_confirmed nr
        link.peer.i_queue_control link (λ n l k. on_frame_confirmed-Listens n l k) o.numbers h in
    rw runs (record { got = h'.got; expects = h.expects; listens = h'.listens })
