-- ===== src/Fd/Delivery/Frames.antt =====
-- `__on_i_frame_read` and `__on_s_frame_read` of src/proto/fd/tiny_fd_on_rx_int.h, and what they deliver.
use tinyproto.Prelude.{
  ℕ, ◌+◌, ◌*◌, ◌/◌, ◌%◌, ◌≡◌, ◌≢◌, ◌∙◌, refl, sym, ap, subst, Bool, true, false, List, [], ◌∷◌,
  ◌++◌, not, ◌&&◌, ◌==◌, ==_refl, ==_ne,
}
use tinyproto.Fd.FramesQueue.{s_frame, u_frame}
use tinyproto.Fd.IQueueControl.{all_frames_are_sent, move_to_next_frame_to_receive}
use tinyproto.Fd.IQueueControl.Returns.{retransmit_returns}
use tinyproto.Fd.Handle.{Link, read, call_user, user_address, peer_address}
use tinyproto.Fd.Control.{u_control, type_frmr, type_rej, type_rr, type_rnr, s_type, is_command}
use tinyproto.Fd.Confirm.{with_control, resend_all_unconfirmed_frames, confirm_frames}
use tinyproto.Fd.OnRx.{
  send_rr, check_received_frame, accept_i_frame, after_check, on_i_frame_read, on_s_frame_read,
  p_bit_of,
}
use tinyproto.Fd.Invariant.{IsOpen, if_keeps}
use tinyproto.Fd.Invariant.Steps.Exchange.{check_received-IsOpen, confirm_frames-IsOpen}
use tinyproto.Fd.Delivery.{reads, reads-append, Listens, send_u_s-Listens, confirm_frames-Listens}

-- A frame that is not expected, also after a rejection.
check_refused :
    (ns : ℕ) (link : Link) {payloads : List (List ℕ)} {expected : ℕ}
    → (ns == link.peer.i_queue_control.next_nr) ≡ false
    → Listens link payloads expected
    → let r = check_received_frame ns link in (r.0 ≡ false) × Listens r.1 payloads expected
unfolding check_received_frame
check_refused ns link {payloads} {expected} other h = rw other (
    if_keeps (λ (r : Bool × Link). (r.0 ≡ false) × Listens r.1 payloads expected)
      link.peer.sent_reject (λ e. (refl, h))
      (λ e. (
        refl,
        send_u_s-Listens s_frame _ _ _
            (record link { peer = record link.peer { sent_reject = true } })
            (record { got = h.got; expects = h.expects; listens = h.listens }),
      )))

check_accepted :
    (ns : ℕ) (link : Link) {payloads : List (List ℕ)}
    → (ns == link.peer.i_queue_control.next_nr) ≡ true
    → Listens link payloads ns
    → let r = check_received_frame ns link in (r.0 ≡ true) × Listens r.1 payloads ((ns + 1) % 8)
unfolding check_received_frame move_to_next_frame_to_receive
check_accepted ns link this h = rw this (
  refl,
  record { got = h.got; expects = ap (λ (n : ℕ). (n + 1) % 8) h.expects; listens = h.listens },
)

after_refused-Listens :
    (control : ℕ) (payload : List ℕ) (r : Bool × Link) {payloads : List (List ℕ)} {expected : ℕ}
    → r.0 ≡ false
    → IsOpen r.1
    → Listens r.1 payloads expected
    → Listens (after_check control payload r) payloads expected
after_refused-Listens control payload (true, link) e o h = absurd (cc e)
after_refused-Listens control payload (false, link) e o h =
    confirm_frames-Listens (control / 32) link o h

call_read-Listens :
    (address : ℕ) (bytes : List ℕ) (link : Link) {payloads : List (List ℕ)} {nr : ℕ}
    → Listens link payloads nr
    → Listens (call_user link.fd.on_read_cb (read address bytes) link) (payloads ++ bytes ∷ []) nr
unfolding reads
call_read-Listens address bytes link {payloads} {nr} h =
    subst
      (λ (b : Bool). Listens (call_user b (read address bytes) link) (payloads ++ bytes ∷ []) nr)
      (sym h.listens)
      (record {
        got =
            reads-append link.fd.calls (read address bytes ∷ []) ∙ ap (λ r. r ++ bytes ∷ []) h.got;
        expects = h.expects;
        listens = h.listens;
      })

send_rr-Listens :
    (p_bit : ℕ) (link : Link) {payloads : List (List ℕ)} {nr : ℕ}
    → Listens link payloads nr
    → Listens (send_rr p_bit link) payloads nr
send_rr-Listens p_bit link h = send_u_s-Listens s_frame _ _ _ link h

accept-Listens :
    (payload : List ℕ) (link : Link) {payloads : List (List ℕ)} {nr : ℕ}
    → Listens link payloads nr
    → Listens (accept_i_frame payload link) (payloads ++ payload ∷ []) nr
accept-Listens payload link {payloads} {nr} h =
    let told = call_user link.fd.on_read_cb (read (user_address link) payload) link in
    let heard = call_read-Listens (user_address link) payload link h in
    if_keeps (λ (l : Link). Listens l (payloads ++ payload ∷ []) nr)
      (all_frames_are_sent told.peer.i_queue_control
        && not (told.peer.sent_nr == told.peer.i_queue_control.next_nr))
      (λ e. send_rr-Listens 0 told heard) (λ e. heard)

after_accepted-Listens :
    (control : ℕ) (payload : List ℕ) (r : Bool × Link) {payloads : List (List ℕ)} {expected : ℕ}
    → r.0 ≡ true
    → IsOpen r.1
    → Listens r.1 payloads expected
    → Listens (after_check control payload r) (payloads ++ payload ∷ []) expected
after_accepted-Listens control payload (false, link) e o h = absurd (cc e)
after_accepted-Listens control payload (true, link) e o h =
    accept-Listens payload (confirm_frames (control / 32) link)
      (confirm_frames-Listens (control / 32) link o h)

-- A frame that is not expected delivers nothing, and the same frame stays expected.
pub refused-Listens :
    (control : ℕ) (payload : List ℕ) (link : Link) {payloads : List (List ℕ)} {expected : ℕ}
    → IsOpen link
    → control / 2 % 8 ≢ expected
    → Listens link payloads expected
    → Listens (on_i_frame_read control payload link) payloads expected
unfolding on_i_frame_read
refused-Listens control payload link o other h =
    let ns = control / 2 % 8 in
    let (e, h') = check_refused ns link (==_ne ns _ (λ same. other (same ∙ h.expects))) h in
    after_refused-Listens control payload _ e (check_received-IsOpen ns link o) h'

-- The frame that is expected delivers its payload, and the next one is expected then.
pub accepted-Listens :
    (control : ℕ) (payload : List ℕ) (link : Link) {payloads : List (List ℕ)}
    → IsOpen link
    → Listens link payloads (control / 2 % 8)
    → Listens
        (on_i_frame_read control payload link)
        (payloads ++ payload ∷ [])
        ((control / 2 % 8 + 1) % 8)
unfolding on_i_frame_read
accepted-Listens control payload link o h =
    let ns = control / 2 % 8 in
    let (e, h') = check_accepted ns link (ap (λ n. ns == n) h.expects ∙ ==_refl ns) h in
    after_accepted-Listens control payload _ e (check_received-IsOpen ns link o) h'

resend-Listens :
    (rejected nr : ℕ) (link : Link) {payloads : List (List ℕ)} {expected : ℕ}
    → IsOpen link
    → Listens link payloads expected
    → Listens (resend_all_unconfirmed_frames rejected nr link) payloads expected
unfolding resend_all_unconfirmed_frames
resend-Listens rejected nr link {payloads} {expected} o h =
    let (next, runs, small) = retransmit_returns nr link.peer.i_queue_control o.numbers in
    let moved = with_control (record link.peer.i_queue_control { next_ns = next }) link in
    let kept : Listens moved payloads expected = record {
      got = h.got;
      expects = h.expects;
      listens = h.listens;
    } in
    let done =
      if_keeps (λ (l : Link). Listens l payloads expected) (next == nr) (λ e. kept)
        (λ e.
          send_u_s-Listens u_frame (peer_address moved + 2) (u_control type_frmr)
            (rejected ∷ (moved.peer.i_queue_control.next_nr * 32 + next * 2) ∷ []) moved kept) in
    rw runs (record { got = done.got; expects = done.expects; listens = done.listens })

-- An S-frame delivers nothing.
pub on_s_frame_read-Listens :
    (address control : ℕ) (link : Link) {payloads : List (List ℕ)} {expected : ℕ}
    → IsOpen link
    → Listens link payloads expected
    → Listens (on_s_frame_read address control link) payloads expected
unfolding on_s_frame_read
on_s_frame_read-Listens address control link {payloads} {expected} o h =
    let nr = control / 32 in
    let confirmed = confirm_frames nr link in
    let c = confirm_frames-Listens nr link o h in
    if_keeps (λ (l : Link). Listens l payloads expected) (s_type control == type_rej)
      (λ e. resend-Listens control nr confirmed (confirm_frames-IsOpen nr link o) c)
      (λ e.
        if_keeps (λ (l : Link). Listens l payloads expected) (s_type control == type_rr)
          (λ e.
            if_keeps (λ (l : Link). Listens l payloads expected)
              (is_command address && all_frames_are_sent confirmed.peer.i_queue_control)
              (λ e. send_rr-Listens (p_bit_of control) confirmed c) (λ e. c))
          (λ e.
            if_keeps (λ (l : Link). Listens l payloads expected) (s_type control == type_rnr)
              (λ e. c) (λ e. record { got = c.got; expects = c.expects; listens = c.listens })))
