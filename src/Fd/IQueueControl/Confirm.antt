-- ===== src/Fd/IQueueControl/Confirm.antt =====
-- What an acknowledgement and a request to send again do to the window.
use tinyproto.Prelude.{ℕ, zero, suc, ◌+◌, ◌-◌, ◌%◌, ◌≤◌, ◌<◌, ◌≡◌, Bool, false, some, arith, ltb}
use tinyproto.Fd.IQueueControl.{
  has_unconfirmed_frames, tx_full, move_to_previous_ns, confirm_loop, confirm_sent_frames,
  retransmit_loop, retransmit_frame,
}
use tinyproto.Fd.IQueueControl.Window.{Window, IsWindow, numbers, previous-numbers}

-- The callback for `count` frames in a row from `frame` on.
unfoldable pub confirm_each {ℓ} : {S : Type ℓ} → (ℕ → S → Bool × S) → ℕ → ℕ → S → S
confirm_each cb frame zero s = s
confirm_each cb frame (suc count) s = confirm_each cb (frame + 1) count (cb (frame % 8) s).1

confirm_loop-numbers {ℓ} :
    {S : Type ℓ} (fuel : ℕ) (cb : ℕ → S → Bool × S) (w : Window) (count : ℕ) (s : S)
    → count < fuel
    → w.confirmed + count ≤ w.queued
    → w.queued ≤ w.confirmed + 7
    → confirm_loop fuel cb ((w.confirmed + count) % 8) (numbers w) s
      ≡ some (
        numbers (record w { confirmed = w.confirmed + count }),
        confirm_each cb w.confirmed count s,
      )
unfolding confirm_loop confirm_each has_unconfirmed_frames
confirm_loop-numbers zero cb w count s h r l = absurd (omega arith)
confirm_loop-numbers (suc fuel) cb w zero s h r l = ground arith
confirm_loop-numbers (suc fuel) cb w (suc count) s h r l = ground (
  arith,
  confirm_loop-numbers fuel cb (record w { confirmed = w.confirmed + 1 }) count
      (cb (w.confirmed % 8) s).1,
)

retransmit_loop-numbers :
    (fuel : ℕ) (w : Window) (count : ℕ)
    → count < fuel
    → w.confirmed + count ≤ w.sent
    → w.sent ≤ w.confirmed + 7
    → retransmit_loop fuel ((w.sent - count) % 8) (numbers w)
      ≡ some (numbers (record w { sent = w.sent - count }))
unfolding retransmit_loop move_to_previous_ns
retransmit_loop-numbers zero w count h r l = absurd (omega arith)
retransmit_loop-numbers (suc fuel) w zero h r l = ground arith
retransmit_loop-numbers (suc fuel) w (suc count) h r l =
    ground (
      arith,
      previous-numbers w,
      retransmit_loop-numbers fuel (record w { sent = w.sent - 1 }) count,
    )

-- An acknowledgement of frames that are sent: N(R) names the first frame that is not acknowledged.
-- `__i_queue_control_confirm_sent_frames` returns; it calls the callback once for each frame that
-- becomes acknowledged, in the order of sending, and for no other; the window starts at that frame;
-- and new frames are accepted if the window then has room.
pub confirm_refines {ℓ} :
    {S : Type ℓ} (cb : ℕ → S → Bool × S) (w : Window) (frame : ℕ) (s : S)
    → IsWindow w
    → w.confirmed ≤ frame
    → frame ≤ w.sent
    → let w' = record w { confirmed = frame } in
      (confirm_sent_frames cb (frame % 8) (numbers w) s
        ≡ some (
          ltb w.queued (frame + 7),
          numbers w',
          confirm_each cb w.confirmed (frame - w.confirmed) s,
        ))
      × IsWindow w'
unfolding confirm_sent_frames tx_full
confirm_refines cb w frame s v above below =
    let count = frame - w.confirmed in
    let runs = confirm_loop-numbers 9 cb w count s (ground arith) (ground arith) v.limited in
    let same : w.confirmed + count ≡ frame = omega arith in ground (arith, runs, same)

-- A request to send again from a frame of the window that is sent: sending goes back to it, and
-- the frames before it count as sent as before.
pub retransmit_refines :
    (w : Window) (frame : ℕ)
    → IsWindow w
    → w.confirmed ≤ frame
    → frame ≤ w.sent
    → let w' = record w { sent = frame } in
      (retransmit_frame (frame % 8) (numbers w) ≡ some (false, numbers w')) × IsWindow w'
unfolding retransmit_frame
retransmit_refines w frame v above below =
    let count = w.sent - frame in
    let runs = retransmit_loop-numbers 9 w count (ground arith) (ground arith) (ground arith) in
    let same : w.sent - count ≡ frame = omega arith in ground (arith, runs, same)
