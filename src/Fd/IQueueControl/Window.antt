-- ===== src/Fd/IQueueControl/Window.antt =====
-- The window of frames that stands behind the numbers modulo 8.
use tinyproto.Prelude.{ℕ, ◌+◌, ◌-◌, ◌%◌, ◌≤◌, ◌<◌, ◌≡◌, ◌↔◌, true, arith}
use tinyproto.Fd.IQueueControl.{
  IQueueControl, has_unconfirmed_frames, all_frames_are_sent, tx_full, move_to_previous_ns,
}

-- Frames are counted from the start of the connection: `confirmed` are acknowledged, `sent` are
-- sent, `queued` are accepted from the user, `received` have come from the peer.
pub record Window : Type 0 where
  pub confirmed : ℕ
  pub sent : ℕ
  pub queued : ℕ
  pub received : ℕ

-- At most 7 frames wait for their acknowledgement.
pub record IsWindow (w : Window) : Type 0 where
  pub acknowledged : w.confirmed ≤ w.sent
  pub transmitted : w.sent ≤ w.queued
  pub limited : w.queued ≤ w.confirmed + 7

-- The numbers that stand for a window.
abbrev pub numbers : Window → IQueueControl
numbers w = record {
  last_ns = w.queued % 8;
  confirm_ns = w.confirmed % 8;
  next_ns = w.sent % 8;
  next_nr = w.received % 8;
}

pub has_unconfirmed-numbers :
    (w : Window)
    → IsWindow w
    → (has_unconfirmed_frames (numbers w) ≡ true) ↔ (w.confirmed < w.queued)
unfolding has_unconfirmed_frames
has_unconfirmed-numbers w v = ground arith

pub all_sent-numbers :
    (w : Window) → IsWindow w → (all_frames_are_sent (numbers w) ≡ true) ↔ (w.sent ≡ w.queued)
unfolding all_frames_are_sent
all_sent-numbers w v = ground arith

pub tx_full-numbers :
    (w : Window) → IsWindow w → (tx_full (numbers w) ≡ true) ↔ (w.queued ≡ w.confirmed + 7)
unfolding tx_full
tx_full-numbers w v = ground arith

pub previous-numbers :
    (w : Window)
    → 0 < w.sent
    → move_to_previous_ns (numbers w) ≡ numbers (record w { sent = w.sent - 1 })
unfolding move_to_previous_ns
previous-numbers w h = ground arith
