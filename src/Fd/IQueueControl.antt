-- ===== src/Fd/IQueueControl.antt =====
-- src/proto/fd/tiny_fd_i_queue_control.c: the sequence numbers of the I-frames. `seq_bits_mask` is 7,
-- so that `& seq_bits_mask` is `% 8`; `(n - 1) & seq_bits_mask` of a uint8_t is `(n + 7) % 8`.
pub mod Window
pub mod Confirm
pub mod Outside
pub mod Events
pub mod Returns
use tinyproto.Prelude.{
  ℕ, zero, suc, ◌+◌, ◌%◌, Bool, true, false, not, Option, none, some, ◌==◌, if◌then◌else◌, ◌>>=◌,
}

-- `i_queue_control_t`.
pub record IQueueControl : Type 0 where
  pub last_ns : ℕ
  pub confirm_ns : ℕ
  pub next_ns : ℕ
  pub next_nr : ℕ

unfoldable pub has_unconfirmed_frames : IQueueControl → Bool
has_unconfirmed_frames control = not (control.confirm_ns == control.last_ns)

unfoldable pub all_frames_are_sent : IQueueControl → Bool
all_frames_are_sent control = control.last_ns == control.next_ns

unfoldable pub tx_full : IQueueControl → Bool
tx_full control = (control.last_ns + 1) % 8 == control.confirm_ns

unfoldable pub move_to_next_ns : IQueueControl → IQueueControl
move_to_next_ns control = record control { next_ns = (control.next_ns + 1) % 8 }

unfoldable pub move_to_previous_ns : IQueueControl → IQueueControl
move_to_previous_ns control = record control { next_ns = (control.next_ns + 7) % 8 }

unfoldable pub move_to_next_frame_to_receive : IQueueControl → IQueueControl
move_to_next_frame_to_receive control = record control { next_nr = (control.next_nr + 1) % 8 }

-- The update of `last_ns` in `__put_i_frame_to_tx_queue`.
unfoldable pub move_last_ns : IQueueControl → IQueueControl
move_last_ns control = record control { last_ns = (control.last_ns + 1) % 8 }

unfoldable pub reset_i_queue_control : IQueueControl
reset_i_queue_control = record { last_ns = 0; confirm_ns = 0; next_ns = 0; next_nr = 0 }

-- The loop of `__i_queue_control_confirm_sent_frames`; the callback `cb` changes a state of its own,
-- and what it returns is only logged. `none` means that the fuel ran out.
pub confirm_loop {ℓ} :
    {S : Type ℓ} → ℕ → (ℕ → S → Bool × S) → ℕ → IQueueControl → S → Option (IQueueControl × S)
confirm_loop zero cb nr control s = none
confirm_loop (suc fuel) cb nr control s =
    let next = record control { confirm_ns = (control.confirm_ns + 1) % 8 } in
    let more = confirm_loop fuel cb nr next (cb control.confirm_ns s).1 in
    if nr == control.confirm_ns
    then some (control, s)
    else (if has_unconfirmed_frames control then more else some (control, s))

-- Whether new frames can be accepted, and the new states. There are 8 sequence numbers.
pub confirm_sent_frames {ℓ} :
    {S : Type ℓ} → (ℕ → S → Bool × S) → ℕ → IQueueControl → S → Option (Bool × IQueueControl × S)
confirm_sent_frames cb nr control s = do
  (control', s') ← confirm_loop 9 cb nr control s
  some (not (tx_full control'), control', s')

-- The loop of `__i_queue_control_restransmit_frame`.
pub retransmit_loop : ℕ → ℕ → IQueueControl → Option IQueueControl
retransmit_loop zero nr control = none
retransmit_loop (suc fuel) nr control =
    let more = retransmit_loop fuel nr (move_to_previous_ns control) in
    if control.next_ns == nr
    then some control
    else (if control.confirm_ns == control.next_ns then some control else more)

pub retransmit_frame : ℕ → IQueueControl → Option (Bool × IQueueControl)
retransmit_frame nr control = do control' ← retransmit_loop 9 nr control; some (false, control')
