-- ===== src/Fd/IQueueControl/Outside.antt =====
-- Numbers that name no frame of the window.
use tinyproto.Prelude.{
  ℕ, zero, suc, ◌+◌, ◌-◌, ◌%◌, ◌≤◌, ◌<◌, ◌≡◌, ◌≢◌, ◌∙◌, ap, Bool, true, some, arith,
}
use tinyproto.Fd.IQueueControl.{has_unconfirmed_frames, tx_full, confirm_loop, confirm_sent_frames}
use tinyproto.Fd.IQueueControl.Window.{Window, IsWindow, numbers}
use tinyproto.Fd.IQueueControl.Confirm.{confirm_each}

confirm_loop-outside {ℓ} :
    {S : Type ℓ} (fuel : ℕ) (cb : ℕ → S → Bool × S) (w : Window) (nr count : ℕ) (s : S)
    → count < fuel
    → w.queued ≡ w.confirmed + count
    → count ≤ 7
    → ((k : ℕ) → k ≤ count → nr ≢ (w.confirmed + k) % 8)
    → confirm_loop fuel cb nr (numbers w) s
      ≡ some (numbers (record w { confirmed = w.queued }), confirm_each cb w.confirmed count s)
unfolding confirm_loop confirm_each has_unconfirmed_frames
confirm_loop-outside zero cb w nr count s h e l apart = absurd (omega arith)
confirm_loop-outside (suc fuel) cb w nr zero s h e l apart = ground (arith, apart 0)
confirm_loop-outside (suc fuel) cb w nr (suc count) s h e l apart =
    let next = record w { confirmed = w.confirmed + 1 } in
    let rest =
      confirm_loop-outside fuel cb next nr count (cb (w.confirmed % 8) s).1 (omega arith)
        (omega arith) (omega arith)
        (λ k p q.
          apart (k + 1) (omega arith)
            (q ∙ ap (λ n. n % 8) {y = w.confirmed + (k + 1)} (omega arith))) in
    ground (arith, apart 0, rest)

-- An acknowledgement N(R) that names no frame from the first that is not acknowledged to the next
-- free one: `__i_queue_control_confirm_sent_frames` still returns, but it takes all queued frames for
-- acknowledged, those that were never sent included.
pub confirm_outside {ℓ} :
    {S : Type ℓ} (cb : ℕ → S → Bool × S) (w : Window) (nr : ℕ) (s : S)
    → IsWindow w
    → ((k : ℕ) → k ≤ w.queued - w.confirmed → nr ≢ (w.confirmed + k) % 8)
    → confirm_sent_frames cb nr (numbers w) s
      ≡ some (
        true,
        numbers (record w { confirmed = w.queued }),
        confirm_each cb w.confirmed (w.queued - w.confirmed) s,
      )
unfolding confirm_sent_frames tx_full
confirm_outside cb w nr s v apart =
    let runs =
      confirm_loop-outside 9 cb w nr (w.queued - w.confirmed) s (ground arith) (ground arith)
        (ground arith) apart in
    ground (arith, runs)
