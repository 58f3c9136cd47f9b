-- ===== src/Fd/IQueueControl/Returns.antt =====
-- The loops of src/proto/fd/tiny_fd_i_queue_control.c end for all numbers, also for those that no run of
-- the protocol has.
use tinyproto.Prelude.{
  ℕ, zero, suc, ◌+◌, ◌-◌, ◌%◌, ◌<◌, ◌≡◌, refl, Bool, not, Bool-cases, inl, inr, some, arith, ◌==◌,
  ◌>>=◌,
}
use tinyproto.Fd.IQueueControl.{
  IQueueControl, has_unconfirmed_frames, tx_full, move_to_previous_ns, confirm_loop,
  confirm_sent_frames, retransmit_loop,
}

-- Numbers of three bits.
pub record IsNumbers (control : IQueueControl) : Type 0 where
  pub last : control.last_ns < 8
  pub confirm : control.confirm_ns < 8
  pub next_s : control.next_ns < 8
  pub next_r : control.next_nr < 8

confirm_loop-returns {ℓ κ} :
    {S : Type ℓ} (P : S → Type κ) (fuel : ℕ) (cb : ℕ → S → Bool × S) (nr : ℕ)
    (control : IQueueControl) (s : S)
    → ((n : ℕ) (t : S) → P t → P (cb n t).1)
    → IsNumbers control
    → (control.last_ns + 8 - control.confirm_ns) % 8 < fuel
    → P s
    → (confirm : ℕ) × (s' : S) × (confirm_loop fuel cb nr control s
        ≡ some (record control { confirm_ns = confirm }, s'))
      × (confirm < 8)
      × P s'
unfolding confirm_loop has_unconfirmed_frames
confirm_loop-returns P zero cb nr control s keeps v h p = absurd (omega arith)
confirm_loop-returns P (suc fuel) cb nr control s keeps v h p =
    elim (Bool-cases (nr == control.confirm_ns)) [
      | inl e ↦ rw e (control.confirm_ns, s, refl, v.confirm, p)
      | inr e ↦ rw e (elim (Bool-cases (control.confirm_ns == control.last_ns)) [
        | inl all ↦ rw all (control.confirm_ns, s, refl, v.confirm, p)
        | inr some_left ↦ rw some_left (
            confirm_loop-returns P fuel cb nr
              (record control { confirm_ns = (control.confirm_ns + 1) % 8 })
              (cb control.confirm_ns s).1 keeps
              (record {
                last = v.last;
                confirm = omega arith;
                next_s = v.next_s;
                next_r = v.next_r;
              })
              (ground arith) (keeps control.confirm_ns s p))
      ])
    ]

-- `__i_queue_control_confirm_sent_frames` returns for every N(R) and all numbers of three bits; it
-- changes only `confirm_ns`, which keeps its three bits; and what each call of the callback keeps of its
-- state is kept.
pub confirm_sent_frames-returns {ℓ κ} :
    {S : Type ℓ} (P : S → Type κ) (cb : ℕ → S → Bool × S) (nr : ℕ) (control : IQueueControl) (s : S)
    → ((n : ℕ) (t : S) → P t → P (cb n t).1)
    → IsNumbers control
    → P s
    → (confirm : ℕ) × (s' : S) × (confirm_sent_frames cb nr control s
        ≡ some (
          not (tx_full (record control { confirm_ns = confirm })),
          record control { confirm_ns = confirm },
          s',
        ))
      × (confirm < 8)
      × P s'
unfolding confirm_sent_frames
confirm_sent_frames-returns P cb nr control s keeps v p =
    let (confirm, s', runs, small, kept) =
      confirm_loop-returns P 9 cb nr control s keeps v (ground arith) p in
    (confirm, s', rw (runs, ◌>>=◌) refl, small, kept)

retransmit_loop-returns :
    (fuel nr : ℕ) (control : IQueueControl)
    → IsNumbers control
    → (control.next_ns + 8 - control.confirm_ns) % 8 < fuel
    → (next : ℕ) × (retransmit_loop fuel nr control ≡ some (record control { next_ns = next }))
      × (next < 8)
unfolding retransmit_loop move_to_previous_ns
retransmit_loop-returns zero nr control v h = absurd (omega arith)
retransmit_loop-returns (suc fuel) nr control v h = elim (Bool-cases (control.next_ns == nr)) [
  | inl e ↦ rw e (control.next_ns, refl, v.next_s)
  | inr e ↦ rw e (elim (Bool-cases (control.confirm_ns == control.next_ns)) [
    | inl all ↦ rw all (control.next_ns, refl, v.next_s)
    | inr some_left ↦ rw some_left (
        retransmit_loop-returns fuel nr (record control { next_ns = (control.next_ns + 7) % 8 })
          (record { last = v.last; confirm = v.confirm; next_s = omega arith; next_r = v.next_r })
          (ground arith))
  ])
]

-- The loop that goes back to N(R) ends for every N(R) and all numbers of three bits.
pub retransmit_returns :
    (nr : ℕ) (control : IQueueControl)
    → IsNumbers control
    → (next : ℕ) × (retransmit_loop 9 nr control ≡ some (record control { next_ns = next }))
      × (next < 8)
retransmit_returns nr control v = retransmit_loop-returns 9 nr control v (omega arith)
