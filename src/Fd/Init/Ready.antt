-- ===== src/Fd/Init/Ready.antt =====
-- A handle of src/proto/fd/tiny_fd.c that `tiny_fd_init` sets up satisfies the invariant of the handle.
use tinyproto.Prelude.{
  ℕ, zero, suc, ◌+◌, ◌-◌, ◌*◌, ◌≤◌, ◌<◌, ◌≡◌, ◌≢◌, ◌⊎◌, refl, ◌∙◌, ap, Bool-cases, inl, inr, subst,
  List, true, false, some, length, replicate, length-replicate, arith, ltb, ◌==◌,
}
use tinyproto.Crc.{crc_off}
use tinyproto.Hdlc.Bytes.{success}
use tinyproto.Hdlc.Init.{HdlcLl, hdlc_ll_init}
use tinyproto.Hdlc.Init.Ready.{IsInitial, init_aligned}
use tinyproto.Fd.FramesQueue.{FdQueue, queue_init}
use tinyproto.Fd.FramesQueue.Slots.{IsFdQueue}
use tinyproto.Fd.FramesQueue.Reset.{init-IsFdQueue}
use tinyproto.Fd.Handle.{Fd}
use tinyproto.Fd.Invariant.{IsFd, IsPeer, AllPeers, if_keeps}
use tinyproto.Fd.Init.{
  Sizes, FdInit, at_least_one, queue_bytes, u_queue_max_size, needed, with_mtu, choose_mtu,
  check_sizes, init_validate, zero_hdlc, read_zeros, hdlc_ll_ptr, hdlc_ll_size, buffer_end,
  hdlc_init, new_peer, new_fd, place, fd_init,
}
use tinyproto.Hdlc.Wire.{fcs_size}
use tinyproto.Fd.Invariant.Steps.Connect.{reset-IsNumbers}
use tinyproto.Fd.Init.Layout.{
  aligned_multiple, add_multiple, start_lem, IsAligned, start_multiple, room, i_at_multiple,
  needed-pos,
}

-- The arguments that `__tiny_fd_init_validate` accepts, but for HDLC_CRC_OFF as the check sum type: a
-- callback for packets, a buffer, 2 to 7 frames, a time-out, and an `mtu` or, where that is 0, a buffer
-- that leaves 2 bytes or more for each frame.
pub record IsAccepted (sizes : Sizes) (init : FdInit) : Type 0 where
  pub reads : init.on_read_cb ≡ true
  pub not_null : 0 < init.buffer
  pub window_least : 2 ≤ init.window_frames
  pub window_most : init.window_frames ≤ 7
  pub mtu : init.mtu ≡ 0 → 2 ≤ choose_mtu sizes init
  pub timeouts : (0 < init.retry_timeout) ⊎ (0 < init.send_timeout)
  pub crc : init.crc_type ≢ crc_off

-- Arguments with their `mtu`.
record IsUsable (init : FdInit) : Type 0 where
  not_null : 0 < init.buffer
  window_least : 2 ≤ init.window_frames
  mtu : 0 < init.mtu
  crc : init.crc_type ≢ crc_off

with_mtu-IsUsable :
    (sizes : Sizes) (init : FdInit) → IsAccepted sizes init → IsUsable (with_mtu sizes init)
with_mtu-IsUsable sizes init v =
    if_keeps IsUsable (init.mtu == 0)
      (λ e. record {
        not_null = v.not_null;
        window_least = v.window_least;
        mtu = omega (arith, v.mtu (ground (arith, e)));
        crc = v.crc;
      })
      (λ e. record {
        not_null = v.not_null;
        window_least = v.window_least;
        mtu = ground (arith, e);
        crc = v.crc;
      })

-- The tests that do not depend on the `mtu`.
checked :
    (sizes : Sizes) (init : FdInit)
    → 2 ≤ init.window_frames
    → init.window_frames ≤ 7
    → (0 < init.retry_timeout) ⊎ (0 < init.send_timeout)
    → needed sizes init ≤ init.buffer_size
    → check_sizes sizes init ≡ success
checked sizes init least most timeouts enough =
    let long : ltb init.buffer_size (needed sizes init) ≡ false = ground (arith, enough) in
    rw long (ground (arith, least, most, timeouts))

validated :
    (sizes : Sizes) (init : FdInit)
    → IsAccepted sizes init
    → IsAligned sizes (with_mtu sizes init)
    → init_validate sizes init ≡ success
unfolding init_validate
validated sizes init v a = elim (Bool-cases (init.mtu == 0)) [
  | inl none_given ↦
      let chosen = record init { mtu = choose_mtu sizes init } in
      let known : with_mtu sizes init ≡ chosen = rw none_given refl in
      let fits : IsAligned sizes chosen = subst (IsAligned sizes) known a in
      let pos = needed-pos fits in
      let least : ltb (choose_mtu sizes init) 2 ≡ false =
        ground (arith, v.mtu (ground (arith, none_given))) in
      let sized : (init.buffer_size == 0) ≡ false = ground (arith, pos, fits.enough) in
      let held : (init.buffer == 0) ≡ false = ground (arith, v.not_null) in
      simp (v.reads, held, sized, none_given, least)
        (checked sizes chosen v.window_least v.window_most v.timeouts fits.enough)
  | inr given ↦
      let known : with_mtu sizes init ≡ init = rw given refl in
      let fits : IsAligned sizes init = subst (IsAligned sizes) known a in
      let pos = needed-pos fits in
      let sized : (init.buffer_size == 0) ≡ false = ground (arith, pos, fits.enough) in
      let held : (init.buffer == 0) ≡ false = ground (arith, v.not_null) in
      simp (v.reads, held, sized, given)
        (checked sizes init v.window_least v.window_most v.timeouts fits.enough)
]

-- A table in shape with `count` slots of `mtu` bytes each.
record IsTable (count mtu : ℕ) (queue : FdQueue) : Type 0 where
  shape : IsFdQueue queue
  size : length queue.frames ≡ count
  same_mtu : queue.mtu ≡ mtu

-- A table in memory of zeros.
placed_queue :
    (pointer_size info_size room count mtu : ℕ)
    → 0 < count
    → 0 < mtu
    → (pointer_size + info_size + mtu) * count ≤ room
    → (slots : List ℕ) × (queue : FdQueue) × (queue_init pointer_size info_size read_zeros
          (replicate room 0)
          count
          mtu
        ≡ some ((pointer_size + info_size + mtu) * count, slots, queue))
      × IsTable count mtu queue
placed_queue pointer_size info_size room count mtu some_slots sized fits =
    let (used, slots, queue, runs, total, many, places, shape, size, same, held) =
      init-IsFdQueue pointer_size info_size read_zeros (replicate room 0) count mtu some_slots sized
        (grind (arith, fits, length-replicate {A = ℕ} room 0)) in
    (
      slots,
      queue,
      runs ∙ ap (λ (n : ℕ). some (n, slots, queue)) (grind (arith, total)),
      record { shape = shape; size = size; same_mtu = same },
    )

-- The peers are disconnected, and nothing of a connection is left.
new_peer-IsPeer : (init : FdInit) → IsPeer (new_peer init)
new_peer-IsPeer init = record {
  awake = refl;
  numbers = reset-IsNumbers;
  quiet = λ q. record { numbers = refl; rejects = refl; requests = refl; waits = refl };
}

new_peers : (count : ℕ) (init : FdInit) → AllPeers (replicate count (new_peer init))
new_peers zero init = tt
new_peers (suc count) init = (new_peer-IsPeer init, new_peers count init)

-- There is a peer at least, and the turn is at the first.
first_turn :
    (init : FdInit) → 0 < length (replicate (at_least_one init.peers_count) (new_peer init))
first_turn init = ground (arith, length-replicate (at_least_one init.peers_count) (new_peer init))

-- The HDLC level gets memory that is long enough.
placed_hdlc :
    (sizes : Sizes) (init : FdInit)
    → IsUsable init
    → IsAligned sizes init
    → (h : HdlcLl) × (hdlc_ll_init sizes.align sizes.hdlc_size zero_hdlc (hdlc_init sizes init)
        ≡ (success, some h))
      × IsInitial (init.mtu + 2) h
placed_hdlc sizes init v a =
    let r = room a in
    init_aligned sizes.align sizes.hdlc_size zero_hdlc (hdlc_init sizes init)
      (omega (arith, start_lem a, v.not_null))
      (aligned_multiple sizes.align (hdlc_ll_ptr sizes init) a.aligns (start_multiple a))
      (omega arith) v.crc refl
      (omega (arith, r.0, length-replicate {A = ℕ} (hdlc_ll_size sizes init) 0))

-- Both tables and the peers find their places.
placed :
    (sizes : Sizes) (init : FdInit) (h : HdlcLl)
    → IsUsable init
    → IsAligned sizes init
    → hdlc_ll_init sizes.align sizes.hdlc_size zero_hdlc (hdlc_init sizes init) ≡ (success, some h)
    → (i_queue : FdQueue) × (s_queue : FdQueue) × (place sizes init
        ≡ (success, some (new_fd init h i_queue s_queue)))
      × IsTable init.window_frames init.mtu i_queue
      × IsTable u_queue_max_size 2 s_queue
unfolding place
placed sizes init h v a e =
    let r = room a in
    let i_at = hdlc_ll_ptr sizes init + hdlc_ll_size sizes init in
    let s_at = i_at + queue_bytes sizes init.mtu init.window_frames in
    let end = buffer_end init in
    let next = add_multiple sizes.align _ _ (i_at_multiple a) a.i_queue in
    let last = add_multiple sizes.align _ _ next a.s_queue in
    let (i_slots, i_queue, i_runs, i_table) =
      placed_queue sizes.pointer_size sizes.info_size (end - i_at) init.window_frames init.mtu
        (omega (arith, v.window_least)) v.mtu (omega (arith, r.1)) in
    let (s_slots, s_queue, s_runs, s_table) =
      placed_queue sizes.pointer_size sizes.info_size (end - s_at) u_queue_max_size 2 (omega arith)
        (omega arith) (omega (arith, r.1)) in
    (
      i_queue,
      s_queue,
      rw (aligned_multiple sizes.align i_at a.aligns (i_at_multiple a)) (
          rw i_runs (
            rw (aligned_multiple sizes.align s_at a.aligns next) (
              rw s_runs
                (rw (aligned_multiple sizes.align _ a.aligns last) (rw e (ground (arith, r.1))))))),
      i_table,
      s_table,
    )

-- Take arguments that `__tiny_fd_init_validate` accepts, with a check sum type other than HDLC_CRC_OFF: a
-- callback for packets, a buffer, 2 to 7 frames, a time-out, and an `mtu` that is given, or 0 and the
-- buffer leaves 2 bytes or more for each frame. Take a buffer whose parts are aligned and which has at
-- least the size that `tiny_fd_buffer_size_by_mtu_ex` computes for the given or chosen `mtu` (with 5
-- bytes in place of the slack of the alignment, which it has where that is 5 or more). Then
-- `tiny_fd_init` succeeds; the handle satisfies its invariant; the table of I-frames has the window that
-- was asked for and that `mtu`; all peers are new; and the HDLC level can take a frame with a header,
-- `mtu` bytes and its check sum.
pub fd_init_ready :
    (sizes : Sizes) (init : FdInit)
    → IsAccepted sizes init
    → IsAligned sizes (with_mtu sizes init)
    → let asked = with_mtu sizes init in
      (fd : Fd) × (fd_init sizes init ≡ (success, some fd))
      × IsFd fd
      × (fd.i_queue.mtu ≡ asked.mtu)
      × (length fd.i_queue.frames ≡ asked.window_frames)
      × (fd.peers ≡ replicate (at_least_one asked.peers_count) (new_peer asked))
      × (asked.mtu + 2 + fcs_size fd.hdlc.crc_type ≤ fd.hdlc.rx.phys_mtu)
unfolding fd_init
fd_init_ready sizes init v a =
    let asked = with_mtu sizes init in
    let usable = with_mtu-IsUsable sizes init v in
    let (h, e, initial) = placed_hdlc sizes asked usable a in
    let (i_queue, s_queue, runs, i_table, s_table) = placed sizes asked h usable a e in
    (
      new_fd asked h i_queue s_queue,
      rw (validated sizes init v a) runs,
      record {
        i_table = i_table.shape;
        s_table = s_table.shape;
        peers = new_peers (at_least_one asked.peers_count) asked;
        hdlc = record { sender = initial.sender; receiver = initial.receiver };
        runs = refl;
        turn = first_turn asked;
      },
      i_table.same_mtu,
      i_table.size,
      refl,
      initial.room,
    )
