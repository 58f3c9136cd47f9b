-- ===== src/Fd/Init/Layout.antt =====
-- Where the parts of a handle of src/proto/fd/tiny_fd.c lie in the caller's buffer.
use tinyproto.Prelude.{ℕ, ◌+◌, ◌*◌, ◌/◌, ◌%◌, ◌≤◌, ◌-◌, ◌<◌, ◌≡◌, ◌∙◌, ap, ap₂, arith}
use native.Mathlib.Nat.{add-mod}
use tinyproto.Hdlc.Init.{aligned, hdlc_ll_get_buf_size_ex}
use tinyproto.Crc.{get_crc_field_size}
use tinyproto.Fd.Init.{
  Sizes, FdInit, at_least_one, queue_bytes, u_queue_max_size, needed, buffer_size_by_mtu_ex,
  hdlc_ll_ptr, hdlc_ll_size, buffer_end,
}

-- An address that is a multiple stays.
pub aligned_multiple : (align x : ℕ) → 0 < align → x % align ≡ 0 → aligned align x ≡ x
unfolding aligned
aligned_multiple align x pos e = grind arith

pub add_multiple : (align x y : ℕ) → x % align ≡ 0 → y % align ≡ 0 → (x + y) % align ≡ 0
add_multiple align x y e f = add-mod x y align ∙ ap₂ (λ u v. (u + v) % align) e f ∙ omega arith

pub rounded_multiple : (align x : ℕ) → x / align * align % align ≡ 0
rounded_multiple align x = grind arith

pub rounded_bounds :
    (align x : ℕ) → 0 < align → (x / align * align ≤ x) × (x < x / align * align + align)
rounded_bounds align x pos = grind arith

-- A long enough rest keeps what is needed when it is rounded down.
room_of :
    (align start fd hdlc crc mtu i s p size end : ℕ)
    → 0 < align
    → end ≡ start + (size - fd)
    → fd + align - 1 + p + ((crc + (mtu + 2)) * 1 + hdlc + align - 1) + i + s ≤ size
    → fd + align - 1 + p + ((crc + (mtu + 2)) * 1 + hdlc + align - 1) + i + s + 5 ≤ size + align
    → let left = (end - start - 4 - i - s - p) / align * align in
      (hdlc + crc + mtu + 2 ≤ left) × (start + left + i + s + p ≤ end)
room_of align start fd hdlc crc mtu i s p size end pos e enough slack =
    omega (arith, rounded_bounds align (end - start - 4 - i - s - p) pos)

at_least_one_twice : (n : ℕ) → at_least_one (at_least_one n) ≡ at_least_one n
at_least_one_twice n = ground arith

-- The buffer and the parts that are laid out in it are multiples of the alignment, and the buffer has
-- the size that is asked for, with 5 bytes in place of the slack of the alignment.
pub record IsAligned (sizes : Sizes) (init : FdInit) : Type 0 where
  pub aligns : 0 < sizes.align
  pub buffer : init.buffer % sizes.align ≡ 0
  pub fd : sizes.fd_size % sizes.align ≡ 0
  pub i_queue : queue_bytes sizes init.mtu init.window_frames % sizes.align ≡ 0
  pub s_queue : queue_bytes sizes 2 u_queue_max_size % sizes.align ≡ 0
  pub enough : needed sizes init ≤ init.buffer_size
  pub slack : needed sizes init + 5 ≤ init.buffer_size + sizes.align

module _ {sizes : Sizes} {init : FdInit} (a : IsAligned sizes init) where
  pub start_lem : hdlc_ll_ptr sizes init ≡ init.buffer + sizes.fd_size
  start_lem = omega (arith, aligned_multiple sizes.align init.buffer a.aligns a.buffer)

  pub start_multiple : hdlc_ll_ptr sizes init % sizes.align ≡ 0
  start_multiple = rw start_lem (add_multiple sizes.align init.buffer sizes.fd_size a.buffer a.fd)

  size_multiple : hdlc_ll_size sizes init % sizes.align ≡ 0
  unfolding hdlc_ll_size
  size_multiple = rounded_multiple sizes.align _

  -- The HDLC level's memory has room for its structure and a frame with its check sum, and the tables
  -- and the peers fit behind it.
  pub room :
      (sizes.hdlc_size + get_crc_field_size init.crc_type + init.mtu + 2 ≤ hdlc_ll_size sizes init)
      × (hdlc_ll_ptr sizes init
            + hdlc_ll_size sizes init
            + queue_bytes sizes init.mtu init.window_frames
            + queue_bytes sizes 2 u_queue_max_size
            + at_least_one init.peers_count * sizes.peer_size
          ≤ buffer_end init)
  unfolding hdlc_ll_size buffer_size_by_mtu_ex hdlc_ll_get_buf_size_ex
  room =
      let once = ap (λ t. t * sizes.peer_size) (at_least_one_twice init.peers_count) in
      room_of sizes.align (hdlc_ll_ptr sizes init) sizes.fd_size sizes.hdlc_size
        (get_crc_field_size init.crc_type) init.mtu _ _
        (at_least_one init.peers_count * sizes.peer_size) init.buffer_size (buffer_end init)
        a.aligns (omega (arith, start_lem, a.enough)) (omega (arith, once, a.enough))
        (omega (arith, once, a.slack))

  pub i_at_multiple : (hdlc_ll_ptr sizes init + hdlc_ll_size sizes init) % sizes.align ≡ 0
  i_at_multiple = add_multiple sizes.align _ _ start_multiple size_multiple

  pub needed-pos : 0 < needed sizes init
  unfolding buffer_size_by_mtu_ex hdlc_ll_get_buf_size_ex
  needed-pos = omega (arith, a.aligns)
