-- ===== src/Fd/FramesQueue/Reset.antt =====
-- The table after `tiny_fd_queue_init`, `tiny_fd_queue_reset` and `tiny_fd_queue_reset_for`.
use tinyproto.Prelude.{
  ℕ, zero, suc, ◌+◌, ◌*◌, ◌/◌, ◌≤◌, ◌<◌, ◌≡◌, ◌≢◌, refl, sym, ◌∙◌, ap, true, false, some, List, [],
  ◌∷◌, map, length, length-take, length-drop, take, drop, Option, none, if◌then◌else◌, get_elem?,
  Bool, arith,
}
use tinyproto.Fd.FramesQueue.{
  FrameInfo, FdQueue, freed, free_for, queue_reset, queue_reset_for, is_free, slot_at, place_slots,
  queue_init,
}
use tinyproto.Fd.FramesQueue.Place.{
  ArePlaced, place_slots-end, length-place_slots, place_slots-ArePlaced,
}
use tinyproto.Fd.FramesQueue.Slots.{IsFdQueue}

module _ {ℓ κ} {A : Type ℓ} {B : Type κ} (f : A → B) where
  pub length-map : (xs : List A) → length (map f xs) ≡ length xs
  length-map [] = refl
  length-map (x ∷ xs) = ap suc (length-map xs)

  get_elem?-map :
      (xs : List A) (i : ℕ) (y : B)
      → get_elem? (map f xs) i ≡ some y
      → (x : A) × (get_elem? xs i ≡ some x) × (f x ≡ y)
  get_elem?-map [] i y e = absurd (cc)
  get_elem?-map (x ∷ xs) zero y e = (x, refl, cc)
  get_elem?-map (x ∷ xs) (suc i) y e = get_elem?-map xs i y e

  map-get_elem? :
      (xs : List A) (i : ℕ) (x : A) → get_elem? xs i ≡ some x → get_elem? (map f xs) i ≡ some (f x)
  map-get_elem? [] i x e = absurd (cc)
  map-get_elem? (y ∷ xs) zero x e = cc
  map-get_elem? (y ∷ xs) (suc i) x e = map-get_elem? xs i x e

if_false : {A : Type 0} {b : Bool} (x : Option A) → b ≡ false → (if b then none else x) ≡ x
if_false x e = rw e refl

-- A table of slots with memory for `mtu` bytes each, once it is reset.
pub reset-IsFdQueue :
    (left : List FrameInfo) (mtu : ℕ)
    → 0 < length left
    → 0 < mtu
    → ((index : ℕ) (frame : FrameInfo)
        → get_elem? left index ≡ some frame
        → length frame.payload ≡ mtu)
    → IsFdQueue (queue_reset (record { frames = left; lookup_index = 0; mtu = mtu }))
unfolding queue_reset
reset-IsFdQueue left mtu pos sized slots = record {
  starts = omega (arith, length-map freed left);
  holds = λ i frame e.
      let (slot, held, same) = get_elem?-map freed left i frame e in
      ground (arith, slots i slot held, same);
  sized = sized;
}

-- What memory holds where a slot is placed: `mtu` bytes of payload, if they lie inside of it.
slot_at-sized :
    (read_info : List ℕ → FrameInfo) (info_size mtu : ℕ) (buffer : List ℕ) (ptr : ℕ)
    → ptr + (mtu + info_size) ≤ length buffer
    → length (slot_at read_info info_size mtu buffer ptr).payload ≡ mtu
slot_at-sized read_info info_size mtu buffer ptr h = grind (
  arith,
  length-take mtu (drop (ptr + info_size) buffer),
  length-drop (ptr + info_size) buffer,
  h,
)

-- `tiny_fd_queue_init` in a buffer with room for the pointers and the slots, for at least one slot and an
-- `mtu` that is not 0. It succeeds and returns the size of both; every slot lies behind the pointers and,
-- with its fields and its `mtu` bytes of payload, in that part of the buffer; no two slots overlap; and
-- the table has a slot for each of them, whose payload is the memory there, is in shape, and has every
-- slot free, whatever the memory held before.
pub init-IsFdQueue :
    (pointer_size info_size : ℕ) (read_info : List ℕ → FrameInfo) (buffer : List ℕ)
    (max_frames mtu : ℕ)
    → 0 < max_frames
    → 0 < mtu
    → pointer_size * max_frames + (mtu + info_size) * max_frames ≤ length buffer
    → (used : ℕ) × (slots : List ℕ) × (queue : FdQueue) × (queue_init pointer_size info_size
          read_info buffer max_frames mtu
        ≡ some (used, slots, queue))
      × (used ≡ pointer_size * max_frames + (mtu + info_size) * max_frames)
      × (length slots ≡ max_frames)
      × ArePlaced (pointer_size * max_frames) (mtu + info_size) used slots
      × IsFdQueue queue
      × (length queue.frames ≡ max_frames)
      × (queue.mtu ≡ mtu)
      × ((index ptr : ℕ)
          → get_elem? slots index ≡ some ptr
          → (frame : FrameInfo) × (get_elem? queue.frames index ≡ some frame)
            × (is_free frame.type ≡ true)
            × (frame.payload ≡ take mtu (drop (ptr + info_size) buffer)))
unfolding queue_init queue_reset
init-IsFdQueue pointer_size info_size read_info buffer max_frames mtu pos sized enough =
    let step = mtu + info_size in
    let from = pointer_size * max_frames in
    let slots = (place_slots max_frames step from).0 in
    let end = place_slots-end max_frames step from in
    let placed = place_slots-ArePlaced max_frames step from in
    let many = length-place_slots max_frames step from in
    let slot = slot_at read_info info_size mtu buffer in
    (
      (place_slots max_frames step from).1,
      slots,
      queue_reset (record { frames = map slot slots; lookup_index = 0; mtu = mtu }),
      if_false _ (ground (arith, end, enough)),
      omega (arith, end),
      many,
      placed,
      reset-IsFdQueue (map slot slots) mtu (omega (arith, length-map slot slots, many, pos)) sized
          (λ i frame e.
            let (ptr, held, same) = get_elem?-map slot slots i frame e in
            ap (λ (f : FrameInfo). length f.payload) (sym same)
            ∙ slot_at-sized read_info info_size mtu buffer ptr
                (omega (arith, placed.inside i ptr held, end, enough))),
      length-map freed (map slot slots) ∙ length-map slot slots ∙ many,
      refl,
      λ i ptr e. (
        freed (slot ptr),
        map-get_elem? freed (map slot slots) i (slot ptr) (map-get_elem? slot slots i ptr e),
        refl,
        refl,
      ),
    )

pub reset_for-IsFdQueue :
    (queue : FdQueue) (address : ℕ) → IsFdQueue queue → IsFdQueue (queue_reset_for queue address)
unfolding queue_reset_for
reset_for-IsFdQueue queue address v = record {
  starts = omega (arith, length-map (free_for address) queue.frames, v.starts);
  holds = λ i slot e'.
      let (old, held, same) = get_elem?-map (free_for address) queue.frames i slot e' in
      ground (arith, v.holds i old held, same);
  sized = v.sized;
}

-- `tiny_fd_queue_reset_for` frees the frames of the peer, whose address differs at most in the
-- lower two bits, leaves all others as they were, and keeps the table in shape.
pub reset_for-frames :
    (queue : FdQueue) (address index : ℕ) (frame : FrameInfo)
    → IsFdQueue queue
    → get_elem? queue.frames index ≡ some frame
    → let queue' = queue_reset_for queue address in
      IsFdQueue queue'
      × ((frame.address / 4 ≡ address / 4) → get_elem? queue'.frames index ≡ some (freed frame))
      × ((frame.address / 4 ≢ address / 4) → get_elem? queue'.frames index ≡ some frame)
unfolding queue_reset_for
reset_for-frames queue address index frame v e =
    let image = map-get_elem? (free_for address) queue.frames index frame e in
    (reset_for-IsFdQueue queue address v, λ h. image ∙ ground arith, λ h. image ∙ ground arith)
