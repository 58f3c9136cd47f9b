-- ===== src/Fd/FramesQueue/Allocate.antt =====
-- Slots are taken and given back.
use tinyproto.Prelude.{
  ℕ, ◌≤◌, ◌<◌, ◌≡◌, ◌⊎◌, inl, inr, refl, sym, ◌∙◌, Bool, true, false, Option, none, some, List,
  ◌++◌, length, get_elem?, drop, ltb, leb, Bool-cases, arith, length-append, length-drop,
}
use tinyproto.Fd.FramesQueue.{
  FrameInfo, FrameType, queue_free, type_value, FdQueue, wanted_at, next_index, is_wanted, filled,
  freed, update, queue_allocate, not_null, put_at, queue_free_by_header, queue_has_free_slots,
  is_free,
}
use tinyproto.Fd.FramesQueue.Find.{IsFound, no_slot, slot, get_next-Finds}
use tinyproto.Fd.FramesQueue.Slots.{
  IsFdQueue, Changes, update-Changes, get_elem?-below, update-lookup, Changes-IsFdQueue,
}

wanted_free : (frame : FrameInfo) → is_wanted (type_value queue_free) 0 0 frame ≡ is_free frame.type
unfolding is_wanted
wanted_free frame = ground arith

-- What `tiny_fd_queue_allocate` promises: NULL and no change if the data is too long or no slot is
-- free; else a slot that was free holds the data under its type, and the others are as they were.
pub data Allocated (queue : FdQueue) (type : FrameType) (bytes : List ℕ)
    : Option ℕ → FdQueue → Type 0 where
  refused :
      (queue.mtu < length bytes)
        ⊎ ((index : ℕ) (frame : FrameInfo)
            → get_elem? queue.frames index ≡ some frame
            → is_free frame.type ≡ false)
      → Allocated queue type bytes none queue
  allocated :
      (index : ℕ) (queue' : FdQueue)
      → (c : Changes queue queue' index (filled type bytes)) → is_free c.before.type ≡ true
      → length bytes ≤ queue.mtu
      → Allocated queue type bytes (some index) queue'

length_filled :
    (bytes memory : List ℕ)
    → length bytes ≤ length memory
    → length (bytes ++ drop (length bytes) memory) ≡ length memory
length_filled bytes memory h =
    omega
      (arith, length-append bytes (drop (length bytes) memory), length-drop (length bytes) memory)

wanted_at-held :
    (queue : FdQueue) (index : ℕ) (frame : FrameInfo) (wanted : FrameInfo → Bool)
    → get_elem? queue.frames index ≡ some frame
    → wanted_at wanted queue index ≡ wanted frame
wanted_at-held queue index frame wanted e = rw (wanted_at, e) refl

-- `allocate` at the slot that the search gave.
allocate_at :
    (queue : FdQueue) (type : FrameType) (bytes : List ℕ) (found : Option ℕ)
    → IsFdQueue queue
    → length bytes ≤ queue.mtu
    → IsFound (is_wanted (type_value queue_free) 0 0) queue found
    → let (ptr, queue') = put_at queue type bytes found in
      Allocated queue type bytes ptr queue' × IsFdQueue queue'
allocate_at queue type bytes _ v fits (no_slot apart) = (
  refused (
      inr (λ index frame e.
        sym (wanted_free frame)
        ∙ sym (wanted_at-held queue index frame (is_wanted (type_value queue_free) 0 0) e)
        ∙ apart index (get_elem?-below queue.frames index frame e))),
  v,
)
allocate_at queue type bytes _ v fits (slot index l w) =
    let c = update-Changes queue index (filled type bytes) l in
    (
      allocated index _ c
          (sym (wanted_free c.before)
            ∙ sym
                (wanted_at-held queue index c.before (is_wanted (type_value queue_free) 0 0) c.held)
            ∙ w)
          fits,
      Changes-IsFdQueue c (λ frame h. ground (arith, length_filled bytes frame.payload)) v
          (omega (arith, update-lookup queue index (filled type bytes), c.same_size, v.starts)),
    )

-- `tiny_fd_queue_allocate` on a table in shape: NULL and no change if the data is too long or no slot
-- is free; else the index of a slot that was free and now holds the data, its length and its type,
-- while every other slot is as it was. The table stays in shape.
pub allocate-Allocated :
    (queue : FdQueue) (type : FrameType) (bytes : List ℕ)
    → IsFdQueue queue
    → let (ptr, queue') = queue_allocate queue type bytes in
      Allocated queue type bytes ptr queue' × IsFdQueue queue'
unfolding queue_allocate
allocate-Allocated queue type bytes v = elim (Bool-cases (leb (length bytes) queue.mtu)) [
  | inl fits ↦ rw fits (
      allocate_at queue type bytes _ v (ground arith)
        (get_next-Finds queue (type_value queue_free) 0 0 v.starts).1)
  | inr long ↦ rw long (refused (inl (ground arith)), v)
]

found_free :
    (queue : FdQueue) (found : Option ℕ) (index : ℕ) (frame : FrameInfo)
    → IsFound (is_wanted (type_value queue_free) 0 0) queue found
    → get_elem? queue.frames index ≡ some frame
    → is_free frame.type ≡ true
    → not_null found ≡ true
found_free queue _ index frame (slot j l w) e free = refl
found_free queue _ index frame (no_slot apart) e free =
    let wanted = is_wanted (type_value queue_free) 0 0 in
    let here = apart index (get_elem?-below queue.frames index frame e) in
    absurd (cc (here, wanted_at-held queue index frame wanted e, wanted_free frame, free))

-- `tiny_fd_queue_has_free_slots` sees every free slot.
has_free_slots-free :
    (queue : FdQueue) (index : ℕ) (frame : FrameInfo)
    → queue.lookup_index < length queue.frames
    → get_elem? queue.frames index ≡ some frame
    → is_free frame.type ≡ true
    → queue_has_free_slots queue ≡ true
unfolding queue_has_free_slots
has_free_slots-free queue index frame starts e free =
    found_free queue _ index frame (get_next-Finds queue (type_value queue_free) 0 0 starts).1 e
      free

abbrev moved : FdQueue → ℕ → FdQueue → FdQueue
moved queue index changed = record changed { lookup_index = next_index queue index }

moved-Changes :
    (queue changed : FdQueue) (index : ℕ)
    → Changes queue changed index freed
    → Changes queue (moved queue index changed) index freed
moved-Changes queue changed index c = record {
  before = c.before;
  held = c.held;
  holds = c.holds;
  others = c.others;
  same_size = c.same_size;
  same_mtu = c.same_mtu;
}

next_index-lt :
    (queue : FdQueue) (index : ℕ)
    → index < length queue.frames
    → next_index queue index < length queue.frames
unfolding next_index
next_index-lt queue index h = ground arith

-- `tiny_fd_queue_free_by_header` of a slot of the table: the slot is free, every other slot is as it
-- was, and the table stays in shape. `tiny_fd_queue_has_free_slots` then holds.
pub free_by_header-Changes :
    (queue : FdQueue) (index : ℕ)
    → IsFdQueue queue
    → index < length queue.frames
    → let queue' = queue_free_by_header queue index in
      Changes queue queue' index freed × IsFdQueue queue' × (queue_has_free_slots queue' ≡ true)
unfolding queue_free_by_header
free_by_header-Changes queue index v h =
    let changed = update queue index freed in
    let c = moved-Changes queue changed index (update-Changes queue index freed h) in
    let inside : ltb index (length queue.frames) ≡ true = ground arith in
    let starts : next_index queue index < length changed.frames =
      omega (arith, c.same_size, next_index-lt queue index h) in
    rw inside (
      c,
      Changes-IsFdQueue c (λ frame fits. (fits.0, inl refl)) v starts,
      has_free_slots-free (moved queue index changed) index (freed c.before) starts c.holds refl,
    )
