-- ===== src/Fd/FramesQueue.antt =====
-- src/proto/fd/tiny_fd_frames_queue.c: the table of frames that wait to be sent. A pointer to a slot
-- is the slot's index, NULL is `none`; a pointer to a frame's header stands for its slot too.
pub mod Find
pub mod Slots
pub mod Allocate
pub mod Place
pub mod Reset
use tinyproto.Prelude.{
  ℕ, zero, suc, ◌+◌, ◌-◌, ◌*◌, ◌/◌, ◌%◌, Bool, true, false, not, ◌&&◌, ◌||◌, Option, none, some,
  List, [], ◌∷◌, ◌++◌, map, length, get_elem?, set, take, drop, ltb, leb, ◌==◌, if◌then◌else◌,
  ◌>>=◌,
}

-- `tiny_fd_queue_type_t`; a slot holds one of them.
pub data FrameType : Type 0 where
  queue_free u_frame s_frame i_frame : FrameType

abbrev pub type_value : FrameType → ℕ
type_value queue_free = 1
type_value u_frame = 2
type_value s_frame = 4
type_value i_frame = 8

-- `type & mask`, where a type is a single bit.
abbrev pub is_of : FrameType → ℕ → Bool
is_of type mask = mask / type_value type % 2 == 1

abbrev pub is_free : FrameType → Bool
is_free queue_free = true
is_free _ = false

abbrev pub is_i_frame : FrameType → Bool
is_i_frame i_frame = true
is_i_frame _ = false

-- `tiny_fd_frame_info_t`, with the two fields of its header. `payload` is the slot's memory.
pub record FrameInfo : Type 0 where
  pub type : FrameType
  pub len : ℕ
  pub address : ℕ
  pub control : ℕ
  pub payload : List ℕ

-- `tiny_fd_queue_t`; `size` is the length of the table.
pub record FdQueue : Type 0 where
  pub frames : List FrameInfo
  pub lookup_index : ℕ
  pub mtu : ℕ

-- `address & 0xFC` of a uint8_t keeps the upper six bits.
abbrev pub same_address : ℕ → ℕ → Bool
same_address a b = a / 4 == b / 4

abbrev pub freed : FrameInfo → FrameInfo
freed frame = record frame { type = queue_free }

unfoldable pub queue_reset : FdQueue → FdQueue
queue_reset queue = record queue { frames = map freed queue.frames; lookup_index = 0 }

abbrev pub free_for : ℕ → FrameInfo → FrameInfo
free_for address frame = if same_address frame.address address then freed frame else frame

unfoldable pub queue_reset_for : FdQueue → ℕ → FdQueue
queue_reset_for queue address = record queue { frames = map (free_for address) queue.frames }

-- The loop of `tiny_fd_queue_init` for some more slots of `step` bytes each: where they begin, and `ptr`
-- behind the last one.
unfoldable pub place_slots : ℕ → ℕ → ℕ → List ℕ × ℕ
place_slots zero step ptr = ([], ptr)
place_slots (suc n) step ptr = let more = place_slots n step (ptr + step) in (ptr ∷ more.0, more.1)

-- The slot that begins at `ptr`: its fields, which `read_info` reads in the first bytes, and the memory of
-- its payload behind them.
abbrev pub slot_at : (List ℕ → FrameInfo) → ℕ → ℕ → List ℕ → ℕ → FrameInfo
slot_at read_info info_size mtu buffer ptr = record (read_info (take info_size (drop ptr buffer))) {
  payload = take mtu (drop (ptr + info_size) buffer);
}

-- `tiny_fd_queue_init` for a buffer of max_size bytes, with the size of a pointer and that of
-- tiny_fd_frame_info_t without its payload: what it returns, `queue->frames` as offsets in the buffer,
-- and the table. `read_info` reads the fields of that structure in its bytes.
unfoldable pub queue_init :
    ℕ → ℕ → (List ℕ → FrameInfo) → List ℕ → ℕ → ℕ → Option (ℕ × List ℕ × FdQueue)
queue_init pointer_size info_size read_info buffer max_frames mtu =
    let (slots, end) = place_slots max_frames (mtu + info_size) (pointer_size * max_frames) in
    let frames = map (slot_at read_info info_size mtu buffer) slots in
    if ltb (length buffer) end
    then none
    else some (end, slots, queue_reset (record { frames = frames; lookup_index = 0; mtu = mtu }))

-- The conditions of the loop of `tiny_fd_queue_get_next` for one frame.
unfoldable pub is_wanted : ℕ → ℕ → ℕ → FrameInfo → Bool
is_wanted type address arg frame =
    is_of frame.type type
    && (is_free frame.type
        || (same_address address frame.address
            && (not (is_i_frame frame.type) || frame.control / 2 % 8 == arg)))

-- An index outside of the table does not come up where `lookup_index` lies in it.
abbrev pub wanted_at : (FrameInfo → Bool) → FdQueue → ℕ → Bool
wanted_at wanted queue index = elim (get_elem? queue.frames index) [
  | none ↦ false
  | some frame ↦ wanted frame
]

unfoldable pub next_index : FdQueue → ℕ → ℕ
next_index queue index =
    if leb (length queue.frames) (index + 1) then index + 1 - length queue.frames else index + 1

-- The loop of `tiny_fd_queue_get_next`, for `n` more slots.
pub get_next_loop : ℕ → (FrameInfo → Bool) → FdQueue → ℕ → Option ℕ
get_next_loop zero wanted queue index = none
get_next_loop (suc n) wanted queue index =
    let more = get_next_loop n wanted queue (next_index queue index) in
    if wanted_at wanted queue index then some index else more

unfoldable pub queue_get_next : FdQueue → ℕ → ℕ → ℕ → Option ℕ
queue_get_next queue type address arg =
    get_next_loop (length queue.frames) (is_wanted type address arg) queue queue.lookup_index

-- `memcpy` to the start of the payload.
abbrev pub filled : FrameType → List ℕ → FrameInfo → FrameInfo
filled type bytes frame = record frame {
  payload = bytes ++ drop (length bytes) frame.payload;
  len = length bytes;
  type = type;
}

abbrev pub update : FdQueue → ℕ → (FrameInfo → FrameInfo) → FdQueue
update queue index f = elim (get_elem? queue.frames index) [
  | none ↦ queue
  | some frame ↦ record queue { frames = set queue.frames index (f frame) }
]

-- The body of `tiny_fd_queue_allocate` after the search.
abbrev pub put_at : FdQueue → FrameType → List ℕ → Option ℕ → Option ℕ × FdQueue
put_at queue type bytes none = (none, queue)
put_at queue type bytes (some index) = (some index, update queue index (filled type bytes))

unfoldable pub queue_allocate : FdQueue → FrameType → List ℕ → Option ℕ × FdQueue
queue_allocate queue type bytes = put_at queue type bytes (
    if leb (length bytes) queue.mtu then queue_get_next queue (type_value queue_free) 0 0 else none)

-- The loop of `tiny_fd_queue_free_by_header` ends at the slot of the header, if there is one.
unfoldable pub queue_free_by_header : FdQueue → ℕ → FdQueue
queue_free_by_header queue index =
    if ltb index (length queue.frames)
    then record (update queue index freed) { lookup_index = next_index queue index }
    else queue

-- `!= NULL`.
abbrev pub not_null : Option ℕ → Bool
not_null none = false
not_null (some index) = true

unfoldable pub queue_has_free_slots : FdQueue → Bool
queue_has_free_slots queue = not_null (queue_get_next queue (type_value queue_free) 0 0)
