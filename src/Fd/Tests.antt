-- ===== src/Fd/Tests.antt =====
-- Runs of src/proto/fd/tiny_fd_i_queue_control.c, tiny_fd_frames_queue.c and
-- tiny_fd_peers.c on concrete states.
use tinyproto.Prelude.{
  ◌+◌, ◌<◌, not, ◌==◌, ℕ, zero, suc, ◌/◌, ◌≤◌, ◌≡◌, ◌≢◌, ◌⊎◌, refl, Bool, true, false, some, List,
  [], ◌∷◌, ◌++◌, arith, length, get_elem?, get_or, take, drop, replicate,
}
use tinyproto.Fd.IQueueControl.{confirm_sent_frames, retransmit_frame}
use tinyproto.Fd.IQueueControl.Window.{Window, IsWindow, numbers}
use tinyproto.Fd.IQueueControl.Confirm.{confirm_each, confirm_refines, retransmit_refines}
use tinyproto.Fd.IQueueControl.Outside.{confirm_outside}
use tinyproto.Fd.IQueueControl.Events.{
  Event, accept, transmit, acknowledge, Allowed, no_event, event_then, accepts, transmits,
  acknowledges, on_events, events_refine,
}
use tinyproto.Fd.FramesQueue.{
  FrameInfo, queue_free, i_frame, s_frame, FdQueue, freed, is_free, is_wanted, queue_get_next,
  queue_allocate, queue_free_by_header, queue_has_free_slots, queue_init, queue_reset_for,
}
use tinyproto.Fd.FramesQueue.Find.{Finds, IsFound, get_next-Finds}
use tinyproto.Fd.FramesQueue.Slots.{IsFdQueue, Changes}
use tinyproto.Fd.FramesQueue.Allocate.{Allocated, allocate-Allocated, free_by_header-Changes}
use tinyproto.Fd.FramesQueue.Place.{ArePlaced}
use tinyproto.Fd.FramesQueue.Reset.{init-IsFdQueue, reset_for-frames}
use tinyproto.Fd.Peers.{
  Station, mode_nrm, is_secondary_station, is_primary_station, is_primary_address, clear_cr,
  peer_to_address_field, address_field_to_peer, switch_to_next_peer,
}
use tinyproto.Fd.Peers.Address.{Apart, address_field_to_peer-peer_to_address_field}
use tinyproto.Fd.Peers.Turn.{Next, switch_to_next_peer-Next}

-- Frames 6 to 11 are in the window, 6 to 8 are sent.
abbrev window : Window
window = record { confirmed = 6; sent = 9; queued = 12; received = 3 }

window-IsWindow : IsWindow window
window-IsWindow = ground arith

-- The callback keeps the numbers that it is called with.
abbrev keep : ℕ → List ℕ → Bool × List ℕ
keep nr seen = (true, seen ++ nr ∷ [])

confirm_refines_example :
    (confirm_sent_frames keep 0 (numbers window) []
      ≡ some (true, numbers (record window { confirmed = 8 }), confirm_each keep 6 2 []))
    × IsWindow (record window { confirmed = 8 })
confirm_refines_example =
    confirm_refines keep window 8 [] window-IsWindow (omega arith) (omega arith)

retransmit_refines_example :
    (retransmit_frame 7 (numbers window) ≡ some (false, numbers (record window { sent = 7 })))
    × IsWindow (record window { sent = 7 })
retransmit_refines_example = retransmit_refines window 7 window-IsWindow (omega arith) (omega arith)

confirm_outside_example :
    confirm_sent_frames keep 5 (numbers window) []
    ≡ some (true, numbers (record window { confirmed = 12 }), confirm_each keep 6 6 [])
confirm_outside_example = confirm_outside keep window 5 [] window-IsWindow (λ k h. omega arith)

abbrev run : List Event
run = accept ∷ transmit ∷ acknowledge 2 ∷ []

abbrev after_run : Window
after_run = record { confirmed = 10; sent = 10; queued = 13; received = 3 }

run-Allowed : Allowed window run after_run
run-Allowed = event_then (accepts window (omega arith)) (
    event_then (transmits _ (omega arith))
      (event_then (acknowledges _ 10 (omega arith) (omega arith)) (no_event _)))

events_refine_example :
    (on_events run (numbers window) ≡ some (numbers after_run)) × IsWindow after_run
events_refine_example = events_refine run-Allowed window-IsWindow

abbrev waiting : FrameInfo
waiting = record { type = i_frame; len = 2; address = 5; control = 4; payload = 1 ∷ 2 ∷ [] }

abbrev empty_slot : FrameInfo
empty_slot = record { type = queue_free; len = 9; address = 9; control = 0; payload = 7 ∷ 7 ∷ [] }

abbrev queue : FdQueue
queue = record { frames = waiting ∷ empty_slot ∷ []; lookup_index = 1; mtu = 2 }

queue-IsFdQueue : IsFdQueue queue
queue-IsFdQueue = record { starts = omega arith; holds = holds; sized = omega arith }
  where
    holds :
        (i : ℕ) (frame : FrameInfo)
        → get_elem? queue.frames i ≡ some frame
        → (length frame.payload ≡ 2) × ((is_free frame.type ≡ true) ⊎ (frame.len ≤ 2))
    holds zero frame e = ground arith
    holds (suc zero) frame e = ground arith
    holds (suc (suc i)) frame e = absurd (cc)

get_next-Finds_example :
    let found = queue_get_next queue 8 4 2 in
    Finds (is_wanted 8 4 2) queue 0 found × IsFound (is_wanted 8 4 2) queue found
get_next-Finds_example = get_next-Finds queue 8 4 2 (omega arith)

allocate-Allocated_example :
    let (ptr, queue') = queue_allocate queue s_frame (3 ∷ []) in
    Allocated queue s_frame (3 ∷ []) ptr queue' × IsFdQueue queue'
allocate-Allocated_example = allocate-Allocated queue s_frame (3 ∷ []) queue-IsFdQueue

free_by_header-Changes_example :
    let queue' = queue_free_by_header queue 0 in
    Changes queue queue' 0 freed × IsFdQueue queue' × (queue_has_free_slots queue' ≡ true)
free_by_header-Changes_example = free_by_header-Changes queue 0 queue-IsFdQueue (omega arith)

reset_for-frames_example :
    let queue' = queue_reset_for queue 6 in
    IsFdQueue queue'
    × ((5 / 4 ≡ 6 / 4) → get_elem? queue'.frames 0 ≡ some (freed waiting))
    × ((5 / 4 ≢ 6 / 4) → get_elem? queue'.frames 0 ≡ some waiting)
reset_for-frames_example = reset_for-frames queue 6 0 waiting queue-IsFdQueue refl

-- Four bytes of fields: the length, the address and the control field, and a byte for the type.
abbrev read_four : List ℕ → FrameInfo
read_four bytes = record {
  type = queue_free;
  len = get_or bytes 1 0;
  address = get_or bytes 2 0;
  control = get_or bytes 3 0;
  payload = [];
}

abbrev buffer : List ℕ
buffer = replicate 30 7

-- Two slots of 6 bytes behind two pointers of 8 bytes.
init-IsFdQueue_example :
    (used : ℕ) × (slots : List ℕ) × (q : FdQueue) × (queue_init 8 4 read_four buffer 2 2
      ≡ some (used, slots, q))
    × (used ≡ 28)
    × (length slots ≡ 2)
    × ArePlaced 16 6 used slots
    × IsFdQueue q
    × (length q.frames ≡ 2)
    × (q.mtu ≡ 2)
    × ((index ptr : ℕ)
        → get_elem? slots index ≡ some ptr
        → (frame : FrameInfo) × (get_elem? q.frames index ≡ some frame)
          × (is_free frame.type ≡ true)
          × (frame.payload ≡ take 2 (drop (ptr + 4) buffer)))
init-IsFdQueue_example =
    init-IsFdQueue 8 4 read_four buffer 2 2 (omega arith) (omega arith) (omega arith)

-- A primary station with two peers and a slot without a peer between them.
abbrev primary : Station
primary = record { mode = mode_nrm; addr = 1; peers = 5 ∷ 0xff ∷ 9 ∷ []; next_peer = 0 }

primary-Apart : Apart primary.peers
primary-Apart zero zero p q ne = absurd (ne refl)
primary-Apart zero (suc zero) p q ne = omega arith
primary-Apart zero (suc (suc zero)) p q ne = omega arith
primary-Apart (suc zero) zero p q ne = omega arith
primary-Apart (suc zero) (suc zero) p q ne = absurd (ne refl)
primary-Apart (suc zero) (suc (suc zero)) p q ne = omega arith
primary-Apart (suc (suc zero)) zero p q ne = omega arith
primary-Apart (suc (suc zero)) (suc zero) p q ne = omega arith
primary-Apart (suc (suc zero)) (suc (suc zero)) p q ne = absurd (ne refl)
primary-Apart zero (suc (suc (suc j))) p q ne = absurd (omega arith)
primary-Apart (suc zero) (suc (suc (suc j))) p q ne = absurd (omega arith)
primary-Apart (suc (suc zero)) (suc (suc (suc j))) p q ne = absurd (omega arith)
primary-Apart (suc (suc (suc i))) j p q ne = absurd (omega arith)

address_field_to_peer-peer_to_address_field_example :
    address_field_to_peer primary (peer_to_address_field primary 2 + 2) ≡ 2
address_field_to_peer-peer_to_address_field_example =
    address_field_to_peer-peer_to_address_field primary 2 1
      (unfold is_secondary_station is_primary_station is_primary_address clear_cr in refl) refl
      primary-Apart (omega arith) (omega arith) (omega arith)

switch_to_next_peer-Next_example :
    (next : ℕ) × (switch_to_next_peer primary
      ≡ some (not (0 == next), record primary { next_peer = next }))
    × Next primary 0 next
    × (next < 3)
switch_to_next_peer-Next_example = switch_to_next_peer-Next primary (omega arith)
