-- ===== src/Fd/IQueueControl/Events.antt =====
-- Runs of the window: every sequence of the operations that the protocol allows.
use tinyproto.Prelude.{
  ℕ, ◌+◌, ◌%◌, ◌≤◌, ◌<◌, ◌≡◌, refl, true, Option, some, arith, ◌>>=◌, List, [], ◌∷◌,
}
use tinyproto.Fd.IQueueControl.{
  IQueueControl, move_to_next_ns, move_last_ns, move_to_next_frame_to_receive, confirm_sent_frames,
  retransmit_frame,
}
use tinyproto.Fd.IQueueControl.Window.{Window, IsWindow, numbers}
use tinyproto.Fd.IQueueControl.Confirm.{confirm_refines, retransmit_refines}

-- The user's frame is put on the queue, the next frame is sent, N(R) acknowledges, a frame is asked
-- for again, a frame has come in order. The numbers are those of the protocol.
pub data Event : Type 0 where
  accept transmit arrive : Event
  acknowledge go_back : ℕ → Event

-- The code's answer to an event.
unfoldable pub on_event : Event → IQueueControl → Option IQueueControl
on_event accept control = some (move_last_ns control)
on_event transmit control = some (move_to_next_ns control)
on_event arrive control = some (move_to_next_frame_to_receive control)
on_event (acknowledge nr) control = do
  (accepts_more, control', count) ← confirm_sent_frames (λ frame n. (true, n + 1)) nr control 0
  some control'
on_event (go_back nr) control = do (result, control') ← retransmit_frame nr control; some control'

-- What the protocol allows, and what it means.
pub data Allows : Window → Event → Window → Type 0 where
  accepts :
      (w : Window)
      → w.queued < w.confirmed + 7
      → Allows w accept (record w { queued = w.queued + 1 })
  transmits : (w : Window) → w.sent < w.queued → Allows w transmit (record w { sent = w.sent + 1 })
  arrives : (w : Window) → Allows w arrive (record w { received = w.received + 1 })
  acknowledges :
      (w : Window) (frame : ℕ)
      → w.confirmed ≤ frame
      → frame ≤ w.sent
      → Allows w (acknowledge (frame % 8)) (record w { confirmed = frame })
  goes_back :
      (w : Window) (frame : ℕ)
      → w.confirmed ≤ frame
      → frame ≤ w.sent
      → Allows w (go_back (frame % 8)) (record w { sent = frame })

event_refines :
    {w w' : Window} {e : Event}
    → Allows w e w'
    → IsWindow w
    → (on_event e (numbers w) ≡ some (numbers w')) × IsWindow w'
unfolding on_event move_last_ns move_to_next_ns move_to_next_frame_to_receive
event_refines (accepts w h) v = ground arith
event_refines (transmits w h) v = ground arith
event_refines (arrives w) v = ground arith
event_refines (acknowledges w frame a b) v =
    let r = confirm_refines (λ frame n. (true, n + 1)) w frame 0 v a b in
    (rw (r.0, ◌>>=◌) refl, r.1)
event_refines (goes_back w frame a b) v =
    let r = retransmit_refines w frame v a b in (rw (r.0, ◌>>=◌) refl, r.1)

-- Several events.
pub data Allowed : Window → List Event → Window → Type 0 where
  no_event : (w : Window) → Allowed w [] w
  event_then :
      {w mid w' : Window} {e : Event} {events : List Event}
      → Allows w e mid
      → Allowed mid events w'
      → Allowed w (e ∷ events) w'

pub on_events : List Event → IQueueControl → Option IQueueControl
on_events [] control = some control
on_events (e ∷ events) control = on_event e control >>= λ control'. on_events events control'

pub events_refine :
    {w w' : Window} {events : List Event}
    → Allowed w events w'
    → IsWindow w
    → (on_events events (numbers w) ≡ some (numbers w')) × IsWindow w'
unfolding on_events
events_refine (no_event w) v = (refl, v)
events_refine (event_then h more) v =
    let (e, v') = event_refines h v in
    let (es, v'') = events_refine more v' in (rw (e, ◌>>=◌) es, v'')
