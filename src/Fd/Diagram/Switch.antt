-- ===== src/Fd/Diagram/Switch.antt =====
-- The switches between connected and disconnected of src/proto/fd/tiny_fd.c, and what the user is told.
use tinyproto.Prelude.{
  ℕ, ◌≡◌, ◌∙◌, refl, sym, ap, subst, Bool, true, false, List, [], ◌∷◌, ◌++◌, append-nil,
}
use tinyproto.Fd.FramesQueue.{FrameType, queue_allocate}
use tinyproto.Fd.Handle.{
  Fd, FdState, disconnected, connected, Link, UserCall, read, read_ui, sent, connect_event,
  call_user,
}
use tinyproto.Fd.ServiceQueue.{send_u_s_frame, put_u_s_frame}
use tinyproto.Fd.Connection.{
  is_connected, is_disconnected, switch_to_connected, switch_to_disconnected,
}
use tinyproto.Fd.Delivery.{put_header-shape}
use tinyproto.Fd.Diagram.{connect_events}

-- The state of the peer, and what the user has been told of connections.
pub record Follows (link : Link) (state : FdState) (events : List Bool) : Type 0 where
  pub is : link.peer.state ≡ state
  pub events_are : connect_events link.fd.calls ≡ events
  pub tells : link.fd.on_connect_event_cb ≡ true

pub connect_events-append :
    (xs ys : List UserCall) → connect_events (xs ++ ys) ≡ connect_events xs ++ connect_events ys
unfolding connect_events
connect_events-append [] ys = refl
connect_events-append (read address payload ∷ xs) ys = connect_events-append xs ys
connect_events-append (read_ui address payload ∷ xs) ys = connect_events-append xs ys
connect_events-append (sent address payload ∷ xs) ys = connect_events-append xs ys
connect_events-append (connect_event address value ∷ xs) ys =
    ap (λ r. value ∷ r) (connect_events-append xs ys)

pub recast_events :
    {link : Link} {state : FdState} {p q : List Bool}
    → p ≡ q
    → Follows link state p
    → Follows link state q
recast_events e f = record { is = f.is; events_are = f.events_are ∙ e; tells = f.tells }

pub unchanged :
    {link : Link} {state : FdState} {events : List Bool}
    → Follows link state events
    → Follows link state (events ++ [])
unchanged {events} f = recast_events (sym (append-nil events)) f

pub send_u_s-Follows :
    (type : FrameType) (address control : ℕ) (bytes : List ℕ) (link : Link) {state : FdState}
    {events : List Bool}
    → Follows link state events
    → Follows (send_u_s_frame type address control bytes link) state events
unfolding send_u_s_frame put_u_s_frame
send_u_s-Follows type address control bytes link {state} {events} f =
    let (queue, wakes, e) =
      put_header-shape address control (queue_allocate link.fd.s_queue type bytes) link.fd in
    subst (λ (fd : Fd). Follows (record link { fd = fd }) state events) (sym e)
      (record { is = f.is; events_are = f.events_are; tells = f.tells })

-- A call of the user, when the callback is set.
call_event-Follows :
    (b : Bool) (address : ℕ) (value : Bool) (link : Link) {state : FdState} {events : List Bool}
    → b ≡ true
    → Follows link state events
    → Follows (call_user b (connect_event address value) link) state (events ++ value ∷ [])
unfolding connect_events
call_event-Follows false address value link e f = absurd (cc e)
call_event-Follows true address value link e f = record {
  is = f.is;
  events_are =
      connect_events-append link.fd.calls (connect_event address value ∷ [])
      ∙ ap (λ r. r ++ value ∷ []) f.events_are;
  tells = f.tells;
}

pub already_disconnected :
    (link : Link) {events : List Bool}
    → Follows link disconnected events
    → Follows (switch_to_disconnected link) disconnected events
unfolding switch_to_disconnected
already_disconnected link f = rw (ap is_disconnected f.is) f

pub disconnects :
    (link : Link) (state : FdState) {events : List Bool}
    → is_disconnected state ≡ false
    → Follows link state events
    → Follows (switch_to_disconnected link) disconnected (events ++ false ∷ [])
unfolding switch_to_disconnected
disconnects link state e f = rw (ap is_disconnected f.is ∙ e) (
    call_event-Follows link.fd.on_connect_event_cb _ false _ f.tells
      (record { is = refl; events_are = f.events_are; tells = f.tells }))

pub already_connected :
    (now : ℕ) (link : Link) {events : List Bool}
    → Follows link connected events
    → Follows (switch_to_connected now link) connected events
unfolding switch_to_connected
already_connected now link f = rw (ap is_connected f.is) f

pub connects :
    (now : ℕ) (link : Link) (state : FdState) {events : List Bool}
    → is_connected state ≡ false
    → Follows link state events
    → Follows (switch_to_connected now link) connected (events ++ true ∷ [])
unfolding switch_to_connected
connects now link state e f = rw (ap is_connected f.is ∙ e) (
    call_event-Follows link.fd.on_connect_event_cb _ true _ f.tells
      (record { is = refl; events_are = f.events_are; tells = f.tells }))
