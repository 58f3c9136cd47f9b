-- ===== src/Fd/Handle.antt =====
-- The state of the protocol: tiny_fd_int.h of src/proto/fd. The events of a handle and of a peer are
-- Boolean fields, the mutex is not modelled (one thread runs). A function takes the time that
-- `tiny_millis` returns while it runs. What the user's callbacks are called with is kept in `calls`,
-- oldest first; the callbacks themselves do not call the library.
use tinyproto.Prelude.{
  ℕ, ◌+◌, ◌-◌, ◌/◌, ◌%◌, ◌^◌, Bool, true, false, Option, none, some, List, [], ◌∷◌, ◌++◌, map,
  get_or, set, if◌then◌else◌,
}
use tinyproto.Hdlc.Init.{HdlcLl}
use tinyproto.Fd.FramesQueue.{FrameInfo, queue_free, FdQueue, update}
use tinyproto.Fd.IQueueControl.{IQueueControl}
use tinyproto.Fd.Peers.{Station, Mode, clear_cr, is_primary_station}

-- `tiny_fd_state_t`.
pub data FdState : Type 0 where
  idle disconnected connecting connected disconnecting : FdState

-- `tiny_fd_peer_info_t`; `can_accept_i_frames` is FD_EVENT_CAN_ACCEPT_I_FRAMES.
pub record FdPeer : Type 0 where
  pub state : FdState
  pub addr : ℕ
  pub sent_nr : ℕ
  pub sent_reject : Bool
  pub srej_req_mask : ℕ
  pub i_queue_control : IQueueControl
  pub last_sent_i_ts : ℕ
  pub last_sent_frame_ts : ℕ
  pub last_received_frame_ts : ℕ
  pub ka_confirmed : Bool
  pub retries : ℕ
  pub can_accept_i_frames : Bool

-- The calls of on_read_cb, on_read_ui_cb, on_send_cb (address and data) and on_connect_event_cb.
pub data UserCall : Type 0 where
  read read_ui sent : ℕ → List ℕ → UserCall
  connect_event : ℕ → Bool → UserCall

-- A pointer to a frame in one of the two tables.
pub data FramePtr : Type 0 where
  s_slot i_slot : ℕ → FramePtr

-- `tiny_fd_data_t`. A callback field says whether the callback is set. `sending` is the frame that
-- the HDLC level holds a pointer to. `tx_sending`, `tx_data_available`, `queue_has_free_slots` and
-- `has_marker` are the global events. `hung` is not a field of the source: it is set where a loop of the
-- source would not end, and nothing clears it.
pub record Fd : Type 0 where
  pub on_read_cb : Bool
  pub on_send_cb : Bool
  pub on_read_ui_cb : Bool
  pub on_connect_event_cb : Bool
  pub hdlc : HdlcLl
  pub retry_timeout : ℕ
  pub ka_timeout : ℕ
  pub retries : ℕ
  pub i_queue : FdQueue
  pub s_queue : FdQueue
  pub peers : List FdPeer
  pub addr : ℕ
  pub next_peer : ℕ
  pub last_marker_ts : ℕ
  pub mode : Mode
  pub sending : Option FramePtr
  pub tx_sending : Bool
  pub tx_data_available : Bool
  pub queue_has_free_slots : Bool
  pub has_marker : Bool
  pub calls : List UserCall
  pub hung : Bool

-- A handle and the one peer that a function works on: `fd.peers` is out of date at that peer until
-- `with_peer` puts it back.
pub record Link : Type 0 where
  pub fd : Fd
  pub peer : FdPeer

-- A loop of the source does not end: neither does the function of the user that has called it.
abbrev pub hang : Fd → Fd
hang fd = record fd { hung = true }

abbrev pub unless_hung : Fd → Option Fd
unless_hung fd = if fd.hung then none else some fd

-- What memory outside of the table of peers would hold; no function is called with such an index.
abbrev pub no_peer : FdPeer
no_peer = record {
  state = disconnected;
  addr = 0xff;
  sent_nr = 0;
  sent_reject = false;
  srej_req_mask = 0;
  i_queue_control = record { last_ns = 0; confirm_ns = 0; next_ns = 0; next_nr = 0 };
  last_sent_i_ts = 0;
  last_sent_frame_ts = 0;
  last_received_frame_ts = 0;
  ka_confirmed = false;
  retries = 0;
  can_accept_i_frames = false;
}

-- `handle->peers[peer]`.
abbrev pub peer_at : Fd → ℕ → FdPeer
peer_at fd peer = get_or fd.peers peer no_peer

abbrev pub put_back : ℕ → Link → Fd
put_back peer link = record link.fd { peers = set link.fd.peers peer link.peer }

abbrev pub with_peer : ℕ → (Link → Link) → Fd → Fd
with_peer peer f fd = put_back peer (f (record { fd = fd; peer = peer_at fd peer }))

-- What the functions on addresses see of a handle.
abbrev pub station : Fd → Station
station fd = record {
  mode = fd.mode;
  addr = fd.addr;
  peers = map (λ (p : FdPeer). p.addr) fd.peers;
  next_peer = fd.next_peer;
}

abbrev pub is_primary : Fd → Bool
is_primary fd = is_primary_station (station fd)

-- `__peer_to_address_field( handle, peer )`.
abbrev pub peer_address : Link → ℕ
peer_address link = clear_cr link.peer.addr

-- The address that the callbacks are given.
abbrev pub user_address : Link → ℕ
user_address link = if is_primary link.fd then peer_address link / 4 else 0

abbrev pub call_user : Bool → UserCall → Link → Link
call_user true call link = record link {
  fd = record link.fd { calls = link.fd.calls ++ call ∷ [] };
}
call_user false call link = link

-- `(uint32_t)(tiny_millis() - ts)`.
abbrev pub elapsed : ℕ → ℕ → ℕ
elapsed now ts = (now + 2 ^ 32 - ts) % 2 ^ 32

abbrev pub no_frame : FrameInfo
no_frame = record { type = queue_free; len = 0; address = 0; control = 0; payload = [] }

-- The frame behind a pointer.
abbrev pub frame_at : Fd → FramePtr → FrameInfo
frame_at fd (s_slot index) = get_or fd.s_queue.frames index no_frame
frame_at fd (i_slot index) = get_or fd.i_queue.frames index no_frame

abbrev pub change_frame : FramePtr → (FrameInfo → FrameInfo) → Fd → Fd
change_frame (s_slot index) f fd = record fd { s_queue = update fd.s_queue index f }
change_frame (i_slot index) f fd = record fd { i_queue = update fd.i_queue index f }
