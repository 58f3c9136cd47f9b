-- ===== src/Fd/Init.antt =====
-- Set-up and closing of src/proto/fd/tiny_fd.c, and the size of the memory that a handle needs. Pointers
-- into the caller's buffer are addresses; the sizes of the structures depend on the platform.
pub mod Layout
pub mod Ready
use tinyproto.Prelude.{
  ℕ, suc, ◌+◌, ◌-◌, ◌*◌, ◌/◌, Bool, true, false, not, ◌||◌, ◌&&◌, Option, none, some, List, [],
  length, replicate, ltb, ◌==◌, if◌then◌else◌,
}
use tinyproto.Crc.{CrcType, crc_default, crc_16}
use tinyproto.Hdlc.Bytes.{Status, success, invalid_data, out_of_memory}
use tinyproto.Hdlc.Tx.{send_start, hdlc_ll_close}
use tinyproto.Hdlc.Rx.{read_start}
use tinyproto.Hdlc.Init.{HdlcLl, HdlcLlInit, aligned, hdlc_ll_init, hdlc_ll_get_buf_size_ex}
use tinyproto.Fd.FramesQueue.{FrameInfo, queue_free, FdQueue, queue_init}
use tinyproto.Fd.IQueueControl.{reset_i_queue_control}
use tinyproto.Fd.Peers.{
  Mode, is_abm, Station, is_primary_station, is_secondary_station, invalid_peer,
}
use tinyproto.Fd.Handle.{Fd, FdPeer, disconnected, unless_hung}
use tinyproto.Fd.Api.{address_field}
use tinyproto.Fd.TxData.{after_tx}

-- TINY_ALIGN_STRUCT_VALUE, and the sizes of tiny_fd_data_t, hdlc_ll_data_t, tiny_fd_peer_info_t, of a
-- pointer, and of tiny_fd_frame_info_t without its two bytes of payload.
pub record Sizes : Type 0 where
  pub align : ℕ
  pub fd_size : ℕ
  pub hdlc_size : ℕ
  pub peer_size : ℕ
  pub pointer_size : ℕ
  pub info_size : ℕ

-- `tiny_fd_init_t`: a callback says whether it is set, `buffer` is an address, 0 for NULL.
pub record FdInit : Type 0 where
  pub on_read_cb : Bool
  pub on_send_cb : Bool
  pub on_read_ui_cb : Bool
  pub on_connect_event_cb : Bool
  pub buffer : ℕ
  pub buffer_size : ℕ
  pub send_timeout : ℕ
  pub retry_timeout : ℕ
  pub retries : ℕ
  pub crc_type : CrcType
  pub window_frames : ℕ
  pub mtu : ℕ
  pub addr : ℕ
  pub peers_count : ℕ
  pub mode : Mode

-- TINY_FD_U_QUEUE_MAX_SIZE.
abbrev pub u_queue_max_size : ℕ
u_queue_max_size = 4

-- sizeof(tiny_frame_header_t).
abbrev pub header_size : ℕ
header_size = 2

abbrev pub at_least_one : ℕ → ℕ
at_least_one count = if count == 0 then 1 else count

-- The bytes of a table of `count` frames with `mtu` bytes each.
abbrev pub queue_bytes : Sizes → ℕ → ℕ → ℕ
queue_bytes sizes mtu count = (sizes.pointer_size + sizes.info_size + mtu) * count

unfoldable pub buffer_size_by_mtu_ex : Sizes → ℕ → ℕ → ℕ → CrcType → ℕ → ℕ
buffer_size_by_mtu_ex sizes peers_count mtu tx_window crc_type rx_window =
    sizes.fd_size
    + sizes.align
    - 1
    + at_least_one peers_count * sizes.peer_size
    + hdlc_ll_get_buf_size_ex sizes.align sizes.hdlc_size (mtu + header_size) crc_type rx_window
    + queue_bytes sizes mtu tx_window
    + queue_bytes sizes 2 u_queue_max_size

abbrev pub buffer_size_by_mtu : Sizes → ℕ → ℕ → ℕ
buffer_size_by_mtu sizes mtu window = buffer_size_by_mtu_ex sizes 0 mtu window crc_16 1

-- The size for the `mtu` and the window that are asked for.
abbrev pub needed : Sizes → FdInit → ℕ
needed sizes init =
    buffer_size_by_mtu_ex sizes (at_least_one init.peers_count) init.mtu init.window_frames
      init.crc_type 1

-- The largest `mtu` for the buffer, 0 where the buffer is too small.
abbrev pub choose_mtu : Sizes → FdInit → ℕ
choose_mtu sizes init =
    (init.buffer_size - needed sizes (record init { mtu = 0 })) / (init.window_frames + 1)

-- The tests of `__tiny_fd_init_validate` once the `mtu` is known.
abbrev pub check_sizes : Sizes → FdInit → Status
check_sizes sizes init =
    if ltb init.buffer_size (needed sizes init)
    then out_of_memory
    else (if ltb init.window_frames 2 || ltb 7 init.window_frames
        then invalid_data
        else (if init.retry_timeout == 0 && init.send_timeout == 0 then invalid_data else success))

abbrev pub with_mtu : Sizes → FdInit → FdInit
with_mtu sizes init = if init.mtu == 0 then record init { mtu = choose_mtu sizes init } else init

unfoldable pub init_validate : Sizes → FdInit → Status
init_validate sizes init =
    if not init.on_read_cb || init.buffer == 0 || init.buffer_size == 0
    then invalid_data
    else (if init.mtu == 0 && ltb (choose_mtu sizes init) 2
        then out_of_memory
        else check_sizes sizes (with_mtu sizes init))

-- What memory of zeros holds; `hdlc_ll_init` and `tiny_fd_queue_reset` set the states and the types.
abbrev pub zero_hdlc : HdlcLl
zero_hdlc = record {
  crc_type = crc_default;
  rx = record {
    state = read_start;
    phys_mtu = 0;
    rx_buf = [];
    active_frame_buf = 0;
    ptr = 0;
    escape = false;
    on_frame_read = false;
    frames_read = [];
  };
  tx = record {
    state = send_start;
    out_buffer = [];
    out_buffer_len = 0;
    origin_data = none;
    rest = [];
    len = 0;
    crc = 0;
    escape = false;
    on_frame_send = false;
    frames_sent = [];
  };
}

abbrev pub read_zeros : List ℕ → FrameInfo
read_zeros bytes = record { type = queue_free; len = 0; address = 0; control = 0; payload = [] }

-- Where the HDLC level's memory begins, how long it is, and the end of the buffer. A buffer that
-- passes the tests is long enough for the subtractions.
abbrev pub hdlc_ll_ptr : Sizes → FdInit → ℕ
hdlc_ll_ptr sizes init = aligned sizes.align init.buffer + sizes.fd_size

abbrev pub buffer_end : FdInit → ℕ
buffer_end init = init.buffer + init.buffer_size

unfoldable pub hdlc_ll_size : Sizes → FdInit → ℕ
hdlc_ll_size sizes init =
    (buffer_end init
      - hdlc_ll_ptr sizes init
      - 4
      - queue_bytes sizes init.mtu init.window_frames
      - queue_bytes sizes 2 u_queue_max_size
      - at_least_one init.peers_count * sizes.peer_size)
    / sizes.align
    * sizes.align

abbrev pub hdlc_init : Sizes → FdInit → HdlcLlInit
hdlc_init sizes init = record {
  buf = hdlc_ll_ptr sizes init;
  memory = replicate (hdlc_ll_size sizes init) 0;
  crc_type = init.crc_type;
  mtu = init.mtu + header_size;
  on_frame_read = true;
  on_frame_send = true;
}

-- What the functions on addresses see before the peers are set up.
abbrev pub new_station : FdInit → Station
new_station init = record {
  mode = init.mode;
  addr = address_field init.addr;
  peers = [];
  next_peer = 0;
}

abbrev pub new_peer : FdInit → FdPeer
new_peer init = record {
  state = disconnected;
  addr =
      if is_secondary_station (new_station init) || is_abm init.mode
      then address_field init.addr
      else invalid_peer;
  sent_nr = 0;
  sent_reject = false;
  srej_req_mask = 0;
  i_queue_control = reset_i_queue_control;
  last_sent_i_ts = 0;
  last_sent_frame_ts = 0;
  last_received_frame_ts = 0;
  ka_confirmed = false;
  retries = init.retries;
  can_accept_i_frames = false;
}

abbrev pub new_fd : FdInit → HdlcLl → FdQueue → FdQueue → Fd
new_fd init hdlc i_queue s_queue = record {
  on_read_cb = init.on_read_cb;
  on_send_cb = init.on_send_cb;
  on_read_ui_cb = init.on_read_ui_cb;
  on_connect_event_cb = init.on_connect_event_cb;
  hdlc = hdlc;
  retry_timeout =
      if init.retry_timeout == 0
      then init.send_timeout / (init.retries + 1)
      else init.retry_timeout;
  ka_timeout = 5000;
  retries = init.retries;
  i_queue = i_queue;
  s_queue = s_queue;
  peers = replicate (at_least_one init.peers_count) (new_peer init);
  addr = address_field init.addr;
  next_peer = 0;
  last_marker_ts = 0;
  mode = init.mode;
  sending = none;
  tx_sending = false;
  tx_data_available = false;
  queue_has_free_slots = true;
  has_marker = is_primary_station (new_station init);
  calls = [];
  hung = false;
}

abbrev pub after_hdlc : FdInit → FdQueue → FdQueue → Status × Option HdlcLl → Status × Option Fd
after_hdlc init i_queue s_queue (error, none) = (error, none)
after_hdlc init i_queue s_queue (error, some hdlc) =
    (error, some (new_fd init hdlc i_queue s_queue))

-- The peers behind both tables, and then the HDLC level. `at` is where the second table begins.
abbrev pub place_peers :
    Sizes → FdInit → ℕ → FdQueue → Option (ℕ × List ℕ × FdQueue) → Status × Option Fd
place_peers sizes init at i_queue none = (invalid_data, none)
place_peers sizes init at i_queue (some (used, slots, s_queue)) =
    if ltb (buffer_end init)
      (aligned sizes.align (at + used) + sizes.peer_size * at_least_one init.peers_count)
    then (out_of_memory, none)
    else after_hdlc init i_queue s_queue
        (hdlc_ll_init sizes.align sizes.hdlc_size zero_hdlc (hdlc_init sizes init))

-- The table of S- and U-frames behind that of I-frames, which begins at `at`.
abbrev pub place_s_queue : Sizes → FdInit → ℕ → Option (ℕ × List ℕ × FdQueue) → Status × Option Fd
place_s_queue sizes init at none = (invalid_data, none)
place_s_queue sizes init at (some (used, slots, i_queue)) =
    let next = aligned sizes.align (at + used) in
    place_peers sizes init next i_queue (
      queue_init sizes.pointer_size sizes.info_size read_zeros
        (replicate (buffer_end init - next) 0) u_queue_max_size 2)

-- The buffer is filled with zeros and laid out.
unfoldable pub place : Sizes → FdInit → Status × Option Fd
place sizes init =
    let at = aligned sizes.align (hdlc_ll_ptr sizes init + hdlc_ll_size sizes init) in
    place_s_queue sizes init at (
      queue_init sizes.pointer_size sizes.info_size read_zeros (replicate (buffer_end init - at) 0)
        init.window_frames init.mtu)

abbrev pub unless_error : Status → Status × Option Fd → Status × Option Fd
unless_error success placed = placed
unless_error error placed = (error, none)

unfoldable pub fd_init : Sizes → FdInit → Status × Option Fd
fd_init sizes init = unless_error (init_validate sizes init) (place sizes (with_mtu sizes init))

-- `tiny_fd_close`: the HDLC level reports a frame that is still being sent.
unfoldable pub fd_close : Fd → Option Fd
fd_close fd = unless_hung (after_tx (hdlc_ll_close fd.hdlc.tx) fd)
