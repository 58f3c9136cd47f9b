-- ===== src/Fd/Api.antt =====
-- What the user calls: the functions of src/proto/fd/tiny_fd.c that put packets on the queue, end a
-- connection and register peers. A wait for an event succeeds at once or times out.
use tinyproto.Prelude.{
  ℕ, zero, suc, ◌+◌, ◌*◌, ◌%◌, ◌^◌, Bool, true, false, not, ◌&&◌, ◌||◌, Option, none, some, List,
  [], ◌∷◌, length, take, drop, ltb, min, ◌==◌, if◌then◌else◌, ◌>>=◌,
}
use tinyproto.Hdlc.Bytes.{
  is_success, Status, success, failed, timeout, data_too_large, unknown_peer,
}
use tinyproto.Fd.FramesQueue.{
  FdQueue, i_frame, u_frame, queue_allocate, queue_has_free_slots, update,
}
use tinyproto.Fd.IQueueControl.{move_last_ns, tx_full}
use tinyproto.Fd.Peers.{invalid_peer, clear_cr, is_secondary_station, address_field_to_peer}
use tinyproto.Fd.Control.{u_control, type_ui, type_disc}
use tinyproto.Fd.Handle.{
  Fd, disconnecting, FdPeer, Link, peer_at, put_back, station, peer_address, elapsed,
}
use tinyproto.Fd.ServiceQueue.{put_u_s_frame, with_header, put_header}
use tinyproto.Fd.OnFrame.{may_exchange}

-- `(address << 2) | HDLC_E_BIT` as a uint8_t.
abbrev pub address_field : ℕ → ℕ
address_field address = (address * 4 + 1) % 2 ^ 8

-- The peer that a packet for the address goes to.
unfoldable pub target_peer : ℕ → Fd → ℕ
target_peer address fd =
    address_field_to_peer (station fd) (
      address_field
        (if is_secondary_station (station fd) && address == 0 then fd.addr else address))

-- `__put_i_frame_to_tx_queue` of tiny_fd_i_queue_control.c after the allocation.
abbrev pub put_numbered : Option ℕ × FdQueue → Link → Bool × Link
put_numbered (none, queue) link = (false, link)
put_numbered (some index, queue) link = (
  true,
  record {
    fd = record link.fd {
      i_queue =
          update queue index
            (with_header (peer_address link) (link.peer.i_queue_control.last_ns * 2 % 2 ^ 8));
      tx_data_available = true;
    };
    peer = record link.peer { i_queue_control = move_last_ns link.peer.i_queue_control };
  },
)

unfoldable pub put_i_frame : List ℕ → Link → Bool × Link
put_i_frame bytes link = put_numbered (queue_allocate link.fd.i_queue i_frame bytes) link

abbrev pub set_free_slots : Bool → Link → Link
set_free_slots value link = record link { fd = record link.fd { queue_has_free_slots = value } }

abbrev pub set_can_accept : Bool → Link → Link
set_can_accept value link = record link { peer = record link.peer { can_accept_i_frames = value } }

-- The two events are cleared by the waits that found them, and set again while there is room.
abbrev pub after_put : Bool × Link → Status × Link
after_put (done, link) = (
  if done then success else timeout,
  set_can_accept (not (tx_full link.peer.i_queue_control))
      (set_free_slots (done && queue_has_free_slots link.fd.i_queue) link),
)

unfoldable pub send_to_link : List ℕ → Link → Status × Link
send_to_link bytes link =
    if ltb link.fd.i_queue.mtu (length bytes)
    then (data_too_large, link)
    else (if link.peer.can_accept_i_frames && link.fd.queue_has_free_slots
        then after_put (put_i_frame bytes (set_can_accept false (set_free_slots false link)))
        else (timeout, link))

abbrev pub link_at : ℕ → Fd → Link
link_at peer fd = record { fd = fd; peer = peer_at fd peer }

abbrev pub put_back_with : ℕ → Status × Link → Status × Fd
put_back_with peer (status, link) = (status, put_back peer link)

unfoldable pub send_packet_to : ℕ → List ℕ → Fd → Status × Fd
send_packet_to address bytes fd =
    let peer = target_peer address fd in
    if peer == invalid_peer
    then (unknown_peer, fd)
    else put_back_with peer (send_to_link bytes (link_at peer fd))

abbrev pub send_packet : List ℕ → Fd → Status × Fd
send_packet bytes fd = send_packet_to 0 bytes fd

-- The result of `tiny_fd_send_ui_packet_to` by that of the allocation.
abbrev pub after_ui : ℕ → Option ℕ × FdQueue → Fd → Status × Fd
after_ui address (none, queue) fd = (failed, fd)
after_ui address (some index, queue) fd =
    (success, (put_header address (u_control type_ui) (some index, queue) fd).1)

unfoldable pub send_ui_packet_to : ℕ → List ℕ → Fd → Status × Fd
send_ui_packet_to address bytes fd =
    let peer = target_peer address fd in
    if ltb fd.s_queue.mtu (length bytes)
    then (data_too_large, fd)
    else (if peer == invalid_peer
        then (unknown_peer, fd)
        else after_ui (clear_cr (peer_at fd peer).addr) (queue_allocate fd.s_queue u_frame bytes)
            fd)

abbrev pub send_ui_packet : List ℕ → Fd → Status × Fd
send_ui_packet bytes fd = send_ui_packet_to 0 bytes fd

-- The loop of `tiny_fd_send_to` over the bytes that are left, `total` of which are sent; packets are
-- as long as the queue takes. `none` means that the fuel ran out.
unfoldable pub send_loop : ℕ → ℕ → List ℕ → ℕ → Fd → Option (ℕ × Fd)
send_loop zero address bytes total fd = none
send_loop (suc fuel) address bytes total fd =
    let size = min (length bytes) fd.i_queue.mtu in
    let (status, fd') = send_packet_to address (take size bytes) fd in
    let more = send_loop fuel address (drop size bytes) (total + size) fd' in
    if length bytes == 0
    then some (total, fd)
    else (if is_success status then more else some (total, fd'))

-- A packet takes at least one byte.
unfoldable pub send_to : ℕ → List ℕ → Fd → Option (ℕ × Fd)
send_to address bytes fd = send_loop (length bytes + 1) address bytes 0 fd

abbrev pub send : List ℕ → Fd → Option (ℕ × Fd)
send bytes fd = send_to 0 bytes fd

abbrev pub set_ka_timeout : ℕ → Fd → Fd
set_ka_timeout keep_alive fd = record fd { ka_timeout = keep_alive % 2 ^ 16 }

abbrev pub get_mtu : Fd → ℕ
get_mtu fd = fd.i_queue.mtu

unfoldable pub get_status : Fd → Status
get_status fd = if may_exchange (peer_at fd 0).state then success else failed

abbrev pub after_disc : Link → Option ℕ × Fd → Status × Link
after_disc link (none, fd) = (failed, record link { fd = fd })
after_disc link (some index, fd) =
    (success, record { fd = fd; peer = record link.peer { state = disconnecting } })

unfoldable pub disconnect : Fd → Status × Fd
disconnect fd =
    let link = link_at 0 fd in
    put_back_with 0 (
      after_disc link
        (put_u_s_frame u_frame (peer_address link + 2) (u_control type_disc) [] link.fd))

-- The loop of `tiny_fd_register_peer` over the peers from the front; `none` is a full table.
unfoldable pub take_free_peer : ℕ → ℕ → List FdPeer → Option (List FdPeer)
take_free_peer address ts [] = none
take_free_peer address ts (peer ∷ peers) =
    let more = take_free_peer address ts peers >>= λ rest. some (peer ∷ rest) in
    if peer.addr == invalid_peer
    then some (record peer { addr = address; last_received_frame_ts = ts } ∷ peers)
    else more

abbrev pub with_peers : Option (List FdPeer) → Fd → Status × Fd
with_peers none fd = (failed, fd)
with_peers (some peers) fd = (success, record fd { peers = peers })

unfoldable pub register_peer : ℕ → ℕ → Fd → Status × Fd
register_peer now address fd =
    let field = address_field address in
    if ltb 63 address || field == 1
    then (failed, fd)
    else (if not (address_field_to_peer (station fd) field == invalid_peer)
        then (failed, fd)
        else with_peers (take_free_peer field (elapsed now fd.retry_timeout) fd.peers) fd)
