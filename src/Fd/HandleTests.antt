-- ===== src/Fd/HandleTests.antt =====
-- Runs of src/proto/fd on a concrete handle: calls of the user, I-frames and U-frames of the other
-- station, and the set-up.
use tinyproto.Prelude.{
  ℕ, zero, suc, ◌+◌, ◌%◌, ◌≤◌, ◌≡◌, ◌⊎◌, inl, refl, true, false, none, some, List, [], ◌∷◌, ◌++◌,
  arith, length, get_elem?, replicate,
}
use tinyproto.Crc.{crc_8, crc_16}
use tinyproto.Hdlc.Bytes.{success}
use tinyproto.Hdlc.Tx.{send_start}
use tinyproto.Hdlc.Rx.{read_start}
use tinyproto.Hdlc.Wire.{wire, fcs_size}
use tinyproto.Hdlc.Init.{hdlc_ll_get_buf_size_ex}
use tinyproto.Fd.FramesQueue.{FrameInfo, queue_free, FdQueue, is_free}
use tinyproto.Fd.FramesQueue.Slots.{IsFdQueue}
use tinyproto.Fd.Peers.{mode_abm}
use tinyproto.Fd.Handle.{Fd, FdPeer, Link, connected, connecting}
use tinyproto.Fd.Invariant.{IsFd, IsPeer, IsOpen}
use tinyproto.Fd.Invariant.Runs.{
  Call, receive_bytes, get_bytes, send_packet_of, send_of, end_connection, on_calls, on_calls-IsFd,
}
use tinyproto.Fd.OnRx.{on_u_frame_read}
use tinyproto.Fd.TxData.{TxData, fd_get_tx_data}
use tinyproto.Fd.Invariant.Rounds.{fd_get_tx_data-IsGiven}
use tinyproto.Fd.Diagram.{input_of, next_state, told, connect_events}
use tinyproto.Fd.Diagram.Switch.{Follows}
use tinyproto.Fd.Diagram.Follow.{on_u_frame_read-Follows}
use tinyproto.Fd.Delivery.{Listens, reads}
use tinyproto.Fd.Delivery.Stream.{
  Frame, Arrivals, nothing, expected, unexpected, supervisory, packets, take_frames,
  take_frames-Listens,
}
use tinyproto.Fd.Init.{
  Sizes, FdInit, with_mtu, choose_mtu, fd_init, new_peer, buffer_size_by_mtu_ex,
}
use tinyproto.Fd.Init.Layout.{IsAligned}
use tinyproto.Fd.Init.Ready.{IsAccepted, fd_init_ready}

abbrev slot : FrameInfo
slot = record { type = queue_free; len = 0; address = 0; control = 0; payload = 0 ∷ 0 ∷ [] }

abbrev table : FdQueue
table = record { frames = slot ∷ slot ∷ []; lookup_index = 0; mtu = 2 }

table-IsFdQueue : IsFdQueue table
table-IsFdQueue = record { starts = omega arith; holds = holds; sized = omega arith }
  where
    holds :
        (i : ℕ) (frame : FrameInfo)
        → get_elem? table.frames i ≡ some frame
        → (length frame.payload ≡ 2) × ((is_free frame.type ≡ true) ⊎ (frame.len ≤ 2))
    holds zero frame e = ground arith
    holds (suc zero) frame e = ground arith
    holds (suc (suc i)) frame e = absurd (cc)

-- A peer that has sent frames 0 and 1 of the stream below, and is connected.
abbrev other_station : FdPeer
other_station = record {
  state = connected;
  addr = 1;
  sent_nr = 0;
  sent_reject = false;
  srej_req_mask = 0;
  i_queue_control = record { last_ns = 0; confirm_ns = 0; next_ns = 0; next_nr = 2 };
  last_sent_i_ts = 0;
  last_sent_frame_ts = 0;
  last_received_frame_ts = 0;
  ka_confirmed = true;
  retries = 2;
  can_accept_i_frames = true;
}

abbrev pub handle : Fd
handle = record {
  on_read_cb = true;
  on_send_cb = true;
  on_read_ui_cb = false;
  on_connect_event_cb = true;
  hdlc = record {
    crc_type = crc_8;
    rx = record {
      state = read_start;
      phys_mtu = 5;
      rx_buf = replicate 6 0;
      active_frame_buf = 0;
      ptr = 0;
      escape = false;
      on_frame_read = true;
      frames_read = [];
    };
    tx = record {
      state = send_start;
      out_buffer = [];
      out_buffer_len = 0;
      origin_data = none;
      rest = [];
      len = 0;
      crc = 0;
      escape = false;
      on_frame_send = true;
      frames_sent = [];
    };
  };
  retry_timeout = 100;
  ka_timeout = 5000;
  retries = 2;
  i_queue = table;
  s_queue = table;
  peers = other_station ∷ [];
  addr = 1;
  next_peer = 0;
  last_marker_ts = 0;
  mode = mode_abm;
  sending = none;
  tx_sending = false;
  tx_data_available = false;
  queue_has_free_slots = true;
  has_marker = true;
  calls = [];
  hung = false;
}

other_station-IsPeer : IsPeer other_station
other_station-IsPeer = record { awake = refl; numbers = ground arith; quiet = λ q. absurd (cc q) }

pub handle-IsFd : IsFd handle
handle-IsFd = record {
  i_table = table-IsFdQueue;
  s_table = table-IsFdQueue;
  peers = (other_station-IsPeer, tt);
  hdlc = ground arith;
  runs = refl;
  turn = omega arith;
}

abbrev link : Link
link = record { fd = handle; peer = other_station }

link-IsOpen : IsOpen link
link-IsOpen = record { tables = handle-IsFd; numbers = ground arith; loud = refl }

-- A packet goes out, an I-frame comes in pieces, and the user ends the connection.
abbrev calls : List Call
calls =
    send_packet_of 0 (7 ∷ 8 ∷ [])
    ∷ get_bytes 10 64
    ∷ receive_bytes 20 (0x7e ∷ 0x01 ∷ [])
    ∷ receive_bytes 21 (wire crc_8 (1 ∷ 0x24 ∷ 9 ∷ []))
    ∷ send_of 0 (1 ∷ 2 ∷ 3 ∷ [])
    ∷ end_connection
    ∷ get_bytes 40 3
    ∷ []

on_calls-IsFd_example : (fd' : Fd) × (on_calls calls handle ≡ some fd') × IsFd fd'
on_calls-IsFd_example = on_calls-IsFd calls handle handle-IsFd

-- FRMR with the P bit.
link-Follows : Follows link connected []
unfolding connect_events
link-Follows = record { is = refl; events_are = refl; tells = refl }

on_u_frame_read-Follows_example :
    Follows
      (on_u_frame_read 5 3 0x97 [] link)
      (next_state connected (input_of 0x97))
      ([] ++ told connected (input_of 0x97))
on_u_frame_read-Follows_example = on_u_frame_read-Follows 5 3 0x97 [] link connected [] link-Follows

frmr_reconnects : next_state connected (input_of 0x97) ≡ connecting
unfolding next_state input_of
frmr_reconnects = refl

-- Packet `n` of the stream is the byte `n + 40`.
abbrev stream : ℕ → List ℕ
stream n = (n + 40) ∷ []

-- Packet 2, packet 2 again, packet 4 before its turn, an RR, packet 3.
abbrev frames : List Frame
frames =
    (1, 0x04, stream 2)
    ∷ (1, 0x14, stream 2)
    ∷ (1, 0x08, stream 4)
    ∷ (1, 0x01, [])
    ∷ (1, 0x06, stream 3)
    ∷ []

frames-Arrivals : Arrivals stream 2 frames 2
frames-Arrivals = expected 1 0x04 (omega arith) (
    unexpected 1 0x14 2 (omega arith) (omega arith) (omega arith) (omega arith) (
      unexpected 1 0x08 4 (omega arith) (omega arith) (omega arith) (omega arith)
        (supervisory 1 0x01 [] refl (expected 1 0x06 (omega arith) nothing))))

link-Listens : Listens link [] 2
unfolding reads
link-Listens = record { got = refl; expects = refl; listens = refl }

take_frames-Listens_example :
    let link' = take_frames 3 frames link in
    IsOpen link' × Listens link' ([] ++ packets stream 2 2) ((2 + 2) % 8)
take_frames-Listens_example =
    take_frames-Listens stream 3 2 2 frames link [] frames-Arrivals link-IsOpen link-Listens

-- The sizes of a platform with 64 bits.
abbrev sizes : Sizes
sizes = record {
  align = 8;
  fd_size = 184;
  hdlc_size = 136;
  peer_size = 48;
  pointer_size = 8;
  info_size = 10;
}

-- The `mtu` is left to the library, which chooses 96.
abbrev asked : FdInit
asked = record {
  on_read_cb = true;
  on_send_cb = false;
  on_read_ui_cb = false;
  on_connect_event_cb = true;
  buffer = 0x1000;
  buffer_size = 1020;
  send_timeout = 0;
  retry_timeout = 200;
  retries = 2;
  crc_type = crc_16;
  window_frames = 4;
  mtu = 0;
  addr = 0;
  peers_count = 0;
  mode = mode_abm;
}

chosen_lem : choose_mtu sizes asked ≡ 96
unfolding buffer_size_by_mtu_ex hdlc_ll_get_buf_size_ex
chosen_lem = refl

asked-IsAccepted : IsAccepted sizes asked
unfolding buffer_size_by_mtu_ex hdlc_ll_get_buf_size_ex
asked-IsAccepted = record {
  reads = refl;
  not_null = omega arith;
  window_least = omega arith;
  window_most = omega arith;
  mtu = λ e. omega arith;
  timeouts = inl (omega arith);
  crc = λ e. absurd (cc (e));
}

asked-IsAligned : IsAligned sizes (with_mtu sizes asked)
unfolding buffer_size_by_mtu_ex hdlc_ll_get_buf_size_ex
asked-IsAligned = omega arith

fd_init_ready_example :
    let chosen = with_mtu sizes asked in
    (fd : Fd) × (fd_init sizes asked ≡ (success, some fd))
    × IsFd fd
    × (fd.i_queue.mtu ≡ chosen.mtu)
    × (length fd.i_queue.frames ≡ 4)
    × (fd.peers ≡ new_peer chosen ∷ [])
    × (chosen.mtu + 2 + fcs_size fd.hdlc.crc_type ≤ fd.hdlc.rx.phys_mtu)
fd_init_ready_example = fd_init_ready sizes asked asked-IsAccepted asked-IsAligned

fd_get_tx_data-IsGiven_example :
    (r : TxData) × (fd_get_tx_data 5 3 handle ≡ some r) × IsFd r.fd × (length r.bytes ≤ 3)
fd_get_tx_data-IsGiven_example = fd_get_tx_data-IsGiven 5 3 handle handle-IsFd
