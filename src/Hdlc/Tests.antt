-- ===== src/Hdlc/Tests.antt =====
-- Runs of src/proto/hdlc/low_level/hdlc.c on concrete frames.
use tinyproto.Prelude.{
  ℕ, ◌≤◌, ◌≡◌, ◌⊎◌, refl, true, false, none, some, List, [], ◌∷◌, ◌++◌, arith, length, take,
  replicate, ap, ap₂, sym,
}
use tinyproto.Crc.{tiny_chksum, chksum_loop, crc_8, crc_off}
use tinyproto.Hdlc.Bytes.{success}
use tinyproto.Hdlc.Wire.{wire, fcs_size, stuff, fcs_bytes, le_bytes, fcs}
use tinyproto.Hdlc.Tx.{
  Tx, send_start, send_data, send_crc, hdlc_ll_close, hdlc_ll_put_frame, hdlc_ll_run_tx,
}
use tinyproto.Hdlc.Tx.Close.{close_reports}
use tinyproto.Hdlc.Tx.Reported.{frame_reported}
use tinyproto.Hdlc.Tx.Pending.{reports, IsTx, pending}
use tinyproto.Hdlc.Tx.Stream.{transmit, run_tx_stream, frame_goes_out}
use tinyproto.Hdlc.Rx.{Rx, RxResult, read_start, read_data, hdlc_ll_run_rx}
use tinyproto.Hdlc.Rx.Run.{Runs, run_rx-Runs}
use tinyproto.Hdlc.Rx.Chunks.{IsReady, receive, join, receive_hears}
use tinyproto.Hdlc.Rx.Listen.{listen, hear_all}
use tinyproto.Hdlc.Recovery.{frames_at_flag, frames_delivered, frames_recovered}
use tinyproto.Hdlc.RoundTrip.{frame_arrives}
use tinyproto.Hdlc.Init.{HdlcLl, HdlcLlInit, hdlc_ll_init, hdlc_ll_get_buf_size_ex}
use tinyproto.Hdlc.Init.Ready.{IsInitial, init_ready}

abbrev idle_tx : Tx
idle_tx = record {
  state = send_start;
  out_buffer = [];
  out_buffer_len = 0;
  origin_data = none;
  rest = [];
  len = 0;
  crc = 7;
  escape = false;
  on_frame_send = true;
  frames_sent = [];
}

abbrev frame : List ℕ
frame = 0x7e ∷ 1 ∷ []

-- The check sum of `frame` is 0x80; `image` has a stuffed byte.
abbrev image : List ℕ
image = 0x7e ∷ 0x7d ∷ 0x5e ∷ 1 ∷ 0x80 ∷ 0x7e ∷ []

-- A window of three bytes in a buffer of four.
abbrev ready_rx : Rx
ready_rx = record {
  state = read_start;
  phys_mtu = 3;
  rx_buf = 9 ∷ 9 ∷ 9 ∷ 9 ∷ [];
  active_frame_buf = 0;
  ptr = 100;
  escape = true;
  on_frame_read = true;
  frames_read = [];
}

abbrev escaped_rx : Rx
escaped_rx = record ready_rx { state = read_data; ptr = 2; escape = true }

idle_tx-IsTx : IsTx crc_8 idle_tx
idle_tx-IsTx = ground arith

ready_rx-IsReady : IsReady ready_rx
ready_rx-IsReady = ground arith

escaped_rx-IsReady : IsReady escaped_rx
escaped_rx-IsReady = ground arith

image_lem : wire crc_8 frame ≡ image
unfolding wire stuff fcs_bytes le_bytes fcs_size fcs tiny_chksum chksum_loop
image_lem = refl

-- Half of the frame is sent.
abbrev sending_tx : Tx
sending_tx = record idle_tx {
  state = send_data;
  origin_data = some frame;
  rest = 0x7e ∷ 1 ∷ [];
  len = 2;
  escape = true;
  crc = 0xff80;
}

sending_tx-IsTx : IsTx crc_8 sending_tx
sending_tx-IsTx = ground arith

run_tx_stream_example :
    (n : ℕ) × (tx' : Tx) × (hdlc_ll_run_tx crc_8 sending_tx 2 ≡ some (n, tx'))
    × IsTx crc_8 tx'
    × (tx'.out_buffer ++ pending crc_8 tx' ≡ pending crc_8 sending_tx)
    × (n ≡ length tx'.out_buffer)
    × (n ≤ 2)
    × ((n ≡ 2) ⊎ (pending crc_8 tx' ≡ []))
    × (tx'.on_frame_send ≡ true)
    × (sending_tx.on_frame_send ≡ true → reports tx' ≡ reports sending_tx)
run_tx_stream_example = run_tx_stream crc_8 sending_tx 2 sending_tx-IsTx

frame_reported_example :
    (bytes : List ℕ) × (last : Tx) × (transmit crc_8
        (4 ∷ 0 ∷ 5 ∷ [])
        (hdlc_ll_put_frame idle_tx frame).1
      ≡ some (bytes, last))
    × (last.frames_sent ≡ (some frame, 2) ∷ [])
    × (last.origin_data ≡ none)
frame_reported_example =
    frame_reported crc_8 idle_tx frame (4 ∷ 0 ∷ 5 ∷ []) idle_tx-IsTx refl refl refl (omega arith)
      (rw image_lem (omega arith))

frame_goes_out_example :
    (bytes : List ℕ) × (last : Tx) × (transmit crc_8
        (1 ∷ 3 ∷ [])
        (hdlc_ll_put_frame idle_tx frame).1
      ≡ some (bytes, last))
    × (bytes ≡ take 4 (wire crc_8 frame))
    × IsTx crc_8 last
frame_goes_out_example =
    frame_goes_out crc_8 idle_tx frame (1 ∷ 3 ∷ []) idle_tx-IsTx refl refl (omega arith)

run_rx-Runs_example :
    (n : ℕ) × (r : RxResult) × (hdlc_ll_run_rx crc_8 ready_rx image ≡ some r)
    × (r.result ≡ n)
    × Runs crc_8 ready_rx image n r.rx
run_rx-Runs_example = run_rx-Runs crc_8 ready_rx image ready_rx-IsReady.valid

abbrev chunks : List (List ℕ)
chunks = (0x7e ∷ 0x7d ∷ []) ∷ [] ∷ (0x5e ∷ 1 ∷ 0x80 ∷ 0x7e ∷ []) ∷ []

receive_hears_example :
    (rx' : Rx) × (receive crc_8 ready_rx chunks ≡ some rx')
    × IsReady rx'
    × (rx'.phys_mtu ≡ 3)
    × (listen crc_8 rx' ≡ hear_all crc_8 3 (listen crc_8 ready_rx) (join chunks))
receive_hears_example = receive_hears crc_8 ready_rx chunks ready_rx-IsReady

frames_delivered_example :
    (rx' : Rx) × (receive crc_8 ready_rx ((5 ∷ image) ∷ image ∷ []) ≡ some rx')
    × IsReady rx'
    × (rx'.state ≡ read_start)
    × (rx'.frames_read ≡ frame ∷ frame ∷ [])
frames_delivered_example =
    frames_delivered crc_8 ready_rx (5 ∷ []) (frame ∷ frame ∷ []) ((5 ∷ image) ∷ image ∷ [])
      (ground arith) ready_rx-IsReady refl (ground arith) (unfold fcs_size in ground arith)
      (ap₂ (λ a b. (5 ∷ a) ++ (b ++ [])) (sym image_lem) (sym image_lem))

frames_recovered_example :
    (rx' : Rx) × (receive crc_8 escaped_rx ((0x7e ∷ []) ∷ image ∷ []) ≡ some rx')
    × IsReady rx'
    × (rx'.state ≡ read_start)
    × (rx'.frames_read ≡ frames_at_flag crc_8 escaped_rx ++ frame ∷ [])
frames_recovered_example =
    frames_recovered crc_8 escaped_rx frame [] ((0x7e ∷ []) ∷ image ∷ []) (ground arith)
      escaped_rx-IsReady (unfold fcs_size in ground arith)
      (ap (λ a. 0x7e ∷ a ++ []) (sym image_lem))

frame_arrives_example :
    (last : Tx) × (rx' : Rx) × (transmit crc_8 (4 ∷ 0 ∷ 5 ∷ []) (hdlc_ll_put_frame idle_tx frame).1
      ≡ some (image, last))
    × (receive crc_8 ready_rx chunks ≡ some rx')
    × (rx'.state ≡ read_start)
    × (rx'.frames_read ≡ frame ∷ [])
frame_arrives_example =
    frame_arrives crc_8 idle_tx ready_rx frame (4 ∷ 0 ∷ 5 ∷ []) chunks idle_tx-IsTx refl refl
      ready_rx-IsReady refl (omega arith) (unfold fcs_size in omega arith)
      (rw image_lem (omega arith)) (sym (ap (take 9) image_lem))

-- A frame of 2 bytes in the memory that is asked for, at an address that is not aligned.
abbrev given : HdlcLlInit
given = record {
  buf = 13;
  memory = replicate 33 7;
  crc_type = crc_8;
  mtu = 2;
  on_frame_read = true;
  on_frame_send = false;
}

abbrev left_over : HdlcLl
left_over = record { crc_type = crc_off; rx = escaped_rx; tx = sending_tx }

init_ready_example :
    (h : HdlcLl) × (hdlc_ll_init 8 20 left_over given ≡ (success, some h))
    × (h.crc_type ≡ crc_8)
    × IsInitial 2 h
init_ready_example =
    init_ready 8 20 left_over given 2 (omega arith) (ground arith) (omega arith) (omega arith)
      (ground arith) refl (unfold hdlc_ll_get_buf_size_ex in omega arith)

-- One byte of the check sum is sent.
abbrev check_sum_tx : Tx
check_sum_tx = record idle_tx { state = send_crc; origin_data = some frame; len = 8; crc = 0xff80 }

check_sum_tx-IsTx : IsTx crc_8 check_sum_tx
check_sum_tx-IsTx = ground arith

close_reports_example :
    ((send_crc ≡ send_start) → (hdlc_ll_close check_sum_tx).frames_sent ≡ (some frame, 2) ∷ [])
    × ((send_crc ≡ send_crc) → (hdlc_ll_close check_sum_tx).frames_sent ≡ (some frame, 10) ∷ [])
close_reports_example = close_reports crc_8 check_sum_tx frame check_sum_tx-IsTx refl refl
