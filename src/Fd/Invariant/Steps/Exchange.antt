-- ===== src/Fd/Invariant/Steps/Exchange.antt =====
-- The handlers of I- and S-frames of tiny_fd_on_rx_int.h, and what they use of tiny_fd_tx.c.
use tinyproto.Prelude.{
  ℕ, ◌/◌, ◌%◌, ◌<◌, Bool, true, false, Option, none, some, List, arith, ◌&&◌, ◌==◌,
}
use tinyproto.Fd.FramesQueue.{u_frame, s_frame}
use tinyproto.Fd.IQueueControl.{all_frames_are_sent, move_to_next_frame_to_receive}
use tinyproto.Fd.IQueueControl.Returns.{confirm_sent_frames-returns, retransmit_returns}
use tinyproto.Fd.Handle.{Link, UserCall, call_user}
use tinyproto.Fd.Control.{is_command, s_type, type_rnr, type_rej, type_rr}
use tinyproto.Fd.Confirm.{
  restore_retries, free_i_frame, confirm_slot, on_frame_confirmed, confirm_frames,
  resend_all_unconfirmed_frames, with_control, request_tx,
}
use tinyproto.Fd.OnRx.{
  take_next, send_rr, send_rej, check_received_frame, accept_i_frame, after_check, on_i_frame_read,
  on_s_frame_read, answer_rr, request_frame, p_bit_of,
}
use tinyproto.Fd.Invariant.{IsOpen, if_keeps}
use tinyproto.Fd.Invariant.Tables.{free_by_header-IsFdQueue, send_u_s-IsOpen}

pub call_user-IsOpen :
    (b : Bool) (call : UserCall) (link : Link) → IsOpen link → IsOpen (call_user b call link)
call_user-IsOpen true call link o = record {
  tables = record {
    i_table = o.tables.i_table;
    s_table = o.tables.s_table;
    peers = o.tables.peers;
    hdlc = o.tables.hdlc;
    runs = o.tables.runs;
    turn = o.tables.turn;
  };
  numbers = o.numbers;
  loud = o.loud;
}
call_user-IsOpen false call link o = o

free_i_frame-IsOpen : (index : ℕ) (link : Link) → IsOpen link → IsOpen (free_i_frame index link)
free_i_frame-IsOpen index link o = record {
  tables = record {
    i_table = free_by_header-IsFdQueue link.fd.i_queue index o.tables.i_table;
    s_table = o.tables.s_table;
    peers = o.tables.peers;
    hdlc = o.tables.hdlc;
    runs = o.tables.runs;
    turn = o.tables.turn;
  };
  numbers = o.numbers;
  loud = o.loud;
}

restore_retries-IsOpen : (link : Link) → IsOpen link → IsOpen (restore_retries link)
restore_retries-IsOpen link o = record { tables = o.tables; numbers = o.numbers; loud = o.loud }

confirm_slot-IsOpen :
    (found : Option ℕ) (link : Link) → IsOpen link → IsOpen (confirm_slot found link).1
confirm_slot-IsOpen none link o = restore_retries-IsOpen link o
confirm_slot-IsOpen (some index) link o =
    restore_retries-IsOpen _
      (free_i_frame-IsOpen index _ (call_user-IsOpen link.fd.on_send_cb _ link o))

pub on_frame_confirmed-IsOpen :
    (nr : ℕ) (link : Link) → IsOpen link → IsOpen (on_frame_confirmed nr link).1
unfolding on_frame_confirmed
on_frame_confirmed-IsOpen nr link o = confirm_slot-IsOpen _ link o

pub confirm_frames-IsOpen : (nr : ℕ) (link : Link) → IsOpen link → IsOpen (confirm_frames nr link)
unfolding confirm_frames
confirm_frames-IsOpen nr link o =
    let (confirm, link', runs, small, o') =
      confirm_sent_frames-returns IsOpen on_frame_confirmed nr link.peer.i_queue_control link
        on_frame_confirmed-IsOpen o.numbers o in
    rw (runs) (record {
      tables = o'.tables;
      numbers = record {
        last = o.numbers.last;
        confirm = small;
        next_s = o.numbers.next_s;
        next_r = o.numbers.next_r;
      };
      loud = o'.loud;
    })

with_next-IsOpen :
    (next : ℕ) (link : Link)
    → next < 8
    → IsOpen link
    → IsOpen (with_control (record link.peer.i_queue_control { next_ns = next }) link)
with_next-IsOpen next link h o = record {
  tables = o.tables;
  numbers = record {
    last = o.numbers.last;
    confirm = o.numbers.confirm;
    next_s = h;
    next_r = o.numbers.next_r;
  };
  loud = o.loud;
}

pub request_tx-IsOpen : (link : Link) → IsOpen link → IsOpen (request_tx link)
request_tx-IsOpen link o = record {
  tables = record {
    i_table = o.tables.i_table;
    s_table = o.tables.s_table;
    peers = o.tables.peers;
    hdlc = o.tables.hdlc;
    runs = o.tables.runs;
    turn = o.tables.turn;
  };
  numbers = o.numbers;
  loud = o.loud;
}

pub resend-IsOpen :
    (rejected nr : ℕ) (link : Link)
    → IsOpen link
    → IsOpen (resend_all_unconfirmed_frames rejected nr link)
unfolding resend_all_unconfirmed_frames
resend-IsOpen rejected nr link o =
    let (next, runs, small) = retransmit_returns nr link.peer.i_queue_control o.numbers in
    let moved = with_next-IsOpen next link small o in
    rw runs (
      request_tx-IsOpen _
        (if_keeps IsOpen (next == nr) (λ e. moved) (λ e. send_u_s-IsOpen u_frame _ _ _ _ moved)))

pub send_rr-IsOpen : (p_bit : ℕ) (link : Link) → IsOpen link → IsOpen (send_rr p_bit link)
send_rr-IsOpen p_bit link o = send_u_s-IsOpen s_frame _ _ _ link o

pub send_rej-IsOpen : (link : Link) → IsOpen link → IsOpen (send_rej link)
send_rej-IsOpen link o =
    send_u_s-IsOpen s_frame _ _ _ (record link { peer = record link.peer { sent_reject = true } })
      (record { tables = o.tables; numbers = o.numbers; loud = o.loud })

pub taken-IsOpen : (link : Link) → IsOpen link → IsOpen (record link { peer = take_next link.peer })
unfolding move_to_next_frame_to_receive
taken-IsOpen link o = record {
  tables = o.tables;
  numbers = record {
    last = o.numbers.last;
    confirm = o.numbers.confirm;
    next_s = o.numbers.next_s;
    next_r = omega arith;
  };
  loud = o.loud;
}

pub check_received-IsOpen :
    (ns : ℕ) (link : Link) → IsOpen link → IsOpen (check_received_frame ns link).1
unfolding check_received_frame
check_received-IsOpen ns link o =
    if_keeps (λ (r : Bool × Link). IsOpen r.1) (ns == link.peer.i_queue_control.next_nr)
      (λ e. taken-IsOpen link o)
      (λ e.
        if_keeps (λ (r : Bool × Link). IsOpen r.1) link.peer.sent_reject (λ e. o)
          (λ e. send_rej-IsOpen link o))

accept_i_frame-IsOpen :
    (payload : List ℕ) (link : Link) → IsOpen link → IsOpen (accept_i_frame payload link)
accept_i_frame-IsOpen payload link o =
    let told = call_user-IsOpen link.fd.on_read_cb _ link o in
    if_keeps IsOpen _ (λ e. send_rr-IsOpen 0 _ told) (λ e. told)

after_check-IsOpen :
    (control : ℕ) (payload : List ℕ) (r : Bool × Link)
    → IsOpen r.1
    → IsOpen (after_check control payload r)
after_check-IsOpen control payload (expected, checked) o =
    let confirmed = confirm_frames-IsOpen (control / 32) _ o in
    if_keeps IsOpen expected (λ e. accept_i_frame-IsOpen payload _ confirmed) (λ e. confirmed)

pub on_i_frame_read-IsOpen :
    (control : ℕ) (payload : List ℕ) (link : Link)
    → IsOpen link
    → IsOpen (on_i_frame_read control payload link)
unfolding on_i_frame_read
on_i_frame_read-IsOpen control payload link o =
    after_check-IsOpen control payload _ (check_received-IsOpen (control / 2 % 8) link o)

answer_rr-IsOpen :
    (address control : ℕ) (link : Link) → IsOpen link → IsOpen (answer_rr address control link)
answer_rr-IsOpen address control link o =
    if_keeps IsOpen (is_command address && all_frames_are_sent link.peer.i_queue_control)
      (λ e. send_rr-IsOpen (p_bit_of control) link o) (λ e. o)

requested-IsOpen :
    (nr : ℕ) (link : Link)
    → IsOpen link
    → IsOpen (record link { peer = request_frame nr link.peer })
requested-IsOpen nr link o = record { tables = o.tables; numbers = o.numbers; loud = o.loud }

pub on_s_frame_read-IsOpen :
    (address control : ℕ) (link : Link)
    → IsOpen link
    → IsOpen (on_s_frame_read address control link)
unfolding on_s_frame_read
on_s_frame_read-IsOpen address control link o =
    let confirmed = confirm_frames-IsOpen (control / 32) link o in
    if_keeps IsOpen (s_type control == type_rej)
      (λ e. resend-IsOpen control (control / 32) _ confirmed)
      (λ e.
        if_keeps IsOpen (s_type control == type_rr)
          (λ e. answer_rr-IsOpen address control _ confirmed)
          (λ e.
            if_keeps IsOpen (s_type control == type_rnr) (λ e. confirmed)
              (λ e. request_tx-IsOpen _ (requested-IsOpen (control / 32) _ confirmed))))
