-- ===== src/Fd/Invariant/Steps/Sending.antt =====
-- The next frame to send and a packet of the user keep the invariant of the handle and one peer.
use tinyproto.Prelude.{
  ℕ, ◌≡◌, Bool, true, false, Option, none, some, List, arith, refl, not, ◌&&◌, ◌||◌, ◌==◌, ltb,
  length, get_or, Bool-cases, inl, inr,
}
use tinyproto.Fd.FramesQueue.{s_frame, i_frame, FdQueue, FrameInfo}
use tinyproto.Fd.FramesQueue.Slots.{IsFdQueue, SlotFits}
use tinyproto.Fd.IQueueControl.{move_last_ns, move_to_next_ns}
use tinyproto.Fd.Control.{is_s_control}
use tinyproto.Fd.Handle.{
  Fd, FdState, idle, disconnected, connecting, connected, disconnecting, Link, FramePtr, s_slot,
  i_slot, change_frame, is_primary, peer_address, no_frame, frame_at,
}
use tinyproto.Fd.ServiceQueue.{note_nr, get_next_s_u_frame}
use tinyproto.Fd.Connection.{is_disconnected, is_connecting}
use tinyproto.Fd.OnFrame.{is_nrm}
use tinyproto.Fd.NextFrame.{
  found_i_frame, clear_request, resend_requested, advance, get_next_i_frame, put_marker_frame,
  or_i_frame, or_marker_frame, sets_p, mark_frame, finish_frame, get_next_frame,
}
use tinyproto.Hdlc.Bytes.{Status}
use tinyproto.Fd.Api.{
  put_numbered, put_i_frame, set_free_slots, set_can_accept, after_put, send_to_link,
}
use tinyproto.Fd.Invariant.{
  IsFd, is_quiet, is_idle, IsLink, IsOpen, IsLink-IsOpen, IsOpen-IsLink, if_keeps,
}
use tinyproto.Fd.Invariant.Tables.{send_u_s-IsLink, update-IsFdQueue, allocate-IsFdQueue}

change_frame-IsFd :
    (ptr : FramePtr) (f : FrameInfo → FrameInfo) (fd : Fd)
    → ((mtu : ℕ) (frame : FrameInfo) → SlotFits mtu frame → SlotFits mtu (f frame))
    → IsFd fd
    → IsFd (change_frame ptr f fd)
change_frame-IsFd (s_slot index) f fd keeps t = record {
  i_table = t.i_table;
  s_table = update-IsFdQueue fd.s_queue index f (keeps fd.s_queue.mtu) t.s_table;
  peers = t.peers;
  hdlc = t.hdlc;
  runs = t.runs;
  turn = t.turn;
}
change_frame-IsFd (i_slot index) f fd keeps t = record {
  i_table = update-IsFdQueue fd.i_queue index f (keeps fd.i_queue.mtu) t.i_table;
  s_table = t.s_table;
  peers = t.peers;
  hdlc = t.hdlc;
  runs = t.runs;
  turn = t.turn;
}

note_nr-IsLink : (found : Option ℕ) (link : Link) → IsLink link → IsLink (note_nr found link).1
note_nr-IsLink none link v = v
note_nr-IsLink (some index) link v =
    if_keeps IsLink (is_s_control (get_or link.fd.s_queue.frames index no_frame).control)
      (λ e. record {
        tables = v.tables;
        peer = record {
          awake = v.peer.awake;
          numbers = v.peer.numbers;
          quiet = λ q.
              let r = v.peer.quiet q in
              record {
                numbers = r.numbers;
                rejects = r.rejects;
                requests = r.requests;
                waits = r.waits;
              };
        };
      })
      (λ e. v)

get_next_s_u-IsLink :
    (address : ℕ) (link : Link) → IsLink link → IsLink (get_next_s_u_frame address link).1
unfolding get_next_s_u_frame
get_next_s_u-IsLink address link v = note_nr-IsLink _ link v

found_i_frame-IsOpen :
    (now : ℕ) (found : Option ℕ) (link : Link)
    → IsOpen link
    → IsOpen (found_i_frame now found link).1
found_i_frame-IsOpen now none link o = o
found_i_frame-IsOpen now (some index) link o = record {
  tables = change_frame-IsFd (i_slot index) _ link.fd (λ mtu frame fits. fits) o.tables;
  numbers = o.numbers;
  loud = o.loud;
}

resend_requested-IsOpen :
    (now address : ℕ) (wanted : Option ℕ) (link : Link)
    → IsOpen link
    → IsOpen (resend_requested now address wanted link).1
resend_requested-IsOpen now address none link o = o
resend_requested-IsOpen now address (some nr) link o =
    found_i_frame-IsOpen now _ (clear_request nr link)
      (record { tables = o.tables; numbers = o.numbers; loud = o.loud })

advance-IsOpen : (r : Option FramePtr × Link) → IsOpen r.1 → IsOpen (advance r).1
unfolding move_to_next_ns
advance-IsOpen (none, link) o = o
advance-IsOpen (some ptr, link) o = record {
  tables = o.tables;
  numbers = record {
    last = o.numbers.last;
    confirm = o.numbers.confirm;
    next_s = omega arith;
    next_r = o.numbers.next_r;
  };
  loud = o.loud;
}

-- A state that is neither idle nor without a connection.
sends_loud :
    (state : FdState)
    → is_idle state ≡ false
    → (is_disconnected state || is_connecting state) ≡ false
    → is_quiet state ≡ false
sends_loud idle a e = absurd (cc a)
sends_loud disconnected a e = absurd (cc e)
sends_loud connecting a e = absurd (cc e)
sends_loud connected a e = refl
sends_loud disconnecting a e = refl

get_next_i_frame-IsLink :
    (now address : ℕ) (link : Link) → IsLink link → IsLink (get_next_i_frame now address link).1
unfolding get_next_i_frame
get_next_i_frame-IsLink now address link v =
    if_keeps (λ (r : Option FramePtr × Link). IsLink r.1)
      (is_disconnected link.peer.state || is_connecting link.peer.state) (λ e. v)
      (λ e.
        let o = IsLink-IsOpen v (sends_loud link.peer.state v.peer.awake e) in
        if_keeps (λ (r : Option FramePtr × Link). IsLink r.1) (not (link.peer.srej_req_mask == 0))
          (λ e. IsOpen-IsLink (resend_requested-IsOpen now address _ link o))
          (λ e. IsOpen-IsLink (advance-IsOpen _ (found_i_frame-IsOpen now _ link o))))

put_marker-IsLink :
    (address : ℕ) (link : Link) → IsLink link → IsLink (put_marker_frame address link)
put_marker-IsLink address link v =
    if_keeps IsLink
      (is_primary link.fd && (is_disconnected link.peer.state || is_connecting link.peer.state))
      (λ e. send_u_s-IsLink s_frame _ _ _ link v) (λ e. send_u_s-IsLink s_frame _ _ _ link v)

or_i_frame-IsLink :
    (now address : ℕ) (r : Option FramePtr × Link)
    → IsLink r.1
    → IsLink (or_i_frame now address r).1
or_i_frame-IsLink now address (some ptr, link) v = v
or_i_frame-IsLink now address (none, link) v = get_next_i_frame-IsLink now address link v

or_marker-IsLink :
    (address : ℕ) (r : Option FramePtr × Link) → IsLink r.1 → IsLink (or_marker_frame address r).1
or_marker-IsLink address (some ptr, link) v = v
or_marker-IsLink address (none, link) v =
    if_keeps (λ (r : Option FramePtr × Link). IsLink r.1) (is_nrm link.fd.mode)
      (λ e. get_next_s_u-IsLink address _ (put_marker-IsLink address link v)) (λ e. v)

mark_frame-IsLink : (ptr : FramePtr) (link : Link) → IsLink link → IsLink (mark_frame ptr link)
mark_frame-IsLink ptr link v =
    if_keeps IsLink (sets_p link (frame_at link.fd ptr).control)
      (λ e. record {
        tables = change_frame-IsFd ptr _ link.fd (λ mtu frame fits. fits) v.tables;
        peer = v.peer;
      })
      (λ e. v)

finish-IsLink : (now : ℕ) (r : Option FramePtr × Link) → IsLink r.1 → IsLink (finish_frame now r).1
finish-IsLink now (none, link) v = v
finish-IsLink now (some ptr, link) v =
    let m = mark_frame-IsLink ptr link v in
    record {
      tables = record {
        i_table = m.tables.i_table;
        s_table = m.tables.s_table;
        peers = m.tables.peers;
        hdlc = m.tables.hdlc;
        runs = m.tables.runs;
        turn = m.tables.turn;
      };
      peer = record {
        awake = m.peer.awake;
        numbers = m.peer.numbers;
        quiet = λ q.
            let r = m.peer.quiet q in
            record {
              numbers = r.numbers;
              rejects = r.rejects;
              requests = r.requests;
              waits = r.waits;
            };
      };
    }

-- The choice of the next frame.
pub get_next_frame-IsLink :
    (now : ℕ) (link : Link) → IsLink link → IsLink (get_next_frame now link).1
unfolding get_next_frame
get_next_frame-IsLink now link v =
    let address = peer_address link in
    finish-IsLink now _ (
      or_marker-IsLink address _
        (or_i_frame-IsLink now address _ (get_next_s_u-IsLink address link v)))

put_numbered-IsOpen :
    (r : Option ℕ × FdQueue) (link : Link)
    → IsFdQueue r.1
    → IsOpen link
    → IsOpen (put_numbered r link).1
unfolding move_last_ns
put_numbered-IsOpen (none, queue) link t o = o
put_numbered-IsOpen (some index, queue) link t o = record {
  tables = record {
    i_table = update-IsFdQueue queue index _ (λ frame fits. fits) t;
    s_table = o.tables.s_table;
    peers = o.tables.peers;
    hdlc = o.tables.hdlc;
    runs = o.tables.runs;
    turn = o.tables.turn;
  };
  numbers = record {
    last = omega arith;
    confirm = o.numbers.confirm;
    next_s = o.numbers.next_s;
    next_r = o.numbers.next_r;
  };
  loud = o.loud;
}

events-IsOpen :
    (slots accepts : Bool) (link : Link)
    → IsOpen link
    → IsOpen (set_can_accept accepts (set_free_slots slots link))
events-IsOpen slots accepts link o = record {
  tables = record {
    i_table = o.tables.i_table;
    s_table = o.tables.s_table;
    peers = o.tables.peers;
    hdlc = o.tables.hdlc;
    runs = o.tables.runs;
    turn = o.tables.turn;
  };
  numbers = o.numbers;
  loud = o.loud;
}

put_i_frame-IsOpen :
    (bytes : List ℕ) (link : Link) → IsOpen link → IsOpen (put_i_frame bytes link).1
unfolding put_i_frame
put_i_frame-IsOpen bytes link o =
    put_numbered-IsOpen _ link (allocate-IsFdQueue link.fd.i_queue i_frame bytes o.tables.i_table) o

after_put-IsOpen : (r : Bool × Link) → IsOpen r.1 → IsOpen (after_put r).1
after_put-IsOpen (done, link) o = events-IsOpen _ _ link o

-- The user may put packets only for a peer that exchanges frames.
accepting_loud :
    (link : Link)
    → IsLink link
    → link.peer.can_accept_i_frames ≡ true
    → is_quiet link.peer.state ≡ false
accepting_loud link v e = elim (Bool-cases (is_quiet link.peer.state)) [
  | inl q ↦ absurd (cc (e, (v.peer.quiet q).waits))
  | inr l ↦ l
]

-- A packet of the user.
pub send_to_link-IsLink :
    (bytes : List ℕ) (link : Link) → IsLink link → IsLink (send_to_link bytes link).1
unfolding send_to_link
send_to_link-IsLink bytes link v =
    if_keeps (λ (r : Status × Link). IsLink r.1) (ltb link.fd.i_queue.mtu (length bytes)) (λ e. v)
      (λ e.
        if_keeps (λ (r : Status × Link). IsLink r.1)
          (link.peer.can_accept_i_frames && link.fd.queue_has_free_slots)
          (λ e.
            let o = IsLink-IsOpen v (accepting_loud link v (ground (arith, e))) in
            IsOpen-IsLink
              (after_put-IsOpen _ (put_i_frame-IsOpen bytes _ (events-IsOpen false false link o))))
          (λ e. v))
