-- ===== src/Fd/Invariant/Tables.antt =====
-- The operations on the tables of frames keep their shape.
use tinyproto.Prelude.{
  ℕ, ◌≡◌, Bool, true, false, Option, none, some, List, arith, refl, inl, inr, Bool-cases,
  Option-cases, get_elem?, length, ltb,
}
use tinyproto.Fd.FramesQueue.{
  FrameInfo, FrameType, FdQueue, update, queue_allocate, queue_free_by_header,
}
use tinyproto.Fd.FramesQueue.Slots.{
  IsFdQueue, SlotFits, get_elem?-below, update-Changes, update-lookup, Changes-IsFdQueue,
}
use tinyproto.Fd.FramesQueue.Allocate.{allocate-Allocated, free_by_header-Changes}
use tinyproto.Fd.FramesQueue.Reset.{reset_for-IsFdQueue}
use tinyproto.Fd.Handle.{Fd, Link, UserCall, call_user, peer_address}
use tinyproto.Fd.Connection.{drop_i_frames}
use tinyproto.Fd.ServiceQueue.{with_header, put_header, put_u_s_frame, send_u_s_frame}
use tinyproto.Fd.Invariant.{IsFd, IsLink, IsOpen}

-- A change of a slot that keeps its memory.
pub update-IsFdQueue :
    (queue : FdQueue) (index : ℕ) (f : FrameInfo → FrameInfo)
    → ((frame : FrameInfo) → SlotFits queue.mtu frame → SlotFits queue.mtu (f frame))
    → IsFdQueue queue
    → IsFdQueue (update queue index f)
update-IsFdQueue queue index f keeps v = elim (Option-cases (get_elem? queue.frames index)) [
  | inl e ↦ rw (update, e) v
  | inr (frame, e) ↦
      let c = update-Changes queue index f (get_elem?-below queue.frames index frame e) in
      Changes-IsFdQueue c keeps v
        (omega (arith, update-lookup queue index f, c.same_size, v.starts))
]

pub allocate-IsFdQueue :
    (queue : FdQueue) (type : FrameType) (bytes : List ℕ)
    → IsFdQueue queue
    → IsFdQueue (queue_allocate queue type bytes).1
allocate-IsFdQueue queue type bytes v = (allocate-Allocated queue type bytes v).1

pub free_by_header-IsFdQueue :
    (queue : FdQueue) (index : ℕ) → IsFdQueue queue → IsFdQueue (queue_free_by_header queue index)
unfolding queue_free_by_header
free_by_header-IsFdQueue queue index v = elim (Bool-cases (ltb index (length queue.frames))) [
  | inl inside ↦ (free_by_header-Changes queue index v (ground arith)).1
  | inr outside ↦ rw outside v
]

pub put_header-IsFd :
    (address control : ℕ) (put : Option ℕ × FdQueue) (fd : Fd)
    → IsFdQueue put.1
    → IsFd fd
    → IsFd (put_header address control put fd).1
put_header-IsFd address control (none, queue) fd v t = t
put_header-IsFd address control (some index, queue) fd v t = record {
  i_table = t.i_table;
  s_table = update-IsFdQueue queue index (with_header address control) (λ frame fits. fits) v;
  peers = t.peers;
  hdlc = t.hdlc;
  runs = t.runs;
  turn = t.turn;
}

pub put_u_s-IsFd :
    (type : FrameType) (address control : ℕ) (bytes : List ℕ) (fd : Fd)
    → IsFd fd
    → IsFd (put_u_s_frame type address control bytes fd).1
unfolding put_u_s_frame
put_u_s-IsFd type address control bytes fd t =
    put_header-IsFd address control (queue_allocate fd.s_queue type bytes) fd
      (allocate-IsFdQueue fd.s_queue type bytes t.s_table) t

pub send_u_s-IsFd :
    (type : FrameType) (address control : ℕ) (bytes : List ℕ) (link : Link)
    → IsFd link.fd
    → IsFd (send_u_s_frame type address control bytes link).fd
unfolding send_u_s_frame
send_u_s-IsFd type address control bytes link t = put_u_s-IsFd type address control bytes link.fd t

pub send_u_s-IsOpen :
    (type : FrameType) (address control : ℕ) (bytes : List ℕ) (link : Link)
    → IsOpen link
    → IsOpen (send_u_s_frame type address control bytes link)
unfolding send_u_s_frame
send_u_s-IsOpen type address control bytes link o = record {
  tables = put_u_s-IsFd type address control bytes link.fd o.tables;
  numbers = o.numbers;
  loud = o.loud;
}

pub send_u_s-IsLink :
    (type : FrameType) (address control : ℕ) (bytes : List ℕ) (link : Link)
    → IsLink link
    → IsLink (send_u_s_frame type address control bytes link)
unfolding send_u_s_frame
send_u_s-IsLink type address control bytes link v = record {
  tables = put_u_s-IsFd type address control bytes link.fd v.tables;
  peer = v.peer;
}

-- The table of I-frames without the frames of the peer.
pub drop_i_frames-IsFd : (link : Link) → IsFd link.fd → IsFd (drop_i_frames link).fd
drop_i_frames-IsFd link t = record {
  i_table = reset_for-IsFdQueue link.fd.i_queue (peer_address link) t.i_table;
  s_table = t.s_table;
  peers = t.peers;
  hdlc = t.hdlc;
  runs = t.runs;
  turn = t.turn;
}

pub call_user-IsFd :
    (b : Bool) (call : UserCall) (link : Link) → IsFd link.fd → IsFd (call_user b call link).fd
call_user-IsFd true call link t = record {
  i_table = t.i_table;
  s_table = t.s_table;
  peers = t.peers;
  hdlc = t.hdlc;
  runs = t.runs;
  turn = t.turn;
}
call_user-IsFd false call link t = t

pub call_user-peer :
    (b : Bool) (call : UserCall) (link : Link) → (call_user b call link).peer ≡ link.peer
call_user-peer true call link = refl
call_user-peer false call link = refl
