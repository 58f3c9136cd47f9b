-- ===== src/Fd/Invariant/Handles.antt =====
-- The functions of src/proto/fd/tiny_fd.c that the user calls keep the invariant of the handle.
use tinyproto.Prelude.{
  ℕ, zero, suc, ◌≡◌, sym, subst, List, [], ◌∷◌, arith, refl, ◌∙◌, length-set, ◌&&◌, ◌==◌, get_or,
  set,
}
use tinyproto.Fd.FramesQueue.Slots.{IsFdQueue}
use tinyproto.Fd.IQueueControl.{reset_i_queue_control}
use tinyproto.Fd.Control.{is_i_control, has_p}
use tinyproto.Fd.Peers.{address_field_to_peer, invalid_peer, switch_to_next_peer}
use tinyproto.Fd.Handle.{
  Fd, FdPeer, Link, FramePtr, s_slot, i_slot, no_peer, put_back, station, is_primary, frame_at,
}
use tinyproto.Fd.OnFrame.{
  on_frame_read, free_service, after_switch, release_marker, on_frame_send, read_frames, is_nrm,
}
use tinyproto.Fd.Api.{link_at}
use tinyproto.Fd.Peers.Turn.{switch_to_next_peer-Next}
use tinyproto.Fd.FramesQueue.Reset.{length-map}
use tinyproto.Fd.Invariant.{AllPeers, IsFd, IsHdlc, IsPeer, IsLink, if_keeps}
use tinyproto.Fd.Invariant.Tables.{free_by_header-IsFdQueue}
use tinyproto.Fd.Invariant.Steps.Frames.{dispatch-IsLink, note_arrival-IsLink}

no_peer-IsPeer : IsPeer no_peer
unfolding reset_i_queue_control
no_peer-IsPeer = record {
  awake = refl;
  numbers = record {
    last = omega arith;
    confirm = omega arith;
    next_s = omega arith;
    next_r = omega arith;
  };
  quiet = λ q. record { numbers = refl; rejects = refl; requests = refl; waits = refl };
}

pub get_or-IsPeer : (peers : List FdPeer) (i : ℕ) → AllPeers peers → IsPeer (get_or peers i no_peer)
get_or-IsPeer [] i all = no_peer-IsPeer
get_or-IsPeer (p ∷ peers) zero all = all.0
get_or-IsPeer (p ∷ peers) (suc i) all = get_or-IsPeer peers i all.1

set-AllPeers :
    (peers : List FdPeer) (i : ℕ) (peer : FdPeer)
    → IsPeer peer
    → AllPeers peers
    → AllPeers (set peers i peer)
set-AllPeers [] i peer v all = all
set-AllPeers (p ∷ peers) zero peer v all = (v, all.1)
set-AllPeers (p ∷ peers) (suc i) peer v all = (all.0, set-AllPeers peers i peer v all.1)

pub link_at-IsLink : (peer : ℕ) (fd : Fd) → IsFd fd → IsLink (link_at peer fd)
link_at-IsLink peer fd t = record { tables = t; peer = get_or-IsPeer fd.peers peer t.peers }

pub put_back-IsFd : (peer : ℕ) (link : Link) → IsLink link → IsFd (put_back peer link)
put_back-IsFd peer link v = record {
  i_table = v.tables.i_table;
  s_table = v.tables.s_table;
  peers = set-AllPeers link.fd.peers peer link.peer v.peer v.tables.peers;
  hdlc = v.tables.hdlc;
  runs = v.tables.runs;
  turn = omega (arith, v.tables.turn, length-set link.fd.peers peer link.peer);
}

-- A handle with the same tables, peers and HDLC level.
pub same-IsFd :
    {fd : Fd} (fd' : Fd)
    → fd'.i_queue ≡ fd.i_queue
    → fd'.s_queue ≡ fd.s_queue
    → fd'.peers ≡ fd.peers
    → fd'.hdlc ≡ fd.hdlc
    → fd'.hung ≡ fd.hung
    → fd'.next_peer ≡ fd.next_peer
    → IsFd fd
    → IsFd fd'
same-IsFd fd' i s p l g n t = record {
  i_table = subst IsFdQueue (sym i) t.i_table;
  s_table = subst IsFdQueue (sym s) t.s_table;
  peers = subst AllPeers (sym p) t.peers;
  hdlc = subst IsHdlc (sym l) t.hdlc;
  runs = g ∙ t.runs;
  turn = rw (n, p) t.turn;
}

pub on_frame_read-IsFd :
    (now : ℕ) (frame : List ℕ) (fd : Fd) → IsFd fd → IsFd (on_frame_read now frame fd)
unfolding on_frame_read
on_frame_read-IsFd now [] fd t = t
on_frame_read-IsFd now (a ∷ []) fd t = t
on_frame_read-IsFd now (address ∷ control ∷ payload) fd t =
    let peer = address_field_to_peer (station fd) address in
    let noted = note_arrival-IsLink now _ (link_at-IsLink peer fd t) in
    if_keeps IsFd (peer == invalid_peer) (λ e. t)
      (λ e.
        same-IsFd _ refl refl refl refl refl refl
          (put_back-IsFd peer _ (dispatch-IsLink now address control payload _ noted)))

pub read_frames-IsFd :
    (now : ℕ) (frames : List (List ℕ)) (fd : Fd) → IsFd fd → IsFd (read_frames now frames fd)
unfolding read_frames
read_frames-IsFd now [] fd t = t
read_frames-IsFd now (frame ∷ frames) fd t =
    read_frames-IsFd now frames _ (on_frame_read-IsFd now frame fd t)

free_service-IsFd : (ptr : FramePtr) (fd : Fd) → IsFd fd → IsFd (free_service ptr fd)
free_service-IsFd (s_slot index) fd t = record {
  i_table = t.i_table;
  s_table = free_by_header-IsFdQueue fd.s_queue index t.s_table;
  peers = t.peers;
  hdlc = t.hdlc;
  runs = t.runs;
  turn = t.turn;
}
free_service-IsFd (i_slot index) fd t = t

-- The turn of a handle goes to a peer of the table, and the search ends.
after_switch-IsFd : (fd : Fd) → IsFd fd → IsFd (after_switch (switch_to_next_peer (station fd)) fd)
after_switch-IsFd fd t =
    let size = length-map (λ (p : FdPeer). p.addr) fd.peers in
    let (next, runs, first, inside) =
      switch_to_next_peer-Next (station fd) (omega (arith, size, t.turn)) in
    rw runs (record {
      i_table = t.i_table;
      s_table = t.s_table;
      peers = t.peers;
      hdlc = t.hdlc;
      runs = t.runs;
      turn = omega (arith, size, inside);
    })

release_marker-IsFd : (control : ℕ) (fd : Fd) → IsFd fd → IsFd (release_marker control fd)
release_marker-IsFd control fd t =
    if_keeps IsFd (is_nrm fd.mode && has_p control)
      (λ e.
        same-IsFd _ refl refl refl refl refl refl
          (if_keeps IsFd (is_primary fd) (λ e. after_switch-IsFd fd t) (λ e. t)))
      (λ e. t)

pub on_frame_send-IsFd : (ptr : FramePtr) (fd : Fd) → IsFd fd → IsFd (on_frame_send ptr fd)
unfolding on_frame_send
on_frame_send-IsFd ptr fd t =
    let control = (frame_at fd ptr).control in
    if_keeps IsFd (address_field_to_peer (station fd) (frame_at fd ptr).address == invalid_peer)
      (λ e. t)
      (λ e. same-IsFd _ refl refl refl refl refl refl (
        release_marker-IsFd control _
          (if_keeps IsFd (is_i_control control) (λ e. t) (λ e. free_service-IsFd ptr fd t))))
