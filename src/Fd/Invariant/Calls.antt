-- ===== src/Fd/Invariant/Calls.antt =====
-- The functions of src/proto/fd/tiny_fd.c for the user's packets, for the end of a connection and for the
-- peers keep the invariant of the handle.
use tinyproto.Prelude.{
  ℕ, zero, suc, ◌+◌, ◌<◌, ◌≡◌, ap, Option, none, some, List, [], ◌∷◌, arith, refl, not, ◌||◌, ◌==◌,
  ltb, length, drop, take, min, length-drop, ◌>>=◌,
}
use tinyproto.Hdlc.Bytes.{Status}
use tinyproto.Fd.FramesQueue.{u_frame, FdQueue, queue_allocate}
use tinyproto.Fd.FramesQueue.Slots.{IsFdQueue}
use tinyproto.Fd.Control.{u_control, type_disc, type_ui}
use tinyproto.Fd.Peers.{address_field_to_peer, invalid_peer}
use tinyproto.Fd.Handle.{Fd, FdPeer, Link, station, peer_address}
use tinyproto.Fd.ServiceQueue.{put_u_s_frame}
use tinyproto.Hdlc.Bytes.{is_success}
use tinyproto.Fd.Api.{
  address_field, link_at, target_peer, put_back_with, send_to_link, send_packet_to, after_ui,
  send_ui_packet_to, send_loop, send_to, after_disc, disconnect, take_free_peer, with_peers,
  register_peer,
}
use tinyproto.Fd.Invariant.{AllPeers, IsFd, IsLink, if_keeps, Returns}
use tinyproto.Fd.Invariant.Tables.{put_u_s-IsFd, allocate-IsFdQueue, put_header-IsFd}
use tinyproto.Fd.Invariant.Steps.Sending.{send_to_link-IsLink}
use tinyproto.Fd.Invariant.Handles.{link_at-IsLink, put_back-IsFd}

put_back_with-IsFd : (peer : ℕ) (r : Status × Link) → IsLink r.1 → IsFd (put_back_with peer r).1
put_back_with-IsFd peer (status, link) v = put_back-IsFd peer link v

pub send_packet_to-IsFd :
    (address : ℕ) (bytes : List ℕ) (fd : Fd) → IsFd fd → IsFd (send_packet_to address bytes fd).1
unfolding send_packet_to
send_packet_to-IsFd address bytes fd t =
    let peer = target_peer address fd in
    if_keeps (λ (r : Status × Fd). IsFd r.1) (peer == invalid_peer) (λ e. t)
      (λ e.
        put_back_with-IsFd peer (send_to_link bytes (link_at peer fd))
          (send_to_link-IsLink bytes _ (link_at-IsLink peer fd t)))

after_ui-IsFd :
    (address : ℕ) (put : Option ℕ × FdQueue) (fd : Fd)
    → IsFdQueue put.1
    → IsFd fd
    → IsFd (after_ui address put fd).1
after_ui-IsFd address (none, queue) fd v t = t
after_ui-IsFd address (some index, queue) fd v t =
    put_header-IsFd address (u_control type_ui) (some index, queue) fd v t

pub send_ui_packet_to-IsFd :
    (address : ℕ) (bytes : List ℕ) (fd : Fd) → IsFd fd → IsFd (send_ui_packet_to address bytes fd).1
unfolding send_ui_packet_to
send_ui_packet_to-IsFd address bytes fd t =
    if_keeps (λ (r : Status × Fd). IsFd r.1) (ltb fd.s_queue.mtu (length bytes)) (λ e. t)
      (λ e.
        if_keeps (λ (r : Status × Fd). IsFd r.1) (target_peer address fd == invalid_peer) (λ e. t)
          (λ e.
            after_ui-IsFd _ (queue_allocate fd.s_queue u_frame bytes) fd
              (allocate-IsFdQueue fd.s_queue u_frame bytes t.s_table) t))

after_disc-IsLink :
    (link : Link) (put : Option ℕ × Fd) → IsLink link → IsFd put.1 → IsLink (after_disc link put).1
after_disc-IsLink link (none, fd) v t = record { tables = t; peer = v.peer }
after_disc-IsLink link (some index, fd) v t = record {
  tables = t;
  peer = record { awake = refl; numbers = v.peer.numbers; quiet = λ q. absurd (cc q) };
}

-- A packet takes bytes, so that fewer are left.
send_loop-IsFd :
    (fuel address : ℕ) (bytes : List ℕ) (total : ℕ) (fd : Fd)
    → length bytes < fuel
    → IsFd fd
    → Returns (λ r. IsFd r.1) (send_loop fuel address bytes total fd)
unfolding send_loop
send_loop-IsFd zero address bytes total fd h t = absurd (omega arith)
send_loop-IsFd (suc fuel) address bytes total fd h t =
    let size = min (length bytes) fd.i_queue.mtu in
    let sent = send_packet_to address (take size bytes) fd in
    let kept = send_packet_to-IsFd address (take size bytes) fd t in
    if_keeps (Returns (λ r. IsFd r.1)) (length bytes == 0) (λ e. t)
      (λ some_left.
        if_keeps (Returns (λ r. IsFd r.1)) (is_success sent.0)
          (λ e.
            send_loop-IsFd fuel address (drop size bytes) (total + size) sent.1
              (ground (arith, some_left, t.i_table.sized, length-drop size bytes)) kept)
          (λ e. kept))

-- All bytes of the user: the call returns.
pub send_to-IsFd :
    (address : ℕ) (bytes : List ℕ) (fd : Fd)
    → IsFd fd
    → Returns (λ r. IsFd r.1) (send_to address bytes fd)
unfolding send_to
send_to-IsFd address bytes fd t =
    send_loop-IsFd (length bytes + 1) address bytes 0 fd (omega arith) t

pub disconnect-IsFd : (fd : Fd) → IsFd fd → IsFd (disconnect fd).1
unfolding disconnect
disconnect-IsFd fd t =
    let link = link_at 0 fd in
    let put = put_u_s_frame u_frame (peer_address link + 2) (u_control type_disc) [] fd in
    put_back_with-IsFd 0 (after_disc link put)
      (after_disc-IsLink link put (link_at-IsLink 0 fd t) (put_u_s-IsFd u_frame _ _ [] fd t))

-- What holds of a result, if there is one.
abbrev Holds {ℓ} : {A : Type ℓ} → (A → Type 0) → Option A → Type 0
Holds P none = Unit
Holds P (some a) = P a

Holds-bind {ℓ κ} :
    {A : Type ℓ} {B : Type κ} (P : A → Type 0) (Q : B → Type 0) (m : Option A) (f : A → Option B)
    → ((a : A) → P a → Holds Q (f a))
    → Holds P m
    → Holds Q (m >>= f)
Holds-bind P Q none f keeps h = tt
Holds-bind P Q (some a) f keeps h = keeps a h

-- A table of peers as long as the one before.
abbrev AreAsMany : List FdPeer → List FdPeer → Type 0
AreAsMany before peers = AllPeers peers × (length peers ≡ length before)

with_peers-IsFd :
    (peers : Option (List FdPeer)) (fd : Fd)
    → Holds (AreAsMany fd.peers) peers
    → IsFd fd
    → IsFd (with_peers peers fd).1
with_peers-IsFd none fd h t = t
with_peers-IsFd (some peers) fd h t = record {
  i_table = t.i_table;
  s_table = t.s_table;
  peers = h.0;
  hdlc = t.hdlc;
  runs = t.runs;
  turn = rw h.1 t.turn;
}

take_free_peer-AreAsMany :
    (address ts : ℕ) (peers : List FdPeer)
    → AllPeers peers
    → Holds (AreAsMany peers) (take_free_peer address ts peers)
unfolding take_free_peer
take_free_peer-AreAsMany address ts [] all = tt
take_free_peer-AreAsMany address ts (peer ∷ peers) all =
    if_keeps (Holds (AreAsMany (peer ∷ peers))) (peer.addr == invalid_peer)
      (λ e. (
        (
          record {
            awake = all.0.awake;
            numbers = all.0.numbers;
            quiet = λ q.
                let r = all.0.quiet q in
                record {
                  numbers = r.numbers;
                  rejects = r.rejects;
                  requests = r.requests;
                  waits = r.waits;
                };
          },
          all.1,
        ),
        refl,
      ))
      (λ e.
        Holds-bind (AreAsMany peers) (AreAsMany (peer ∷ peers)) (take_free_peer address ts peers) _
          (λ rest h. ((all.0, h.0), ap suc h.1)) (take_free_peer-AreAsMany address ts peers all.1))

pub register_peer-IsFd :
    (now address : ℕ) (fd : Fd) → IsFd fd → IsFd (register_peer now address fd).1
unfolding register_peer
register_peer-IsFd now address fd t =
    if_keeps (λ (r : Status × Fd). IsFd r.1) (ltb 63 address || address_field address == 1) (λ e. t)
      (λ e.
        if_keeps (λ (r : Status × Fd). IsFd r.1)
          (not (address_field_to_peer (station fd) (address_field address) == invalid_peer))
          (λ e. t) (λ e. with_peers-IsFd _ fd (take_free_peer-AreAsMany _ _ fd.peers t.peers) t))
