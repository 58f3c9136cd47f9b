-- ===== src/Fd/Invariant.antt =====
-- The invariant of a handle of src/proto/fd: the tables are in shape, the numbers have three bits, and a
-- peer that is not connected has nothing left of a connection.
pub mod Tables
pub mod Steps
pub mod Handles
pub mod Transmit
pub mod Rounds
pub mod Calls
pub mod Runs
use tinyproto.Prelude.{
  ◌≡◌, ◌<◌, length, refl, not, List, [], ◌∷◌, Option, none, some, ◌>>=◌, Bool, true, false,
  if◌then◌else◌,
}
use tinyproto.Hdlc.Tx.Pending.{IsTx}
use tinyproto.Hdlc.Rx.Chunks.{IsReady}
use tinyproto.Hdlc.Init.{HdlcLl}
use tinyproto.Fd.IQueueControl.{reset_i_queue_control}
use tinyproto.Fd.IQueueControl.Returns.{IsNumbers}
use tinyproto.Fd.FramesQueue.Slots.{IsFdQueue}
use tinyproto.Fd.Handle.{
  Fd, FdState, idle, disconnected, connecting, connected, disconnecting, FdPeer, Link,
}
use tinyproto.Fd.OnFrame.{may_exchange}

-- No I-frames are sent or taken.
abbrev pub is_quiet : FdState → Bool
is_quiet state = not (may_exchange state)

-- The state before `tiny_fd_init`.
abbrev pub is_idle : FdState → Bool
is_idle idle = true
is_idle _ = false

open_awake : (state : FdState) → is_quiet state ≡ false → is_idle state ≡ false
open_awake idle e = absurd (cc e)
open_awake disconnected e = refl
open_awake connecting e = refl
open_awake connected e = refl
open_awake disconnecting e = refl

-- Nothing of a connection is left, and the user's packets have to wait.
pub record IsReset (peer : FdPeer) : Type 0 where
  pub numbers : peer.i_queue_control ≡ reset_i_queue_control
  pub rejects : peer.sent_reject ≡ false
  pub requests : peer.srej_req_mask ≡ 0
  pub waits : peer.can_accept_i_frames ≡ false

pub record IsPeer (peer : FdPeer) : Type 0 where
  pub awake : is_idle peer.state ≡ false
  pub numbers : IsNumbers peer.i_queue_control
  pub quiet : is_quiet peer.state ≡ true → IsReset peer

abbrev pub AllPeers : List FdPeer → Type 0
AllPeers [] = Unit
AllPeers (peer ∷ peers) = IsPeer peer × AllPeers peers

-- Both halves of the HDLC level satisfy their invariants.
pub record IsHdlc (h : HdlcLl) : Type 0 where
  pub sender : IsTx h.crc_type h.tx
  pub receiver : IsReady h.rx

-- The tables, the peers and the HDLC level are in shape, no loop hangs, and the turn is at a peer of the
-- table.
pub record IsFd (fd : Fd) : Type 0 where
  pub i_table : IsFdQueue fd.i_queue
  pub s_table : IsFdQueue fd.s_queue
  pub peers : AllPeers fd.peers
  pub hdlc : IsHdlc fd.hdlc
  pub runs : fd.hung ≡ false
  pub turn : fd.next_peer < length fd.peers

pub record IsLink (link : Link) : Type 0 where
  pub tables : IsFd link.fd
  pub peer : IsPeer link.peer

-- A link whose peer is connected or is being disconnected.
pub record IsOpen (link : Link) : Type 0 where
  pub tables : IsFd link.fd
  pub numbers : IsNumbers link.peer.i_queue_control
  pub loud : is_quiet link.peer.state ≡ false

pub IsOpen-IsLink : {link : Link} → IsOpen link → IsLink link
IsOpen-IsLink {link} o = record {
  tables = o.tables;
  peer = record {
    awake = open_awake link.peer.state o.loud;
    numbers = o.numbers;
    quiet = λ q. absurd (cc (q, o.loud));
  };
}

pub IsLink-IsOpen : {link : Link} → IsLink link → is_quiet link.peer.state ≡ false → IsOpen link
IsLink-IsOpen v loud = record { tables = v.tables; numbers = v.peer.numbers; loud = loud }

-- A choice keeps what both of its branches keep.
pub if_keeps {ℓ κ} :
    {A : Type ℓ} (P : A → Type κ) (b : Bool) {x y : A}
    → (b ≡ true → P x)
    → (b ≡ false → P y)
    → P (if b then x else y)
if_keeps P true p q = p refl
if_keeps P false p q = q refl

-- There is a result, and the predicate holds of it.
abbrev pub Returns {ℓ} : {A : Type ℓ} → (A → Type 0) → Option A → Type 0
Returns P none = ⊥
Returns P (some a) = P a

pub Returns-bind {ℓ κ} :
    {A : Type ℓ} {B : Type κ} (P : A → Type 0) (Q : B → Type 0) (m : Option A) (f : A → Option B)
    → ((a : A) → P a → Returns Q (f a))
    → Returns P m
    → Returns Q (m >>= f)
Returns-bind P Q none f keeps h = h
Returns-bind P Q (some a) f keeps h = keeps a h

pub Returns-some {ℓ} :
    {A : Type ℓ} (P : A → Type 0) (m : Option A) → Returns P m → (a : A) × (m ≡ some a) × P a
Returns-some P none h = absurd h
Returns-some P (some a) h = (a, refl, h)
