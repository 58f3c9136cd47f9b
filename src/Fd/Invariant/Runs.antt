-- ===== src/Fd/Invariant/Runs.antt =====
-- Runs of a handle of src/proto/fd: every sequence of calls of the user.
use tinyproto.Prelude.{ℕ, ◌≡◌, refl, Option, some, List, [], ◌∷◌, ◌>>=◌}
use tinyproto.Fd.Handle.{Fd}
use tinyproto.Fd.OnFrame.{fd_on_rx_data}
use tinyproto.Fd.TxData.{fd_get_tx_data}
use tinyproto.Fd.Api.{
  send_packet_to, send_ui_packet_to, send_to, disconnect, register_peer, set_ka_timeout,
}
use tinyproto.Fd.Invariant.{IsFd, Returns, Returns-bind, Returns-some}
use tinyproto.Fd.Invariant.Handles.{same-IsFd}
use tinyproto.Fd.Invariant.Transmit.{fd_on_rx_data-IsFd}
use tinyproto.Fd.Invariant.Rounds.{fd_get_tx_data-IsFd}
use tinyproto.Fd.Invariant.Calls.{
  send_packet_to-IsFd, send_ui_packet_to-IsFd, send_to-IsFd, disconnect-IsFd, register_peer-IsFd,
}

-- A call with its arguments; the calls that look at the clock have the time first.
pub data Call : Type 0 where
  receive_bytes : ℕ → List ℕ → Call
  get_bytes : ℕ → ℕ → Call
  send_packet_of send_ui_packet_of send_of : ℕ → List ℕ → Call
  end_connection : Call
  register : ℕ → ℕ → Call
  change_ka_timeout : ℕ → Call

-- The handle after a call.
unfoldable pub on_call : Call → Fd → Option Fd
on_call (receive_bytes now input) fd = fd_on_rx_data now input fd
on_call (get_bytes now len) fd = fd_get_tx_data now len fd >>= λ r. some r.fd
on_call (send_packet_of address bytes) fd = some (send_packet_to address bytes fd).1
on_call (send_ui_packet_of address bytes) fd = some (send_ui_packet_to address bytes fd).1
on_call (send_of address bytes) fd = send_to address bytes fd >>= λ r. some r.1
on_call end_connection fd = some (disconnect fd).1
on_call (register now address) fd = some (register_peer now address fd).1
on_call (change_ka_timeout timeout) fd = some (set_ka_timeout timeout fd)

unfoldable pub on_calls : List Call → Fd → Option Fd
on_calls [] fd = some fd
on_calls (call ∷ calls) fd = on_call call fd >>= λ fd'. on_calls calls fd'

on_call-IsFd : (call : Call) (fd : Fd) → IsFd fd → Returns IsFd (on_call call fd)
unfolding on_call
on_call-IsFd (receive_bytes now input) fd t = fd_on_rx_data-IsFd now input fd t
on_call-IsFd (get_bytes now len) fd t =
    Returns-bind (λ r. IsFd r.fd) IsFd (fd_get_tx_data now len fd) _ (λ r h. h)
      (fd_get_tx_data-IsFd now len fd t)
on_call-IsFd (send_packet_of address bytes) fd t = send_packet_to-IsFd address bytes fd t
on_call-IsFd (send_ui_packet_of address bytes) fd t = send_ui_packet_to-IsFd address bytes fd t
on_call-IsFd (send_of address bytes) fd t =
    Returns-bind (λ r. IsFd r.1) IsFd (send_to address bytes fd) _ (λ r h. h)
      (send_to-IsFd address bytes fd t)
on_call-IsFd end_connection fd t = disconnect-IsFd fd t
on_call-IsFd (register now address) fd t = register_peer-IsFd now address fd t
on_call-IsFd (change_ka_timeout timeout) fd t = same-IsFd _ refl refl refl refl refl refl t

on_calls-Returns : (calls : List Call) (fd : Fd) → IsFd fd → Returns IsFd (on_calls calls fd)
unfolding on_calls
on_calls-Returns [] fd t = t
on_calls-Returns (call ∷ calls) fd t =
    Returns-bind IsFd IsFd (on_call call fd) _ (λ fd' h. on_calls-Returns calls fd' h)
      (on_call-IsFd call fd t)

-- Every sequence of the user's calls on a handle that satisfies its invariant returns, whatever bytes
-- come from the line, writes only inside the receiver's buffer, and keeps the invariant: no loop for an
-- acknowledgement, for frames that are sent again or for the next peer has failed to end, and the turn
-- is at a peer of the table; both tables are in shape; the sequence numbers of every peer have three bits; no peer is back in the state
-- before `tiny_fd_init`; a peer that is disconnected or connecting has its numbers at 0, no rejection,
-- no requested frame, and takes no packets of the user; and the HDLC sender and receiver are valid.
pub on_calls-IsFd :
    (calls : List Call) (fd : Fd) → IsFd fd → (fd' : Fd) × (on_calls calls fd ≡ some fd') × IsFd fd'
on_calls-IsFd calls fd t = Returns-some IsFd (on_calls calls fd) (on_calls-Returns calls fd t)
