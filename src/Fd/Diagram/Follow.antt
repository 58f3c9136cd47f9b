-- ===== src/Fd/Diagram/Follow.antt =====
-- The handler of U-frames, `__on_u_frame_read` of src/proto/fd/tiny_fd_on_rx_int.h, follows the table of
-- the states.
use tinyproto.Prelude.{
  ℕ, ◌+◌, ◌||◌, ◌≡◌, refl, ap, ◌∙◌, Bool, true, false, List, [], ◌∷◌, ◌++◌, append_assoc,
  append-nil, arith, ◌&&◌, if◌then◌else◌,
}
use tinyproto.Fd.FramesQueue.{u_frame}
use tinyproto.Fd.Invariant.{if_keeps}
use tinyproto.Fd.Control.{u_control, type_ua, type_dm, is_command}
use tinyproto.Fd.Handle.{
  FdState, idle, disconnected, connecting, connected, disconnecting, Link, read_ui, call_user,
  user_address, peer_address,
}
use tinyproto.Fd.Connection.{
  is_connected, is_disconnected, is_connecting, is_disconnecting, switch_to_disconnected,
  reset_numbers,
}
use tinyproto.Fd.OnRx.{
  send_u_answer, on_set_mode, on_disc, on_rset, on_frmr, on_ua, on_ui, on_u_frame_read,
  connect_type,
}
use tinyproto.Fd.Diagram.{
  Input, set_mode, disc, rset, frmr, ua, dm, ui, unknown, input_of, next_state, told,
  connect_events,
}
use tinyproto.Fd.Diagram.Switch.{
  Follows, connect_events-append, recast_events, unchanged, send_u_s-Follows, disconnects, connects,
}

-- The handlers by what is asked for.
handle : ℕ → List ℕ → Input → Link → Link
handle now payload set_mode link = on_set_mode now link
handle now payload disc link = on_disc link
handle now payload rset link = on_rset link
handle now payload frmr link = on_frmr link
handle now payload ua link = on_ua now link
handle now payload dm link = switch_to_disconnected link
handle now payload ui link = on_ui payload link
handle now payload unknown link = link

-- What a disconnected station does not answer.
abbrev needs_connection : Input → Bool
needs_connection set_mode = false
needs_connection ui = false
needs_connection _ = true

on_u_frame_read-handle :
    (now address control : ℕ) (payload : List ℕ) (link : Link)
    → on_u_frame_read now address control payload link ≡ (
        if is_disconnected link.peer.state && needs_connection (input_of control)
        then (if is_command address then send_u_answer type_dm link else link)
        else handle now payload (input_of control) link)
unfolding on_u_frame_read input_of handle
on_u_frame_read-handle now address control payload link = ground arith

module _ (link : Link) {state : FdState} {events : List Bool} where
  answered : (type : ℕ) → Follows link state events → Follows (send_u_answer type link) state events
  answered type f = send_u_s-Follows u_frame _ _ [] link f

  read_ui-Follows :
      (b : Bool) (payload : List ℕ)
      → Follows link state events
      → Follows (call_user b (read_ui (user_address link) payload) link) state events
  unfolding connect_events
  read_ui-Follows false payload f = f
  read_ui-Follows true payload f = record {
    is = f.is;
    events_are =
        connect_events-append link.fd.calls (read_ui (user_address link) payload ∷ [])
        ∙ append-nil (connect_events link.fd.calls)
        ∙ f.events_are;
    tells = f.tells;
  }

  on_rset-Follows : Follows link state events → Follows (on_rset link) state events
  on_rset-Follows f =
      send_u_s-Follows u_frame _ _ [] (record link { peer = reset_numbers link.peer })
        (record { is = f.is; events_are = f.events_are; tells = f.tells })

  on_disc-Follows :
      is_disconnected state ≡ false
      → Follows link state events
      → Follows (on_disc link) disconnected (events ++ false ∷ [])
  on_disc-Follows busy f = disconnects (send_u_answer type_ua link) state busy (answered type_ua f)

  on_frmr-Follows :
      is_disconnected state ≡ false
      → Follows link state events
      → Follows (on_frmr link) connecting (events ++ false ∷ [])
  on_frmr-Follows busy f =
      let closed = disconnects link state busy f in
      let asked =
        send_u_s-Follows u_frame (peer_address link + 2) (u_control (connect_type link.fd.mode)) []
          _ closed in
      record { is = refl; events_are = asked.events_are; tells = asked.tells }

  set_mode_at_rest :
      (now : ℕ)
      → is_connected state ≡ false
      → is_disconnected state || is_connecting state ≡ true
      → Follows link state events
      → Follows (on_set_mode now link) connected (events ++ true ∷ [])
  set_mode_at_rest now new rest f =
      rw (ap (λ s. is_disconnected s || is_connecting s) f.is ∙ rest)
        (connects now (send_u_answer type_ua link) state new (answered type_ua f))

  set_mode_busy :
      (now : ℕ)
      → is_disconnected state ≡ false
      → is_connecting state ≡ false
      → Follows link state events
      → Follows (on_set_mode now link) connected (events ++ false ∷ true ∷ [])
  set_mode_busy now busy ready f =
      rw (ap is_disconnected f.is ∙ busy, ap is_connecting f.is ∙ ready)
        (recast_events (append_assoc events (false ∷ []) (true ∷ [])) (
          connects now _ disconnected refl
            (disconnects (send_u_answer type_ua link) state busy (answered type_ua f))))

-- Of a station that is not disconnected, by its state and by what the frame asks for.
handle-Follows :
    (now : ℕ) (payload : List ℕ) (link : Link) (state : FdState) (input : Input)
    → {events : List Bool} → is_disconnected state ≡ false
    → Follows link state events
    → Follows (handle now payload input link) (next_state state input) (events ++ told state input)
unfolding handle next_state told
handle-Follows now payload link disconnected input busy f = absurd (cc busy)
handle-Follows now payload link connecting set_mode _ f = set_mode_at_rest link now refl refl f
handle-Follows now payload link state set_mode busy f = set_mode_busy link now refl refl f
handle-Follows now payload link state disc busy f = on_disc-Follows link busy f
handle-Follows now payload link state rset busy f = unchanged (on_rset-Follows link f)
handle-Follows now payload link state frmr busy f = on_frmr-Follows link busy f
handle-Follows now payload link state dm busy f = disconnects link _ busy f
handle-Follows now payload link connecting ua busy f =
    rw (ap is_connecting f.is) (connects now link connecting refl f)
handle-Follows now payload link disconnecting ua busy f =
    rw (ap is_connecting f.is)
      (rw (ap is_disconnecting f.is) (disconnects link disconnecting refl f))
handle-Follows now payload link state ua busy f =
    rw (ap is_connecting f.is) (rw (ap is_disconnecting f.is) (unchanged f))
handle-Follows now payload link state ui busy f = unchanged (read_ui-Follows link _ payload f)
handle-Follows now payload link state unknown busy f = unchanged f

-- A disconnected station: only to set the mode changes its state.
at_rest-Follows :
    (now address : ℕ) (payload : List ℕ) (link : Link) (input : Input) {events : List Bool}
    → Follows link disconnected events
    → Follows
        (if needs_connection input
          then (if is_command address then send_u_answer type_dm link else link)
          else handle now payload input link)
        (next_state disconnected input)
        (events ++ told disconnected input)
unfolding handle next_state told
at_rest-Follows now address payload link set_mode f = set_mode_at_rest link now refl refl f
at_rest-Follows now address payload link ui f = unchanged (read_ui-Follows link _ payload f)
at_rest-Follows now address payload link input {events} f = unchanged (
    if_keeps (λ l. Follows l disconnected events) (is_command address)
      (λ e. answered link type_dm f) (λ e. f))

-- The handler of U-frames follows the table: from a peer in a state, whose user is told of connections,
-- a U-frame takes the peer to the next state of the table, and the user is told of exactly the ends
-- and starts of a connection that the table has, in this order, after those told before.
pub on_u_frame_read-Follows :
    (now address control : ℕ) (payload : List ℕ) (link : Link) (state : FdState)
    (events : List Bool)
    → Follows link state events
    → Follows
        (on_u_frame_read now address control payload link)
        (next_state state (input_of control))
        (events ++ told state (input_of control))
on_u_frame_read-Follows now address control payload link state events f =
    rw (on_u_frame_read-handle now address control payload link)
      (rw (ap is_disconnected f.is) (by_state state f))
  where
    by_state :
        (state : FdState)
        → Follows link state events
        → Follows
            (if is_disconnected state && needs_connection (input_of control)
              then (if is_command address then send_u_answer type_dm link else link)
              else handle now payload (input_of control) link)
            (next_state state (input_of control))
            (events ++ told state (input_of control))
    by_state disconnected f = at_rest-Follows now address payload link (input_of control) f
    by_state idle f = handle-Follows now payload link idle (input_of control) refl f
    by_state connecting f = handle-Follows now payload link connecting (input_of control) refl f
    by_state connected f = handle-Follows now payload link connected (input_of control) refl f
    by_state disconnecting f =
        handle-Follows now payload link disconnecting (input_of control) refl f
