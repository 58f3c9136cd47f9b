-- ===== src/Fd/Diagram.antt =====
-- The states of a connection as a table, written apart from the handlers of src/proto/fd.
pub mod Switch
pub mod Follow
use tinyproto.Prelude.{ℕ, ◌==◌, ◌||◌, Bool, true, false, if◌then◌else◌, List, [], ◌∷◌}
use tinyproto.Fd.Control.{
  u_type, type_sabm, type_snrm, type_disc, type_rset, type_frmr, type_ua, type_dm, type_ui,
}
use tinyproto.Fd.Handle.{
  FdState, idle, disconnected, connecting, connected, disconnecting, UserCall, read, read_ui, sent,
  connect_event,
}

-- What a U-frame asks for: to set the mode (SABM or SNRM), to disconnect, to reset the numbers, that a
-- frame was rejected, an acknowledgement, that the other station is disconnected, or no change.
pub data Input : Type 0 where
  set_mode disc rset frmr ua dm ui unknown : Input

-- The codes of the types of U-frames.
unfoldable pub input_of : ℕ → Input
input_of control =
    let type = u_type control in
    if type == type_sabm || type == type_snrm
    then set_mode
    else (if type == type_disc
        then disc
        else (if type == type_rset
            then rset
            else (if type == type_frmr
                then frmr
                else (if type == type_ua
                    then ua
                    else (if type == type_dm
                        then dm
                        else (if type == type_ui then ui else unknown))))))

-- The state after a U-frame. A disconnected station answers only to a set-mode frame.
unfoldable pub next_state : FdState → Input → FdState
next_state disconnected set_mode = connected
next_state disconnected input = disconnected
next_state state set_mode = connected
next_state state disc = disconnected
next_state state frmr = connecting
next_state state dm = disconnected
next_state connecting ua = connected
next_state disconnecting ua = disconnected
next_state state input = state

-- What the user is told: the end of a connection, also of one that was being set up, and the start
-- of one.
unfoldable pub told : FdState → Input → List Bool
told disconnected set_mode = true ∷ []
told disconnected input = []
told connecting set_mode = true ∷ []
told state set_mode = false ∷ true ∷ []
told state disc = false ∷ []
told state frmr = false ∷ []
told state dm = false ∷ []
told connecting ua = true ∷ []
told disconnecting ua = false ∷ []
told state input = []

-- The calls of on_connect_event_cb.
unfoldable pub connect_events : List UserCall → List Bool
connect_events [] = []
connect_events (read address payload ∷ calls) = connect_events calls
connect_events (read_ui address payload ∷ calls) = connect_events calls
connect_events (sent address payload ∷ calls) = connect_events calls
connect_events (connect_event address value ∷ calls) = value ∷ connect_events calls
