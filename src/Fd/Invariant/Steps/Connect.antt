-- ===== src/Fd/Invariant/Steps/Connect.antt =====
-- The two ends of a connection and the handler of U-frames.
use tinyproto.Prelude.{
  ℕ, ◌≡◌, sym, subst, Bool, true, false, List, arith, refl, ap, length, ltb, ◌&&◌, ◌||◌, ◌==◌,
}
use tinyproto.Fd.FramesQueue.{u_frame}
use tinyproto.Fd.IQueueControl.{reset_i_queue_control}
use tinyproto.Fd.IQueueControl.Returns.{IsNumbers}
use tinyproto.Fd.Handle.{
  FdState, idle, disconnected, connecting, connected, disconnecting, FdPeer, Link, UserCall,
  call_user, connect_event, read_ui, user_address,
}
use tinyproto.Fd.Control.{
  u_type, type_ua, type_dm, type_sabm, type_snrm, type_disc, type_rset, type_frmr, type_ui,
  is_command,
}
use tinyproto.Fd.ServiceQueue.{send_u_s_frame}
use tinyproto.Fd.Connection.{
  is_connected, is_disconnected, is_connecting, is_disconnecting, reset_numbers, drop_i_frames,
  connect_peer, disconnect_peer, switch_to_connected, switch_to_disconnected,
}
use tinyproto.Fd.OnRx.{
  on_u_frame_read, send_u_answer, start_connecting, on_set_mode, on_rset, on_frmr, on_ua,
  is_refused,
}
use tinyproto.Fd.Invariant.{IsPeer, is_quiet, IsLink, if_keeps}
use tinyproto.Fd.Invariant.Tables.{
  send_u_s-IsLink, drop_i_frames-IsFd, call_user-IsFd, call_user-peer,
}

pub reset-IsNumbers : IsNumbers reset_i_queue_control
unfolding reset_i_queue_control
reset-IsNumbers = record {
  last = omega arith;
  confirm = omega arith;
  next_s = omega arith;
  next_r = omega arith;
}

-- A handler of U-frames leaves the peer in a state without frames, and nothing of a connection.
pub call_user-IsLink :
    (b : Bool) (call : UserCall) (link : Link) → IsLink link → IsLink (call_user b call link)
call_user-IsLink b call link v = record {
  tables = call_user-IsFd b call link v.tables;
  peer = subst IsPeer (sym (call_user-peer b call link)) v.peer;
}

connect_peer-IsPeer : (now : ℕ) (peer : FdPeer) → IsPeer (connect_peer now peer)
connect_peer-IsPeer now peer = record {
  awake = refl;
  numbers = reset-IsNumbers;
  quiet = λ q. absurd (cc q);
}

disconnect_peer-IsPeer : (peer : FdPeer) → IsPeer (disconnect_peer peer)
disconnect_peer-IsPeer peer = record {
  awake = refl;
  numbers = reset-IsNumbers;
  quiet = λ q. record { numbers = refl; rejects = refl; requests = refl; waits = refl };
}

pub switch_to_connected-IsLink :
    (now : ℕ) (link : Link) → IsLink link → IsLink (switch_to_connected now link)
unfolding switch_to_connected
switch_to_connected-IsLink now link v =
    let t = drop_i_frames-IsFd link v.tables in
    if_keeps IsLink (is_connected link.peer.state) (λ e. v)
      (λ e. call_user-IsLink link.fd.on_connect_event_cb _ _ (record {
        tables = record {
          i_table = t.i_table;
          s_table = t.s_table;
          peers = t.peers;
          hdlc = t.hdlc;
          runs = t.runs;
          turn = t.turn;
        };
        peer = connect_peer-IsPeer now link.peer;
      }))

pub switch_to_disconnected-IsLink :
    (link : Link) → IsLink link → IsLink (switch_to_disconnected link)
unfolding switch_to_disconnected
switch_to_disconnected-IsLink link v =
    let t = drop_i_frames-IsFd link v.tables in
    if_keeps IsLink (is_disconnected link.peer.state) (λ e. v)
      (λ e.
        call_user-IsLink link.fd.on_connect_event_cb _ _
          (record { tables = t; peer = disconnect_peer-IsPeer link.peer }))

-- `__switch_to_disconnected_state` ends disconnected.
pub switch_to_disconnected-state :
    (link : Link) → is_disconnected (switch_to_disconnected link).peer.state ≡ true
unfolding switch_to_disconnected
switch_to_disconnected-state link =
    if_keeps (λ (l : Link). is_disconnected l.peer.state ≡ true) (is_disconnected link.peer.state)
      (λ e. e)
      (λ e.
        ap (λ (p : FdPeer). is_disconnected p.state)
          (call_user-peer link.fd.on_connect_event_cb (connect_event (user_address link) false)
            (record (drop_i_frames link) { peer = disconnect_peer link.peer })))

send_u_answer-IsLink : (type : ℕ) (link : Link) → IsLink link → IsLink (send_u_answer type link)
send_u_answer-IsLink type link v = send_u_s-IsLink u_frame _ _ _ link v

on_set_mode-IsLink : (now : ℕ) (link : Link) → IsLink link → IsLink (on_set_mode now link)
on_set_mode-IsLink now link v =
    let answered = send_u_answer-IsLink type_ua link v in
    switch_to_connected-IsLink now _ (
      if_keeps IsLink (is_disconnected link.peer.state || is_connecting link.peer.state)
        (λ e. answered) (λ e. switch_to_disconnected-IsLink _ answered))

on_rset-IsLink : (link : Link) → IsLink link → IsLink (on_rset link)
on_rset-IsLink link v =
    send_u_answer-IsLink type_ua (record link { peer = reset_numbers link.peer })
      (record {
        tables = v.tables;
        peer = record {
          awake = v.peer.awake;
          numbers = reset-IsNumbers;
          quiet = λ q. record {
            numbers = refl;
            rejects = refl;
            requests = refl;
            waits = (v.peer.quiet q).waits;
          };
        };
      })

-- A disconnected peer may start to connect.
pub start_connecting-IsLink :
    (link : Link) → is_quiet link.peer.state ≡ true → IsLink link → IsLink (start_connecting link)
start_connecting-IsLink link q v =
    let r = v.peer.quiet q in
    record {
      tables = v.tables;
      peer = record {
        awake = refl;
        numbers = v.peer.numbers;
        quiet = λ _. record {
          numbers = r.numbers;
          rejects = r.rejects;
          requests = r.requests;
          waits = r.waits;
        };
      };
    }

disconnected-quiet : (state : FdState) → is_disconnected state ≡ true → is_quiet state ≡ true
disconnected-quiet idle e = refl
disconnected-quiet disconnected e = refl
disconnected-quiet connecting e = refl
disconnected-quiet connected e = absurd (cc e)
disconnected-quiet disconnecting e = absurd (cc e)

on_frmr-IsLink : (link : Link) → IsLink link → IsLink (on_frmr link)
unfolding send_u_s_frame
on_frmr-IsLink link v =
    let closed = switch_to_disconnected-IsLink link v in
    start_connecting-IsLink _ (disconnected-quiet _ (switch_to_disconnected-state link))
      (send_u_s-IsLink u_frame _ _ _ _ closed)

on_ua-IsLink : (now : ℕ) (link : Link) → IsLink link → IsLink (on_ua now link)
on_ua-IsLink now link v =
    if_keeps IsLink (is_connecting link.peer.state) (λ e. switch_to_connected-IsLink now link v)
      (λ e.
        if_keeps IsLink (is_disconnecting link.peer.state)
          (λ e. switch_to_disconnected-IsLink link v) (λ e. v))

pub on_u_frame_read-IsLink :
    (now address control : ℕ) (payload : List ℕ) (link : Link)
    → IsLink link
    → IsLink (on_u_frame_read now address control payload link)
unfolding on_u_frame_read
on_u_frame_read-IsLink now address control payload link v =
    let type = u_type control in
    if_keeps IsLink (is_refused link type)
      (λ e.
        if_keeps IsLink (is_command address) (λ e. send_u_answer-IsLink type_dm link v) (λ e. v))
      (λ e.
        if_keeps IsLink (type == type_sabm || type == type_snrm)
          (λ e. on_set_mode-IsLink now link v)
          (λ e.
            if_keeps IsLink (type == type_disc)
              (λ e. switch_to_disconnected-IsLink _ (send_u_answer-IsLink type_ua link v))
              (λ e.
                if_keeps IsLink (type == type_rset) (λ e. on_rset-IsLink link v)
                  (λ e.
                    if_keeps IsLink (type == type_frmr) (λ e. on_frmr-IsLink link v)
                      (λ e.
                        if_keeps IsLink (type == type_ua) (λ e. on_ua-IsLink now link v)
                          (λ e.
                            if_keeps IsLink (type == type_dm)
                              (λ e. switch_to_disconnected-IsLink link v)
                              (λ e.
                                if_keeps IsLink (type == type_ui)
                                  (λ e.
                                    call_user-IsLink
                                      (link.fd.on_read_ui_cb && ltb 0 (length payload))
                                      (read_ui (user_address link) payload) link v)
                                  (λ e. v))))))))
