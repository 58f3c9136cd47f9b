-- ===== src/Fd/Invariant/Rounds.antt =====
-- The loop of `tiny_fd_get_tx_data` in src/proto/fd/tiny_fd.c: it ends, and keeps the invariant.
use tinyproto.Prelude.{
  ℕ, zero, suc, ◌+◌, ◌-◌, ◌*◌, ◌<◌, ◌≤◌, ◌≡◌, refl, sym, subst, Bool, true, false, Option, none,
  some, List, [], ◌∷◌, ◌++◌, arith, not, ◌||◌, leb, length, length-append, ◌==◌, ◌>>=◌,
}
use tinyproto.Fd.Peers.{is_abm, invalid_peer}
use tinyproto.Fd.Handle.{Fd, Link, FramePtr, peer_at, is_primary, elapsed, with_peer}
use tinyproto.Fd.OnFrame.{is_nrm}
use tinyproto.Fd.NextFrame.{get_next_frame}
use tinyproto.Fd.TxData.{
  TxRound, finished, restarted, generated, may_stop, after_choice, with_marker, without_marker,
  run_sender, run_idle, tx_round, TxData, after_round, tx_loop, fd_get_tx_data, check_idle_timeout,
}
use tinyproto.Fd.Invariant.{IsFd, if_keeps, Returns, Returns-bind, Returns-some}
use tinyproto.Fd.Invariant.Transmit.{round_fd, run_idle-IsFd, report_frames-IsFd, with_tx-IsFd}
use tinyproto.Hdlc.Tx.Stream.{run_tx_stream}

-- A round that starts the next by `continue` has gone past the wait for the first time; one that writes
-- bytes has room for them.
abbrev Restarts : ℕ → Bool → Bool → TxRound → Type 0
Restarts room sending waited (finished status fd) = Unit {0}
Restarts room sending waited (restarted fd) = (sending ≡ false) × (waited ≡ false)
Restarts room sending waited (generated bytes fd) = length bytes ≤ room

-- A round that keeps the invariant.
record IsRound (room : ℕ) (sending waited : Bool) (round : TxRound) : Type 0 where
  keeps : IsFd (round_fd round)
  restarts : Restarts room sending waited round

may_stop-Restarts : (room : ℕ) (fd : Fd) → Restarts room false false (may_stop fd)
may_stop-Restarts room fd =
    if_keeps (Restarts room false false) (is_abm fd.mode || not (is_primary fd)) (λ e. tt)
      (λ e. omega arith)

after_choice-Restarts :
    (room peer : ℕ) (r : Option FramePtr × Link) → Restarts room false false (after_choice peer r)
after_choice-Restarts room peer (some ptr, link) = (refl, refl)
after_choice-Restarts room peer (none, link) = may_stop-Restarts room _

with_marker-Restarts :
    (room now peer : ℕ) (fd : Fd) → Restarts room false false (with_marker now peer fd)
with_marker-Restarts room now peer fd =
    if_keeps (Restarts room false false) (fd.tx_data_available || is_nrm fd.mode)
      (λ e. after_choice-Restarts room peer (get_next_frame now _)) (λ e. may_stop-Restarts room fd)

without_marker-Restarts :
    (room now : ℕ) (fd : Fd) → Restarts room false false (without_marker now fd)
without_marker-Restarts room now fd =
    if_keeps (Restarts room false false) (is_primary fd)
      (λ e.
        if_keeps (Restarts room false false) (leb fd.retry_timeout (elapsed now fd.last_marker_ts))
          (λ e. omega arith) (λ e. tt))
      (λ e. omega arith)

run_idle-Restarts :
    (room now peer : ℕ) (waited : Bool) (fd : Fd)
    → Restarts room false waited (run_idle now peer waited fd)
unfolding run_idle
run_idle-Restarts room now peer true fd =
    if_keeps (Restarts room false true) ((peer_at fd peer).addr == invalid_peer) (λ e. tt) (λ e. tt)
run_idle-Restarts room now peer false fd =
    if_keeps (Restarts room false false) ((peer_at fd peer).addr == invalid_peer) (λ e. tt)
      (λ e.
        if_keeps (Restarts room false false) (with_peer peer (check_idle_timeout now) fd).has_marker
          (λ e. with_marker-Restarts room now peer _) (λ e. without_marker-Restarts room now _))

run_sender-IsRound :
    (room : ℕ) (sending waited : Bool) (fd : Fd)
    → IsFd fd
    → Returns (IsRound room sending waited) (run_sender room fd)
unfolding run_sender
run_sender-IsRound room sending waited fd t =
    let (n, tx, e, v, stream, count, fits, filled, callback, reported) =
      run_tx_stream fd.hdlc.crc_type fd.hdlc.tx room t.hdlc.sender in
    rw e (record {
      keeps = report_frames-IsFd _ _ (with_tx-IsFd tx fd v t);
      restarts = omega (arith, count, fits);
    })

tx_round-IsRound :
    (now peer room : ℕ) (waited : Bool) (fd : Fd)
    → IsFd fd
    → Returns (IsRound room fd.tx_sending waited) (tx_round now peer room waited fd)
unfolding tx_round
tx_round-IsRound now peer room waited fd t =
    if_keeps (Returns (IsRound room fd.tx_sending waited)) fd.tx_sending
      (λ e. run_sender-IsRound room fd.tx_sending waited fd t)
      (λ e. record {
        keeps = run_idle-IsFd now peer waited fd t;
        restarts =
            subst (λ b. Restarts room b waited (run_idle now peer waited fd)) (sym e)
              (run_idle-Restarts room now peer waited fd);
      })

abbrev weigh : Bool → ℕ
weigh true = 1
weigh false = 0

-- How many rounds are left at most.
abbrev rounds : ℕ → Bool → Bool → List ℕ → ℕ
rounds len repeat waited out = 2 * (len - length out) + weigh repeat + weigh (not waited)

stays_past : (waited sending : Bool) → weigh (not (waited || not sending)) ≤ weigh (not waited)
stays_past waited sending = ground arith

-- The handle keeps its invariant, and the bytes fit the buffer.
abbrev pub IsGiven : ℕ → TxData → Type 0
IsGiven len r = IsFd r.fd × (length r.bytes ≤ len)

after_round-IsGiven :
    (fuel len : ℕ) (again : Bool → Fd → List ℕ → Option TxData) (sending repeat waited : Bool)
    (out : List ℕ) (round : TxRound)
    → ((b : Bool) (fd : Fd) (o : List ℕ)
        → IsFd fd
        → length o ≤ len
        → rounds len b (waited || not sending) o < fuel
        → Returns (IsGiven len) (again b fd o))
    → rounds len repeat waited out < suc fuel
    → length out < len
    → IsRound (len - length out) sending waited round
    → Returns (IsGiven len) (after_round again repeat out round)
after_round-IsGiven fuel len again sending repeat waited out (finished status fd) keeps h short v =
    (v.keeps, omega (arith, short))
after_round-IsGiven fuel len again sending repeat waited out (restarted fd) keeps h short v =
    keeps repeat fd out v.keeps (omega (arith, short)) (ground (arith, h, v.restarts))
after_round-IsGiven fuel len again sending true waited out (generated [] fd) keeps h short v =
    keeps false fd (out ++ []) v.keeps (omega (arith, short, length-append out []))
      (omega (arith, stays_past waited sending, length-append out []))
after_round-IsGiven fuel len again sending false waited out (generated [] fd) keeps h short v =
    (v.keeps, omega (arith, short))
after_round-IsGiven fuel len again sending repeat waited out (generated (b ∷ bytes) fd) keeps h
      short v =
    keeps true fd (out ++ b ∷ bytes) v.keeps
      (omega (arith, short, length-append out (b ∷ bytes), v.restarts))
      (ground (arith, stays_past waited sending, length-append out (b ∷ bytes)))

tx_loop-IsGiven :
    (fuel now peer len : ℕ) (repeat waited : Bool) (fd : Fd) (out : List ℕ)
    → rounds len repeat waited out < fuel
    → length out ≤ len
    → IsFd fd
    → Returns (IsGiven len) (tx_loop fuel now peer len repeat waited fd out)
unfolding tx_loop
tx_loop-IsGiven zero now peer len repeat waited fd out h short t = absurd (omega arith)
tx_loop-IsGiven (suc fuel) now peer len repeat waited fd out h short t =
    if_keeps (Returns (IsGiven len)) (leb len (length out)) (λ e. (t, short))
      (λ e.
        Returns-bind (IsRound (len - length out) fd.tx_sending waited) (IsGiven len)
          (tx_round now peer (len - length out) waited fd) _
          (λ round v.
            after_round-IsGiven fuel len _ fd.tx_sending repeat waited out round
              (λ b fd' o t' s' h'.
                tx_loop-IsGiven fuel now peer len b (waited || not fd.tx_sending) fd' o h' s' t')
              h (ground (arith, e)) v)
          (tx_round-IsRound now peer (len - length out) waited fd t))

-- `tiny_fd_get_tx_data` on a handle that satisfies its invariant returns, writes no more bytes than the
-- buffer has room for, and keeps the invariant.
pub fd_get_tx_data-IsGiven :
    (now len : ℕ) (fd : Fd)
    → IsFd fd
    → (r : TxData) × (fd_get_tx_data now len fd ≡ some r) × IsFd r.fd × (length r.bytes ≤ len)
unfolding fd_get_tx_data
fd_get_tx_data-IsGiven now len fd t =
    let (r, e, given) =
      Returns-some (IsGiven len) (tx_loop (2 * len + 6) now fd.next_peer len true false fd []) (
        tx_loop-IsGiven (2 * len + 6) now fd.next_peer len true false fd [] (omega arith)
          (omega arith) t) in
    (r, rw (e, ◌>>=◌, given.0.runs) refl, given.0, given.1)

pub fd_get_tx_data-IsFd :
    (now len : ℕ) (fd : Fd) → IsFd fd → Returns (λ r. IsFd r.fd) (fd_get_tx_data now len fd)
fd_get_tx_data-IsFd now len fd t =
    let (r, e, t', fits) = fd_get_tx_data-IsGiven now len fd t in rw e t'
