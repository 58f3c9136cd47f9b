-- ===== src/Fd/Polling/Keeps.antt =====
-- `tiny_fd_run_rx` of src/proto/fd/tiny_fd.c called again and again, for any function of the user.
use tinyproto.Prelude.{ℕ, zero, suc, ◌≡◌, refl, ◌∙◌, Option, some, List, [], ◌∷◌, map, ◌>>=◌}
use tinyproto.User.{Port, Io, moved, refused, Outcome, amount, status, user_code}
use tinyproto.Hdlc.Bytes.{success}
use tinyproto.Fd.Handle.{Fd}
use tinyproto.Fd.OnFrame.{fd_on_rx_data}
use tinyproto.Fd.Invariant.{IsFd, Returns-some}
use tinyproto.Fd.Invariant.Transmit.{fd_on_rx_data-IsFd}
use tinyproto.Fd.Invariant.Runs.{Call, receive_bytes, on_call, on_calls}
use tinyproto.Fd.Polling.{fd_run_rx}

-- What a read function gives, and the time when it has returned.
abbrev pub Read : Type 0
Read = Io (List ℕ) × ℕ

-- A call succeeds when there are bytes, gives 0 when there are none, and hands on an error of the user.
abbrev pub result_of : Read → Outcome
result_of (refused code, now) = user_code code
result_of (moved [], now) = amount 0
result_of (moved (b ∷ bytes), now) = status success

-- The bytes that a read gives, as a call of `tiny_fd_on_rx_data`, in front of other calls.
abbrev pub then_feed : Read → List Call → List Call
then_feed (refused code, now) calls = calls
then_feed (moved [], now) calls = calls
then_feed (moved (b ∷ bytes), now) calls = receive_bytes now (b ∷ bytes) ∷ calls

abbrev pub feed : List Read → List Call
feed [] = []
feed (read ∷ reads) = then_feed read (feed reads)

module _ {W : Type 0} (port : Port W) where
  -- The outside after a read of 4 bytes at most.
  abbrev pub after_read : W → W
  after_read w = (port.read_func 4 w).1

  abbrev pub read_of : W → Read
  read_of w = ((port.read_func 4 w).0, port.millis (after_read w))

  -- The reads of `n` calls, in their order, and the outside after them.
  abbrev pub reads_of : ℕ → W → List Read
  reads_of zero w = []
  reads_of (suc n) w = read_of w ∷ reads_of n (after_read w)

  abbrev pub after_reads : ℕ → W → W
  after_reads zero w = w
  after_reads (suc n) w = after_reads n (after_read w)

  -- `n` calls of `tiny_fd_run_rx`, and what they return.
  abbrev pub run_rx_times : ℕ → Fd → W → Option (List Outcome × Fd × W)
  run_rx_times zero fd w = some ([], fd, w)
  run_rx_times (suc n) fd w = do
    r ← fd_run_rx port fd w
    rest ← run_rx_times n r.1 r.2
    some (r.0 ∷ rest.0, rest.1, rest.2)

  -- One call, in front of other calls of the user.
  record IsPolled (read : Read) (fd : Fd) (w w' : W) : Type 0 where
    next : Fd
    runs : fd_run_rx port fd w ≡ some (result_of read, next, w')
    feeds : (calls : List Call) → on_calls (then_feed read calls) fd ≡ on_calls calls next
    keeps : IsFd next

  run_rx-IsPolled :
      (read : Io (List ℕ)) (fd : Fd) (w : W)
      → IsFd fd
      → (port.read_func 4 w).0 ≡ read
      → IsPolled (read, port.millis (after_read w)) fd w (after_read w)
  unfolding fd_run_rx on_calls on_call
  run_rx-IsPolled (refused code) fd w t e = record {
    next = fd;
    runs = rw (fd_run_rx, e) refl;
    feeds = λ calls. refl;
    keeps = t;
  }
  run_rx-IsPolled (moved []) fd w t e = record {
    next = fd;
    runs = rw (fd_run_rx, e) refl;
    feeds = λ calls. refl;
    keeps = t;
  }
  run_rx-IsPolled (moved (b ∷ bytes)) fd w t e =
      let now = port.millis (after_read w) in
      let (fd', runs, t') =
        Returns-some IsFd (fd_on_rx_data now (b ∷ bytes) fd)
          (fd_on_rx_data-IsFd now (b ∷ bytes) fd t) in
      record {
        next = fd';
        runs = rw (fd_run_rx, e, runs, ◌>>=◌) refl;
        feeds = λ calls. rw (runs, ◌>>=◌) refl;
        keeps = t';
      }

  pub run_rx_times-feed :
      (n : ℕ) (fd : Fd) (w : W)
      → IsFd fd
      → (fd' : Fd) × (run_rx_times n fd w
          ≡ some (map result_of (reads_of n w), fd', after_reads n w))
        × (on_calls (feed (reads_of n w)) fd ≡ some fd')
        × IsFd fd'
  unfolding on_calls
  run_rx_times-feed zero fd w t = (fd, refl, refl, t)
  run_rx_times-feed (suc n) fd w t =
      let p = run_rx-IsPolled (port.read_func 4 w).0 fd w t refl in
      let (fd', runs, feeds, t') = run_rx_times-feed n p.next (after_read w) p.keeps in
      (fd', rw (p.runs, ◌>>=◌, runs) refl, p.feeds (feed (reads_of n (after_read w))) ∙ feeds, t')
