-- ===== src/Fd/Polling/Tests.antt =====
-- Runs of `tiny_fd_run_rx` and `tiny_fd_run_tx` of src/proto/fd/tiny_fd.c on a concrete line.
use tinyproto.Prelude.{
  ℕ, ◌+◌, ◌≤◌, ◌≡◌, ◌≢◌, refl, sym, some, List, [], ◌∷◌, ◌++◌, append-nil, arith, length, take,
}
use tinyproto.User.{Port, Io, moved, refused, Outcome, status, user_code}
use tinyproto.Fd.Handle.{Fd}
use tinyproto.Fd.TxData.{TxData, fd_get_tx_data}
use tinyproto.Fd.Invariant.{IsFd}
use tinyproto.Fd.Polling.{fd_run_tx}
use tinyproto.Fd.Polling.Keeps.{run_rx_times, run_rx_times-feed}
use tinyproto.Fd.Invariant.Runs.{receive_bytes, on_calls}
use tinyproto.Hdlc.Bytes.{success}
use tinyproto.Fd.Polling.Writes.{IsBlockWriter, Handed, fd_run_tx-Handed}
use tinyproto.Fd.HandleTests.{handle, handle-IsFd}

-- A line that takes a byte at a time, and gives what it has.
abbrev write_one : List ℕ → List ℕ → Io ℕ × List ℕ
write_one [] line = (moved 0, line)
write_one (b ∷ bytes) line = (moved 1, line ++ b ∷ [])

abbrev pipe : Port (List ℕ)
pipe = record {
  write_func = write_one;
  read_func = λ size line. (moved line, []);
  millis = λ line. 5;
}

abbrev itself : List ℕ → List ℕ
itself line = line

abbrev never : List ℕ → ℕ
never line = 0

write_one-takes :
    (bytes line : List ℕ) (n : ℕ)
    → (write_one bytes line).0 ≡ moved n
    → (n ≤ length bytes) × ((write_one bytes line).1 ≡ line ++ take n bytes)
write_one-takes [] line n e =
    let zero_moved : 0 ≡ n = cc (e) in rw (← zero_moved) (omega arith, sym (append-nil line))
write_one-takes (b ∷ bytes) line n e =
    let one_moved : 1 ≡ n = cc (e) in rw (← one_moved) (omega arith, refl)

write_one-moves : (bytes line : List ℕ) (code : ℕ) → (write_one bytes line).0 ≢ refused code
write_one-moves [] line code e = absurd (cc (e))
write_one-moves (b ∷ bytes) line code e = absurd (cc (e))

pipe-IsBlockWriter : IsBlockWriter pipe itself never
pipe-IsBlockWriter = record {
  takes = write_one-takes;
  idles = λ b bytes w e. absurd (cc (e));
  fails = λ bytes w code e. absurd (write_one-moves bytes w code e);
}

abbrev arriving : List (Io (List ℕ))
arriving = moved (0x7e ∷ 1 ∷ 0x24 ∷ 9 ∷ []) ∷ refused 7 ∷ moved (3 ∷ 0x7e ∷ []) ∷ []

abbrev read_one : ℕ → List (Io (List ℕ)) → Io (List ℕ) × List (Io (List ℕ))
read_one size [] = (moved [], [])
read_one size (read ∷ reads) = (read, reads)

-- Three calls: 4 bytes, an error, and the rest.
abbrev faulty : Port (List (Io (List ℕ)))
faulty = record {
  write_func = λ bytes line. (moved 0, line);
  read_func = read_one;
  millis = λ line. 5 + length line;
}

run_rx_times-feed_example :
    (fd' : Fd) × (run_rx_times faulty 3 handle arriving
      ≡ some (status success ∷ user_code 7 ∷ status success ∷ [], fd', []))
    × (on_calls
          (receive_bytes 7 (0x7e ∷ 1 ∷ 0x24 ∷ 9 ∷ []) ∷ receive_bytes 5 (3 ∷ 0x7e ∷ []) ∷ [])
          handle
        ≡ some fd')
    × IsFd fd'
run_rx_times-feed_example = run_rx_times-feed faulty 3 handle arriving handle-IsFd

fd_run_tx-Handed_example :
    (fuel : ℕ) × (r : TxData) × (result : Outcome) × (w' : List ℕ) × (fd_get_tx_data 5 4 handle
      ≡ some r)
    × (fd_run_tx fuel pipe handle [] ≡ some (result, r.fd, w'))
    × IsFd r.fd
    × Handed pipe itself never pipe-IsBlockWriter r [] result w'
fd_run_tx-Handed_example =
    fd_run_tx-Handed pipe itself never pipe-IsBlockWriter handle [] handle-IsFd
