-- ===== src/Fd/Polling.antt =====
-- `tiny_fd_run_rx` and `tiny_fd_run_tx` of src/proto/fd/tiny_fd.c, which move bytes between the handle and
-- functions of the user.
pub mod Keeps
pub mod Writes
mod Tests
use tinyproto.Prelude.{
  ℕ, zero, suc, Option, none, some, List, [], ◌∷◌, length, drop, ltb, if◌then◌else◌, ◌>>=◌,
}
use tinyproto.User.{Port, moved, refused, Outcome, amount, status, user_code}
use tinyproto.Hdlc.Bytes.{success, is_success}
use tinyproto.Fd.Handle.{Fd}
use tinyproto.Fd.OnFrame.{fd_on_rx_data}
use tinyproto.Fd.TxData.{TxData, is_empty, fd_get_tx_data}

-- The buffer has 4 bytes.
unfoldable pub fd_run_rx {ℓ} : {W : Type ℓ} → Port W → Fd → W → Option (Outcome × Fd × W)
fd_run_rx port fd w =
    let (read, w') = port.read_func 4 w in
    elim read [
      | refused code ↦ some (user_code code, fd, w')
      | moved bytes ↦
          if is_empty bytes
          then some (amount 0, fd, w')
          else (fd_on_rx_data (port.millis w') bytes fd >>= λ fd'. some (status success, fd', w'))
    ]

-- The loop of `tiny_fd_run_tx`. A function that says that it has written more than it was given is a fault
-- of the model.
unfoldable pub write_all {ℓ} : {W : Type ℓ} → ℕ → Port W → List ℕ → W → Option (Outcome × W)
write_all zero port bytes w = none
write_all (suc fuel) port [] w = some (status success, w)
write_all (suc fuel) port (b ∷ bytes) w =
    let (result, w') = port.write_func (b ∷ bytes) w in
    elim result [
      | refused code ↦ some (user_code code, w')
      | moved n ↦
          let rest = write_all fuel port (drop n (b ∷ bytes)) w' in
          if ltb (length (b ∷ bytes)) n then none else rest
    ]

-- What `tiny_fd_run_tx` does with the result of `tiny_fd_get_tx_data`.
unfoldable pub write_data {ℓ} : {W : Type ℓ} → ℕ → Port W → TxData → W → Option (Outcome × Fd × W)
write_data fuel port r w =
    let written = write_all fuel port r.bytes w >>= λ o. some (o.0, r.fd, o.1) in
    if is_success r.error
    then (if is_empty r.bytes then some (amount 0, r.fd, w) else written)
    else some (status r.error, r.fd, w)

unfoldable pub fd_run_tx {ℓ} : {W : Type ℓ} → ℕ → Port W → Fd → W → Option (Outcome × Fd × W)
fd_run_tx fuel port fd w = do r ← fd_get_tx_data (port.millis w) 4 fd; write_data fuel port r w
