-- ===== src/Fd/Polling/Writes.antt =====
-- `tiny_fd_run_tx` of src/proto/fd/tiny_fd.c: what is on the line afterwards.
use tinyproto.Prelude.{
  ℕ, zero, suc, ◌<◌, ◌≤◌, ◌≡◌, ◌⊎◌, inl, inr, refl, sym, ◌∙◌, ap, true, false, some, List, [], ◌∷◌,
  ◌++◌, arith, length, take, drop, ltb, Bool-cases, ◌>>=◌, append_assoc, take-append-drop,
  length-drop, append-nil,
}
use tinyproto.User.{Port, Io, moved, refused, Outcome, amount, status, user_code}
use tinyproto.Hdlc.Bytes.{success, is_success}
use tinyproto.Fd.Handle.{Fd}
use tinyproto.Fd.TxData.{TxData, is_empty, fd_get_tx_data}
use tinyproto.Fd.Invariant.{IsFd, Returns-some}
use tinyproto.Fd.Invariant.Rounds.{fd_get_tx_data-IsFd}
use tinyproto.Fd.Polling.{write_all, write_data, fd_run_tx}

-- A `write_func` that appends the first of the bytes that it is given to the line, and that takes none only
-- finitely often in a row: `patience` is how often it may still do so.
pub record IsBlockWriter {W : Type 0} (port : Port W) (line : W → List ℕ) (patience : W → ℕ)
    : Type 0 where
  pub takes :
      (bytes : List ℕ) (w : W) (n : ℕ)
      → (port.write_func bytes w).0 ≡ moved n
      → (n ≤ length bytes) × (line (port.write_func bytes w).1 ≡ line w ++ take n bytes)
  pub idles :
      (b : ℕ) (bytes : List ℕ) (w : W)
      → (port.write_func (b ∷ bytes) w).0 ≡ moved 0
      → patience (port.write_func (b ∷ bytes) w).1 < patience w
  pub fails :
      (bytes : List ℕ) (w : W) (code : ℕ)
      → (port.write_func bytes w).0 ≡ refused code
      → line (port.write_func bytes w).1 ≡ line w

module _ {W : Type 0} (port : Port W) (line : W → List ℕ) (patience : W → ℕ)
    (writer : IsBlockWriter port line patience) where
  -- What is on the line after the bytes have been handed out: all of them, or those before the function
  -- failed.
  unfoldable pub Written : List ℕ → W → Outcome → W → Type 0
  Written bytes w (user_code code) w' = (left : List ℕ) × (line w' ++ left ≡ line w ++ bytes)
  Written bytes w result w' = (result ≡ status success) × (line w' ≡ line w ++ bytes)

  -- Some fuel is enough for the loop.
  abbrev Writes : List ℕ → W → Type 0
  Writes bytes w =
      (fuel : ℕ) × (result : Outcome) × (w' : W) × (write_all fuel port bytes w ≡ some (result, w'))
      × Written bytes w result w'

  -- Some bytes are on the line, the rest is handed out again.
  joined :
      (n : ℕ) (bytes : List ℕ) (w on : W)
      → line on ≡ line w ++ take n bytes
      → line on ++ drop n bytes ≡ line w ++ bytes
  joined n bytes w on e =
      ap (λ l. l ++ drop n bytes) e
      ∙ append_assoc (line w) (take n bytes) (drop n bytes)
      ∙ ap (λ l. line w ++ l) (take-append-drop n bytes)

  more-Written :
      (n : ℕ) (bytes : List ℕ) (w on : W) (result : Outcome) (w' : W)
      → line on ≡ line w ++ take n bytes
      → Written (drop n bytes) on result w'
      → Written bytes w result w'
  unfolding Written
  more-Written n bytes w on (user_code code) w' e (left, l) = (left, l ∙ joined n bytes w on e)
  more-Written n bytes w on (amount k) w' e (s, l) = (s, l ∙ joined n bytes w on e)
  more-Written n bytes w on (status k) w' e (s, l) = (s, l ∙ joined n bytes w on e)

  -- The function has moved some bytes; `rest` is what the loop does then.
  moves :
      (b : ℕ) (bytes : List ℕ) (w : W) (n : ℕ)
      → (port.write_func (b ∷ bytes) w).0 ≡ moved n
      → Writes (drop n (b ∷ bytes)) (port.write_func (b ∷ bytes) w).1
      → Writes (b ∷ bytes) w
  unfolding write_all
  moves b bytes w n e (fuel, result, w', runs, done) =
      let (within, on) = writer.takes (b ∷ bytes) w n e in
      let fits : ltb (length (b ∷ bytes)) n ≡ false = ground (arith, within) in
      (
        suc fuel,
        result,
        w',
        rw (write_all, e, fits) runs,
        more-Written n (b ∷ bytes) w (port.write_func (b ∷ bytes) w).1 result w' on done,
      )

  refuses :
      (b : ℕ) (bytes : List ℕ) (w : W) (code : ℕ)
      → (port.write_func (b ∷ bytes) w).0 ≡ refused code
      → Writes (b ∷ bytes) w
  unfolding write_all Written
  refuses b bytes w code e = (
    1,
    user_code code,
    (port.write_func (b ∷ bytes) w).1,
    rw (write_all, e) refl,
    (b ∷ bytes, ap (λ l. l ++ b ∷ bytes) (writer.fails (b ∷ bytes) w code e)),
  )

  -- Rounds that move nothing, fewer than the function's patience.
  handing :
      (size pauses : ℕ) (b : ℕ) (bytes : List ℕ) (w : W) (result : Io ℕ)
      → ((bytes' : List ℕ) (w' : W) → length bytes' ≤ size → Writes bytes' w')
      → ((w' : W) → patience w' < pauses → Writes (b ∷ bytes) w')
      → length bytes ≤ size
      → patience w ≤ pauses
      → (port.write_func (b ∷ bytes) w).0 ≡ result
      → Writes (b ∷ bytes) w
  handing size pauses b bytes w (refused code) shorter later h p e = refuses b bytes w code e
  handing size pauses b bytes w (moved zero) shorter later h p e =
      moves b bytes w zero e (later _ (omega (arith, p, writer.idles b bytes w e)))
  handing size pauses b bytes w (moved (suc n)) shorter later h p e =
      moves b bytes w (suc n) e (shorter (drop n bytes) _ (omega (arith, h, length-drop n bytes)))

  pausing :
      (size pauses : ℕ) (b : ℕ) (bytes : List ℕ) (w : W)
      → ((bytes' : List ℕ) (w' : W) → length bytes' ≤ size → Writes bytes' w')
      → length bytes ≤ size
      → patience w < pauses
      → Writes (b ∷ bytes) w
  pausing size zero b bytes w shorter h p = absurd (omega arith)
  pausing size (suc pauses) b bytes w shorter h p =
      handing size pauses b bytes w _ shorter
        (λ w' less. pausing size pauses b bytes w' shorter h less) h (omega (arith, p)) refl

  write_all-Writes : (size : ℕ) (bytes : List ℕ) (w : W) → length bytes ≤ size → Writes bytes w
  unfolding write_all Written
  write_all-Writes size [] w h = (1, status success, w, refl, (refl, sym (append-nil (line w))))
  write_all-Writes zero (b ∷ bytes) w h = absurd (omega (arith, h))
  write_all-Writes (suc size) (b ∷ bytes) w h =
      pausing size (suc (patience w)) b bytes w (write_all-Writes size) (omega (arith, h))
        (omega arith)

  -- What `tiny_fd_run_tx` has done with the data `r` from `tiny_fd_get_tx_data`.
  unfoldable pub Handed : TxData → W → Outcome → W → Type 0
  Handed r w result w' =
      ((is_success r.error ≡ false) × (result ≡ status r.error) × (w' ≡ w))
      ⊎ ((is_success r.error ≡ true) × (r.bytes ≡ []) × (result ≡ amount 0) × (w' ≡ w))
      ⊎ ((is_success r.error ≡ true) × Written r.bytes w result w')

  is_empty_lem : (bytes : List ℕ) → is_empty bytes ≡ true → bytes ≡ []
  is_empty_lem [] e = refl
  is_empty_lem (b ∷ bytes) e = absurd (cc (e))

  write_data-Handed :
      (r : TxData) (w : W)
      → (fuel : ℕ) × (result : Outcome) × (w' : W) × (write_data fuel port r w
          ≡ some (result, r.fd, w'))
        × Handed r w result w'
  unfolding write_data Handed
  write_data-Handed r w =
      let (fuel, result, w', runs, done) =
        write_all-Writes (length r.bytes) r.bytes w (omega arith) in
      elim (Bool-cases (is_success r.error)) [
        | inr failed ↦
            (fuel, status r.error, w, rw (write_data, failed) refl, inl (failed, refl, refl))
        | inl fine ↦ elim (Bool-cases (is_empty r.bytes)) [
          | inl nothing ↦ (
            fuel,
            amount 0,
            w,
            rw (write_data, fine, nothing) refl,
            inr (inl (fine, is_empty_lem r.bytes nothing, refl, refl)),
          )
          | inr some_bytes ↦ (
            fuel,
            result,
            w',
            rw (write_data, fine, some_bytes, runs, ◌>>=◌) refl,
            inr (inr (fine, done)),
          )
        ]
      ]

  -- `tiny_fd_run_tx` with a `write_func` that takes bytes in the end: some fuel is enough for it to return.
  -- It hands out the bytes that `tiny_fd_get_tx_data` gives for a buffer of 4, keeps the invariant of the
  -- handle, and returns the error of `tiny_fd_get_tx_data`, or 0 when there are no bytes, with the line as
  -- it was; or TINY_SUCCESS, which is 0 and not the number of bytes that tiny_fd.h documents, with all
  -- the bytes on the line, in order; or the code of a `write_func` that has failed, with a part from the
  -- start on the line.
  pub fd_run_tx-Handed :
      (fd : Fd) (w : W)
      → IsFd fd
      → (fuel : ℕ) × (r : TxData) × (result : Outcome) × (w' : W) × (fd_get_tx_data
            (port.millis w)
            4
            fd
          ≡ some r)
        × (fd_run_tx fuel port fd w ≡ some (result, r.fd, w'))
        × IsFd r.fd
        × Handed r w result w'
  unfolding fd_run_tx
  fd_run_tx-Handed fd w t =
      let now = port.millis w in
      let (r, e, t') =
        Returns-some (λ r. IsFd r.fd) (fd_get_tx_data now 4 fd) (fd_get_tx_data-IsFd now 4 fd t) in
      let (fuel, result, w', runs, done) = write_data-Handed r w in
      (fuel, r, result, w', e, rw (e, ◌>>=◌) runs, t', done)
