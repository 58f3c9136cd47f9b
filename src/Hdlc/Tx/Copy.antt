-- ===== src/Hdlc/Tx/Copy.antt =====
-- What `hdlc_ll_send_tx_internal` writes: as many of the bytes as the caller's buffer has room for.
use tinyproto.Prelude.{
  ℕ, zero, suc, ◌+◌, ◌-◌, ◌≤◌, ◌<◌, min, ◌≡◌, List, [], ◌∷◌, ◌++◌, append-nil, append_assoc, arith,
  length, take,
}
use tinyproto.Hdlc.Tx.{Tx, copy_out, send_tx_internal}

abbrev pub wrote : Tx → List ℕ → Tx
wrote tx bytes = record tx {
  out_buffer = tx.out_buffer ++ bytes;
  out_buffer_len = tx.out_buffer_len - length bytes;
}

wrote-nil : (tx : Tx) → wrote tx [] ≡ tx
wrote-nil tx = ground (arith, append-nil tx.out_buffer)

copy_out_lem :
    (ptr : List ℕ) (len n : ℕ) (tx : Tx) (sent : ℕ)
    → n ≡ min len tx.out_buffer_len
    → len ≤ length ptr
    → copy_out ptr len tx sent ≡ (sent + n, wrote tx (take n ptr))
unfolding copy_out
copy_out_lem ptr zero zero tx sent e h = ground (arith, wrote-nil tx)
copy_out_lem ptr zero (suc n) tx sent e h = absurd (omega arith)
copy_out_lem [] (suc len) n tx sent e h = absurd (omega arith)
copy_out_lem (byte ∷ ptr) (suc len) zero tx sent e h = ground (arith, wrote-nil tx)
copy_out_lem (byte ∷ ptr) (suc len) (suc n) tx sent e h = ground (
  arith,
  copy_out_lem ptr len n (wrote tx (byte ∷ [])) (sent + 1),
  append_assoc tx.out_buffer (byte ∷ []) (take n ptr),
)

pub send_bytes :
    (tx : Tx) (bytes : List ℕ) (len : ℕ)
    → len ≤ length bytes
    → let n = min len tx.out_buffer_len in
      send_tx_internal tx bytes len ≡ (n, wrote tx (take n bytes))
unfolding send_tx_internal
send_bytes tx bytes len h = ground (arith, copy_out_lem bytes len (min len tx.out_buffer_len) tx 0)

pub send_byte :
    (tx : Tx) (byte : ℕ)
    → 0 < tx.out_buffer_len
    → send_tx_internal tx (byte ∷ []) 1 ≡ (1, wrote tx (byte ∷ []))
unfolding send_tx_internal copy_out
send_byte tx byte h = ground arith
