-- ===== src/User.antt =====
-- The functions that a user gives to the library, and what the library's calls of them and its own
-- blocking calls return: the callback types of src/hal/tiny_types.h.
use tinyproto.Prelude.{ℕ, List}
use tinyproto.Hdlc.Bytes.{Status}

-- What a function of the user returns: what it has moved, or a negative code, whose magnitude it is.
pub data Io {ℓ} (A : Type ℓ) : Type ℓ where
  moved : A → Io A
  refused : ℕ → Io A

-- The functions of the user and `tiny_millis`. `W` is the state of all that is outside of the program;
-- time passes while the user's functions run. `write_func` is given the bytes of the block,
-- `read_func` the size of the buffer, and returns the bytes that it puts there.
pub record Port {ℓ} (W : Type ℓ) : Type ℓ where
  pub write_func : List ℕ → W → Io ℕ × W
  pub read_func : ℕ → W → Io (List ℕ) × W
  pub millis : W → ℕ

-- What the functions of the library return: a number of bytes, a TINY_ERR code, or the code of a
-- function of the user.
pub data Outcome : Type 0 where
  amount : ℕ → Outcome
  status : Status → Outcome
  user_code : ℕ → Outcome
