-- ===== src/Hdlc/Wire/Stuffing.antt =====
-- Byte stuffing, started anew or between an escape and the byte that it escapes.
use tinyproto.Prelude.{
  ℕ, zero, suc, ◌≤◌, bit_xor, ◌≡◌, refl, Bool, true, false, List, [], ◌∷◌, ◌++◌, arith, take, drop,
}
use tinyproto.Hdlc.Bytes.{tiny_escape_char, tiny_escape_bit, is_special}
use tinyproto.Hdlc.Wire.{stuff}
use tinyproto.Hdlc.Tx.{plain_prefix}

abbrev pub stuff_from : Bool → List ℕ → List ℕ
stuff_from false bytes = stuff bytes
stuff_from true [] = []
stuff_from true (b ∷ bytes) = bit_xor b tiny_escape_bit ∷ stuff bytes

pub stuff-special :
    (b : ℕ) (bs : List ℕ)
    → is_special b ≡ true
    → stuff (b ∷ bs) ≡ tiny_escape_char ∷ stuff_from true (b ∷ bs)
unfolding stuff
stuff-special b bs h = rw h

pub stuff-plain : (b : ℕ) (bs : List ℕ) → is_special b ≡ false → stuff (b ∷ bs) ≡ b ∷ stuff bs
unfolding stuff
stuff-plain b bs h = rw h

-- The bytes that `hdlc_ll_send_data` finds plain go out as they are.
pub stuff-plain_prefix :
    (bytes : List ℕ) (len n : ℕ) (more : List ℕ)
    → n ≤ plain_prefix bytes len
    → stuff (bytes ++ more) ≡ take n bytes ++ stuff (drop n bytes ++ more)
unfolding plain_prefix
stuff-plain_prefix bytes len zero more h = refl
stuff-plain_prefix bytes zero (suc n) more h = absurd (omega arith)
stuff-plain_prefix [] (suc len) (suc n) more h = absurd (omega arith)
stuff-plain_prefix (b ∷ bytes) (suc len) (suc n) more h =
    ground (arith, stuff-plain b (bytes ++ more), stuff-plain_prefix bytes len n more)
