-- ===== src/Prelude/Bits.antt =====
-- The native bit operations at variables, from the recursion on binary digits that they stand for.
use Prim.Native.Nat.{
  ℕ, zero, suc, ◌+◌, ◌*◌, ◌/◌, ◌%◌, ◌≤◌, ◌<◌, max, bit_or, bit_xor, bitwise, digits, differ,
  bit_or-bitwise, bit_xor-bitwise, ◌^◌,
}
use mathlib.Core.Logic.{◌⊎◌, inl, inr}
use mathlib.Core.Path.{sym, ◌≡◌, refl, ap, ◌∙◌}
use native.Mathlib.Nat.{pow-suc}
use native.Mathlib.Omega.{arith}

-- `digits` stops when the first number has run out; what is left of the count plays no part.
spare_digit :
    (ends : ℕ → ℕ) (digit : ℕ → ℕ → ℕ) (count x y : ℕ)
    → x ≤ count
    → digits ends digit (suc count) x y ≡ digits ends digit count x y
spare_digit ends digit zero zero y h = refl
spare_digit ends digit zero (suc x) y h = absurd (omega arith)
spare_digit ends digit (suc count) zero y h = refl
spare_digit ends digit (suc count) (suc x) y h =
    ap (λ r. r * 2 + digit (suc x % 2) (y % 2))
      (spare_digit ends digit count (suc x / 2) (y / 2) (omega arith))

at_most_suc : (x n : ℕ) → x ≤ suc n → (x ≤ n) ⊎ (x ≡ suc n)
at_most_suc x n h = omega arith

spare_count :
    (ends : ℕ → ℕ) (digit : ℕ → ℕ → ℕ) (count x y : ℕ)
    → x ≤ count
    → digits ends digit count x y ≡ digits ends digit x x y
spare_count ends digit zero zero y h = refl
spare_count ends digit zero (suc x) y h = absurd (omega arith)
spare_count ends digit (suc count) x y h = elim (at_most_suc x count h) [
  | inl less ↦ spare_digit ends digit count x y less ∙ spare_count ends digit count x y less
  | inr same ↦ ap (λ n. digits ends digit n x y) (sym same)
]

-- The lowest digit apart, for an operation that keeps the digits of the second number where the
-- first has none.
lowest_digit :
    (digit : ℕ → ℕ → ℕ)
    → ((d : ℕ) → d < 2 → digit 0 d ≡ d)
    → (x y : ℕ)
    → bitwise (λ d. d) digit x y
      ≡ bitwise (λ d. d) digit (x / 2) (y / 2) * 2 + digit (x % 2) (y % 2)
lowest_digit digit keeps zero y = omega (arith, keeps (y % 2) (omega arith))
lowest_digit digit keeps (suc x) y =
    ap (λ r. r * 2 + digit (suc x % 2) (y % 2))
      (spare_count (λ d. d) digit x (suc x / 2) (y / 2) (omega arith))

differ_zero : (d : ℕ) → d < 2 → differ 0 d ≡ d
differ_zero zero h = refl
differ_zero (suc zero) h = refl
differ_zero (suc (suc d)) h = absurd (omega arith)

pub bit_xor_step : (x y : ℕ) → bit_xor x y ≡ bit_xor (x / 2) (y / 2) * 2 + differ (x % 2) (y % 2)
bit_xor_step x y = simp bit_xor-bitwise (lowest_digit differ differ_zero x y)

pub bit_or_step : (x y : ℕ) → bit_or x y ≡ bit_or (x / 2) (y / 2) * 2 + max (x % 2) (y % 2)
bit_or_step x y = simp bit_or-bitwise (lowest_digit max (λ d h. omega arith) x y)

zero-bit_or : (b : ℕ) → bit_or 0 b ≡ b
zero-bit_or b = bit_or-bitwise 0 b

two_pow_suc : (b k : ℕ) → b * 2 ^ suc k ≡ 2 * (b * 2 ^ k)
two_pow_suc b k = omega (arith, ap (λ (t : ℕ). b * t) (pow-suc 2 k))

-- `low | (high << k)` is a sum when `low` fits `k` bits.
pub bit_or_fields : (k low high : ℕ) → low < 2 ^ k → bit_or low (high * 2 ^ k) ≡ low + high * 2 ^ k
bit_or_fields zero zero high h = omega (arith, zero-bit_or (high * 2 ^ 0))
bit_or_fields zero (suc low) high h = absurd (omega arith)
bit_or_fields (suc k) low high h = ground (
  arith,
  bit_or_step low (high * 2 ^ suc k),
  two_pow_suc high k,
  pow-suc 2 k,
  bit_or_fields k (low / 2) high (omega (arith, pow-suc 2 k)),
)
