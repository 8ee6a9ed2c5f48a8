-- ===== src/Bits/Digit.antt =====
-- A single bit of a number, and what the bitwise operations do to it.
use amd_ibs_toolkit.Base.{ℕ, zero, suc, ◌+◌, ◌-◌, ◌*◌, ◌/◌, ◌%◌, ◌^◌, ◌<◌, ◌≤◌}
use amd_ibs_toolkit.Base.{bit_and, bit_or, ◌≡◌, refl, arith, ap, ◌∙◌}
use amd_ibs_toolkit.Base.{Bool, false, not, ◌&&◌, ◌||◌, ◌==◌}
use amd_ibs_toolkit.Bits.Step.{bit_and_digit, bit_or_digit}
use Prim.Native.Nat.{bit_and-bitwise}
use native.Mathlib.Nat.{pow-suc}

-- Bit `i` of `x`: `x >> i & 1`.
abbrev pub bit : ℕ → ℕ → Bool
bit x zero = x % 2 == 1
bit x (suc i) = bit (x / 2) i

pub bit-bit_and : (x y i : ℕ) → bit (bit_and x y) i ≡ (bit x i && bit y i)
bit-bit_and x y zero = ground (arith, bit_and_digit x y)
bit-bit_and x y (suc i) =
    ap (λ t. bit t i) (omega (arith, bit_and_digit x y)) ∙ bit-bit_and (x / 2) (y / 2) i

pub bit-bit_or : (x y i : ℕ) → bit (bit_or x y) i ≡ (bit x i || bit y i)
bit-bit_or x y zero = ground (arith, bit_or_digit x y)
bit-bit_or x y (suc i) =
    ap (λ t. bit t i) (omega (arith, bit_or_digit x y)) ∙ bit-bit_or (x / 2) (y / 2) i

pub bit_and-lt : (n x y : ℕ) → x < 2 ^ n → bit_and x y < 2 ^ n
bit_and-lt zero zero y h = omega (arith, bit_and-bitwise 0 y)
bit_and-lt zero (suc x) y h = absurd (omega arith)
bit_and-lt (suc n) x y h = omega (
  arith,
  bit_and_digit x y,
  pow-suc 2 n,
  bit_and-lt n (x / 2) (y / 2) (omega (arith, pow-suc 2 n)),
)

-- By induction on a bound of `x`.
bit_and_zero : (bound x : ℕ) → x ≤ bound → bit_and x 0 ≡ 0
bit_and_zero zero zero h = omega (arith, bit_and-bitwise 0 0)
bit_and_zero zero (suc x) h = absurd (omega arith)
bit_and_zero (suc bound) zero h = omega (arith, bit_and-bitwise 0 0)
bit_and_zero (suc bound) (suc x) h =
    omega (arith, bit_and_digit (suc x) 0, bit_and_zero bound (suc x / 2) (omega arith))

pub bit_and-lt_right : (n x y : ℕ) → y < 2 ^ n → bit_and x y < 2 ^ n
bit_and-lt_right zero x zero h = omega (arith, bit_and_zero x x (omega arith))
bit_and-lt_right zero x (suc y) h = absurd (omega arith)
bit_and-lt_right (suc n) x y h = omega (
  arith,
  bit_and_digit x y,
  pow-suc 2 n,
  bit_and-lt_right n (x / 2) (y / 2) (omega (arith, pow-suc 2 n)),
)

pub bit_or-lt : (n x y : ℕ) → x < 2 ^ n → y < 2 ^ n → bit_or x y < 2 ^ n
bit_or-lt zero zero zero h k = omega arith
bit_or-lt zero (suc x) y h k = absurd (omega arith)
bit_or-lt zero zero (suc y) h k = absurd (omega arith)
bit_or-lt (suc n) x y h k = omega (
  arith,
  bit_or_digit x y,
  pow-suc 2 n,
  bit_or-lt n (x / 2) (y / 2) (omega (arith, pow-suc 2 n)) (omega (arith, pow-suc 2 n)),
)

-- `~x` on `n`-bit words.
abbrev pub complement : ℕ → ℕ → ℕ
complement n x = 2 ^ n - 1 - x

pub bit-complement : (n x i : ℕ) → x < 2 ^ n → i < n → bit (complement n x) i ≡ not (bit x i)
bit-complement zero x i h k = absurd (omega arith)
bit-complement (suc n) x zero h k = ground (arith, pow-suc 2 n)
bit-complement (suc n) x (suc i) h k =
    ap (λ t. bit t i) (omega (arith, pow-suc 2 n))
    ∙ bit-complement n (x / 2) i (omega (arith, pow-suc 2 n)) (omega arith)

-- Words with the same bits are equal.
pub bit_ext : (n x y : ℕ) → x < 2 ^ n → y < 2 ^ n → ((i : ℕ) → i < n → bit x i ≡ bit y i) → x ≡ y
bit_ext zero x y p q h = omega arith
bit_ext (suc n) x y p q h = ground (
  arith,
  h 0 (omega arith),
  bit_ext n (x / 2) (y / 2) (omega (arith, pow-suc 2 n)) (omega (arith, pow-suc 2 n))
      (λ i k. h (suc i) (omega arith)),
)

pub bit-zero : (i : ℕ) → bit 0 i ≡ false
bit-zero zero = refl
bit-zero (suc i) = bit-zero i

-- Prepending a digit shifts the bits up.
pub bit-cons : (d x i : ℕ) → d < 2 → bit (d + 2 * x) (suc i) ≡ bit x i
bit-cons d x i h = ap (λ t. bit t i) (omega arith)
