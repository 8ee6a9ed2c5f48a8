-- ===== src/Bits/Step.antt =====
-- The lowest digit and the rest of `a & b`, `a | b` and `a ^ b`.
use Prim.Native.Nat.{digits, bitwise, differ, bit_and-bitwise, bit_or-bitwise, bit_xor-bitwise}
use amd_ibs_toolkit.Base.{
  ℕ, zero, suc, ◌+◌, ◌*◌, ◌/◌, ◌%◌, ◌≤◌, ◌<◌, min, max, bit_and, bit_or, bit_xor,
}
use amd_ibs_toolkit.Base.{◌≡◌, refl, arith}

module _ (rest : ℕ → ℕ) (combine : ℕ → ℕ → ℕ) where
  abbrev run : ℕ → ℕ → ℕ → ℕ
  run fuel x y = digits rest combine fuel x y

  -- The recursion halves `x`, so any fuel from `x` on gives the same digits.
  run_enough : (fuel more x y : ℕ) → x ≤ fuel → x ≤ more → run fuel x y ≡ run more x y
  run_enough zero zero zero y _ _ = refl
  run_enough zero (suc more) zero y _ _ = refl
  run_enough (suc fuel) zero zero y _ _ = refl
  run_enough (suc fuel) (suc more) zero y _ _ = refl
  run_enough zero more (suc x) y short _ = absurd (omega arith)
  run_enough (suc fuel) zero (suc x) y _ short = absurd (omega arith)
  run_enough (suc fuel) (suc more) (suc x) y p q =
      let halves : run fuel (suc x / 2) (y / 2) ≡ run more (suc x / 2) (y / 2) =
        run_enough fuel more (suc x / 2) (y / 2) (omega arith) (omega arith) in
      rw halves

  bitwise_digit :
      (x y : ℕ)
      → bitwise rest combine (suc x) y
        ≡ combine (suc x % 2) (y % 2) + 2 * bitwise rest combine (suc x / 2) (y / 2)
  bitwise_digit x y =
      omega (arith, run_enough x (suc x / 2) (suc x / 2) (y / 2) (omega arith) (omega arith))

pub bit_and_digit : (x y : ℕ) → bit_and x y ≡ min (x % 2) (y % 2) + 2 * bit_and (x / 2) (y / 2)
bit_and_digit zero y = simp bit_and-bitwise (omega arith)
bit_and_digit (suc x) y = simp bit_and-bitwise (bitwise_digit (λ _. 0) min x y)

pub bit_or_digit : (x y : ℕ) → bit_or x y ≡ max (x % 2) (y % 2) + 2 * bit_or (x / 2) (y / 2)
bit_or_digit zero y = simp bit_or-bitwise (omega arith)
bit_or_digit (suc x) y = simp bit_or-bitwise (bitwise_digit (λ d. d) max x y)

pub bit_xor_digit : (x y : ℕ) → bit_xor x y ≡ differ (x % 2) (y % 2) + 2 * bit_xor (x / 2) (y / 2)
bit_xor_digit zero y = simp bit_xor-bitwise (omega arith)
bit_xor_digit (suc x) y = simp bit_xor-bitwise (bitwise_digit (λ d. d) differ x y)

pub differ_eq : (x y : ℕ) → x < 2 → y < 2 → differ x y ≡ (x + y) % 2
differ_eq zero y p q = omega arith
differ_eq (suc zero) zero p q = refl
differ_eq (suc zero) (suc zero) p q = refl
differ_eq (suc zero) (suc (suc y)) p q = absurd (omega arith)
differ_eq (suc (suc x)) y p q = absurd (omega arith)
