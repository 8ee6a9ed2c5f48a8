-- ===== src/Driver/Interrupt/Random.antt =====
-- The generator of driver/ibs-interrupt.c and what it does to the op control register.
use amd_ibs_toolkit.Base.{
  ℕ, zero, suc, ◌+◌, ◌-◌, ◌*◌, ◌/◌, ◌%◌, ◌^◌, ◌<◌, ◌≤◌, ◌≡◌, refl, arith, ap, ◌∙◌,
}
use amd_ibs_toolkit.Base.{
  bit_and, bit_or, bit_xor, false, not, ◌&&◌, ◌||◌, leb, ltb, if◌then◌else◌, Bool-cases, inl, inr,
}
use Prim.Native.Nat.{bit_and-bitwise, bit_or-bitwise}
use native.Mathlib.Nat.{pow-suc}
use amd_ibs_toolkit.Bits.Step.{bit_and_digit, bit_or_digit, bit_xor_digit, differ_eq}
use amd_ibs_toolkit.Bits.Digit.{bit, bit-bit_and, bit-bit_or, bit-complement, bit-zero}
use amd_ibs_toolkit.Driver.Scatter.Loop.{bit_or-pow}
use amd_ibs_toolkit.Driver.Interrupt.{lfsr_bit, lfsr_random, randomize_op_ctl}

bit_and_zero : (n x : ℕ) → x ≤ n → bit_and x 0 ≡ 0
bit_and_zero zero zero h = omega (arith, bit_and-bitwise 0 0)
bit_and_zero zero (suc x) h = absurd (omega arith)
bit_and_zero (suc n) x h = omega (arith, bit_and_digit x 0, bit_and_zero n (x / 2) (omega arith))

bit_or_zero : (n x : ℕ) → x ≤ n → bit_or x 0 ≡ x
bit_or_zero zero zero h = omega (arith, bit_or-bitwise 0 0)
bit_or_zero zero (suc x) h = absurd (omega arith)
bit_or_zero (suc n) x h = omega (arith, bit_or_digit x 0, bit_or_zero n (x / 2) (omega arith))

bit_and_one : (x : ℕ) → bit_and x 1 ≡ x % 2
bit_and_one x = omega (arith, bit_and_digit x 1, bit_and_zero (x / 2) (x / 2) (omega arith))

bit_xor-parity : (x y : ℕ) → bit_xor x y % 2 ≡ (x + y) % 2
bit_xor-parity x y =
    omega (arith, bit_xor_digit x y, differ_eq (x % 2) (y % 2) (omega arith) (omega arith))

-- The four taps of the register.
taps : (v : ℕ) → lfsr_bit v ≡ (v + v / 2 ^ 2 + v / 2 ^ 3 + v / 2 ^ 5) % 2
unfolding lfsr_bit
taps v =
    let a : ℕ = bit_xor v (v / 2 ^ 2) in
    let b : ℕ = bit_xor a (v / 2 ^ 3) in
    omega (
      arith,
      bit_and_one (bit_xor b (v / 2 ^ 5)),
      bit_xor-parity b (v / 2 ^ 5),
      bit_xor-parity a (v / 2 ^ 3),
      bit_xor-parity v (v / 2 ^ 2),
    )

lfsr_random-sum : (v : ℕ) → v < 2 ^ 16 → lfsr_random v ≡ v / 2 + lfsr_bit v * 2 ^ 15
unfolding lfsr_random
lfsr_random-sum v small =
    let p = taps v in
    elim (Bool-cases (ltb 0 (lfsr_bit v))) [
      | inl one ↦
          let e : lfsr_bit v ≡ 1 = ground arith in rw e (bit_or-pow 15 (v / 2) (omega arith))
      | inr none ↦
          let e : lfsr_bit v ≡ 0 = ground arith in
          rw e (omega (arith, bit_or_zero (v / 2) (v / 2) (omega arith)))
    ]

-- From a state of 16 bits that is not 0, the generator goes to another such state.
lfsr_random-range : (v : ℕ) → 0 < v → v < 2 ^ 16 → (0 < lfsr_random v) × (lfsr_random v < 2 ^ 16)
lfsr_random-range v pos small =
    (omega (arith, lfsr_random-sum v small, taps v), omega (arith, lfsr_random-sum v small, taps v))

-- No two states of 16 bits have the same successor.
lfsr_random-injective : (v w : ℕ) → v < 2 ^ 16 → w < 2 ^ 16 → lfsr_random v ≡ lfsr_random w → v ≡ w
lfsr_random-injective v w small small' same =
    omega (arith, lfsr_random-sum v small, lfsr_random-sum w small', taps v, taps w)

double : (n x : ℕ) → x * 2 ^ suc n ≡ 2 * (x * 2 ^ n)
double n x = grind (arith, pow-suc 2 n)

bit-shift_low : (n x i : ℕ) → i < n → bit (x * 2 ^ n) i ≡ false
bit-shift_low zero x i h = absurd (omega arith)
bit-shift_low (suc n) x zero h = ground (arith, double n x)
bit-shift_low (suc n) x (suc i) h =
    ap (λ t. bit t i) (omega (arith, double n x)) ∙ bit-shift_low n x i (omega arith)

bit-shift_high : (n x i : ℕ) → bit (x * 2 ^ n) (n + i) ≡ bit x i
bit-shift_high zero x i =
    let same : x * 2 ^ 0 ≡ x = omega arith in
    let at : 0 + i ≡ i = omega arith in ap (λ t. bit t (0 + i)) same ∙ ap (bit x) at
bit-shift_high (suc n) x i =
    let at : suc n + i ≡ suc (n + i) = omega arith in
    let half : x * 2 ^ suc n / 2 ≡ x * 2 ^ n = omega (arith, double n x) in
    ap (bit (x * 2 ^ suc n)) at ∙ ap (λ t. bit t (n + i)) half ∙ bit-shift_high n x i

bit-fifteen : (j : ℕ) → bit 0xf j ≡ ltb j 4
bit-fifteen zero = refl
bit-fifteen (suc zero) = refl
bit-fifteen (suc (suc zero)) = refl
bit-fifteen (suc (suc (suc zero))) = refl
bit-fifteen (suc (suc (suc (suc j)))) = ground (arith, bit-zero j)

bit-randomize_op_ctl :
    (random op_ctl i : ℕ)
    → i < 64
    → bit (randomize_op_ctl random op_ctl) i
      ≡ (bit (bit_and random 0xf * 2 ^ 32) i || (bit op_ctl i && not (bit (0xf * 2 ^ 32) i)))
unfolding randomize_op_ctl
bit-randomize_op_ctl random op_ctl i h =
    rw (bit-bit_or, bit-bit_and, bit-complement 64 (0xf * 2 ^ 32) i (omega arith) h) refl

-- Of the 64 bits of the register, `randomize_op_ctl` sets bits 32 to 35 to the low four bits
-- of the random value and keeps the others.
pub randomize_op_ctl-bits :
    (random op_ctl i : ℕ)
    → i < 64
    → bit (randomize_op_ctl random op_ctl) i
      ≡ (if leb 32 i && ltb i 36 then bit random (i - 32) else bit op_ctl i)
randomize_op_ctl-bits random op_ctl i h = elim (Bool-cases (ltb i 32)) [
  | inl low ↦
      let p : i < 32 = ground arith in
      rw
        (
          bit-randomize_op_ctl random op_ctl i h,
          bit-shift_low 32 (bit_and random 0xf) i p,
          bit-shift_low 32 0xf i p,
        )
        (ground arith)
  | inr high ↦
      let p : 32 + (i - 32) ≡ i = ground arith in
      let a = bit-shift_high 32 (bit_and random 0xf) (i - 32) in
      let b = bit-shift_high 32 0xf (i - 32) in
      rw (bit-randomize_op_ctl random op_ctl i h)
        (ground (arith, a, b, p, bit-fifteen (i - 32), bit-bit_and random 0xf (i - 32)))
]
