-- ===== src/Driver/Scatter/Field.antt =====
-- Fields of a 64-bit register: `reg &= ~mask; reg |= scatter_bits(v, mask)` and `gather_bits`.
use amd_ibs_toolkit.Base.{ℕ, zero, suc, ◌+◌, ◌*◌, ◌/◌, ◌%◌, ◌^◌, ◌<◌, bit_and, bit_or, ◌≡◌, refl}
use amd_ibs_toolkit.Base.{arith, sym, ◌∙◌, ap, Bool-cases, inl, inr, true, false}
use amd_ibs_toolkit.Base.{◌==◌, ==_iff}
use amd_ibs_toolkit.Bits.Digit.{
  bit, bit-bit_and, bit-bit_or, bit_and-lt, bit_or-lt, complement, bit-zero, bit-cons,
}
use amd_ibs_toolkit.Bits.Digit.{bit-complement}
use amd_ibs_toolkit.Driver.Scatter.{scatter_bits, gather_bits}
use amd_ibs_toolkit.Driver.Scatter.Loop.{
  deposit, extract, deposit-one, deposit-skip, extract-one, extract-skip,
}
use amd_ibs_toolkit.Driver.Scatter.Loop.{scatter_bits-deposit, gather_bits-extract}
use native.Mathlib.Nat.{pow-suc, pow-succ', mod-add-div, div-div-eq-div-mul}

-- How many of the `n` low digits of `fmt` are ones.
abbrev pub ones : ℕ → ℕ → ℕ
ones zero fmt = 0
ones (suc n) fmt = fmt % 2 + ones n (fmt / 2)

deposit-lt : (n q f : ℕ) → deposit n q f < 2 ^ n
unfolding deposit
deposit-lt zero q f = omega arith
deposit-lt (suc n) q f =
    ground (arith, deposit-lt n (q / 2) (f / 2), deposit-lt n q (f / 2), pow-suc 2 n)

bit-deposit_off : (n q f i : ℕ) → bit f i ≡ false → bit (deposit n q f) i ≡ false
unfolding deposit
bit-deposit_off zero q f i h = bit-zero i
bit-deposit_off (suc n) q f zero h = ground arith
bit-deposit_off (suc n) q f (suc i) h = elim (Bool-cases (f % 2 == 1)) [
  | inl one ↦
      ap (λ t. bit t (suc i)) (deposit-one n q f one)
      ∙ bit-cons (q % 2) _ i (omega arith)
      ∙ bit-deposit_off n (q / 2) (f / 2) i h
  | inr clear ↦
      ap (λ t. bit t (suc i)) (deposit-skip n q f clear)
      ∙ ap (λ t. bit t i) (omega arith)
      ∙ bit-deposit_off n q (f / 2) i h
]

mod_digit : (k q : ℕ) → q % 2 ^ suc k ≡ q % 2 + 2 * (q / 2 % 2 ^ k)
mod_digit k q = rw (pow-succ' 2 k) (
    omega (
      arith,
      mod-add-div q (2 * 2 ^ k),
      mod-add-div (q / 2) (2 ^ k),
      ap (λ (t : ℕ). 2 ^ k * t) (div-div-eq-div-mul q 2 (2 ^ k)),
    ))

-- Packing what was deposited gives back as many low digits as the pattern has ones.
extract-deposit : (n q f : ℕ) → extract n (deposit n q f) f ≡ q % 2 ^ ones n f
extract-deposit zero q f = unfold extract in omega arith
extract-deposit (suc n) q f = elim (Bool-cases (f % 2 == 1)) [
  | inl one ↦
      let e : f % 2 ≡ 1 = (==_iff _ _).0 one in
      rw (deposit-one n q f one, extract-one n (q % 2 + 2 * deposit n (q / 2) (f / 2)) f one)
        (let d : ℕ = deposit n (q / 2) (f / 2) in
          let low : (q % 2 + 2 * d) % 2 ≡ q % 2 = omega arith in
          let high : (q % 2 + 2 * d) / 2 ≡ d = omega arith in
          let width : f % 2 + ones n (f / 2) ≡ suc (ones n (f / 2)) = omega arith in
          rw (low, high, width, extract-deposit n (q / 2) (f / 2)) (sym (mod_digit _ q)))
  | inr clear ↦
      let e : f % 2 ≡ 0 = ground arith in
      rw (deposit-skip n q f clear, extract-skip n (2 * deposit n q (f / 2)) f clear)
        (let d : ℕ = deposit n q (f / 2) in
          let high : 2 * d / 2 ≡ d = omega arith in
          let width : f % 2 + ones n (f / 2) ≡ ones n (f / 2) = omega arith in
          rw (high, width) (extract-deposit n q (f / 2)))
]

extract_ext :
    (n r s f : ℕ)
    → ((i : ℕ) → i < n → bit f i ≡ true → bit r i ≡ bit s i)
    → extract n r f ≡ extract n s f
unfolding extract
extract_ext zero r s f h = refl
extract_ext (suc n) r s f h = ground (
  arith,
  h 0 (omega arith),
  extract_ext n (r / 2) (s / 2) (f / 2) (λ i p. h (suc i) (omega arith)),
)

-- `reg &= ~mask; reg |= scatter_bits(v, mask)`.
unfoldable pub set_field : ℕ → ℕ → ℕ → ℕ
set_field reg mask v = bit_or (bit_and reg (complement 64 mask)) (scatter_bits v mask)

scatter_bits-lt : (v mask : ℕ) → scatter_bits v mask < 2 ^ 64
scatter_bits-lt v mask = rw (scatter_bits-deposit v mask) (deposit-lt 64 v mask)

complement-lt : (mask : ℕ) → complement 64 mask < 2 ^ 64
complement-lt mask = omega arith

pub set_field-lt : (reg mask v : ℕ) → reg < 2 ^ 64 → set_field reg mask v < 2 ^ 64
unfolding set_field
set_field-lt reg mask v h =
    bit_or-lt 64 (bit_and reg (complement 64 mask)) (scatter_bits v mask)
      (bit_and-lt 64 reg (complement 64 mask) h) (scatter_bits-lt v mask)

-- Outside the mask every bit stays.
pub bit-set_field_off :
    (reg mask v i : ℕ)
    → mask < 2 ^ 64
    → i < 64
    → bit mask i ≡ false
    → bit (set_field reg mask v) i ≡ bit reg i
unfolding set_field
bit-set_field_off reg mask v i m k off =
    rw
      (
        bit-bit_or (bit_and reg (complement 64 mask)) (scatter_bits v mask) i,
        bit-bit_and reg (complement 64 mask) i,
        bit-complement 64 mask i m k,
        scatter_bits-deposit v mask,
        bit-deposit_off 64 v mask i off,
        off,
      )
      (ground arith)

bit-set_field_on :
    (reg mask v i : ℕ)
    → mask < 2 ^ 64
    → i < 64
    → bit mask i ≡ true
    → bit (set_field reg mask v) i ≡ bit (scatter_bits v mask) i
unfolding set_field
bit-set_field_on reg mask v i m k on =
    rw
      (
        bit-bit_or (bit_and reg (complement 64 mask)) (scatter_bits v mask) i,
        bit-bit_and reg (complement 64 mask) i,
        bit-complement 64 mask i m k,
        on,
      )
      (ground arith)

-- Reading a field after writing it gives the value, cut to the width of the field, if the mask
-- is a 64-bit word.
pub gather_bits-set_field :
    (reg mask v : ℕ)
    → mask < 2 ^ 64
    → gather_bits (set_field reg mask v) mask ≡ v % 2 ^ ones 64 mask
gather_bits-set_field reg mask v m =
    gather_bits-extract (set_field reg mask v) mask
    ∙ extract_ext 64 (set_field reg mask v) (scatter_bits v mask) mask
        (λ i k on. bit-set_field_on reg mask v i m k on)
    ∙ rw (scatter_bits-deposit v mask) (extract-deposit 64 v mask)

disjoint_off : (mask other i : ℕ) → bit_and mask other ≡ 0 → bit other i ≡ true → bit mask i ≡ false
disjoint_off mask other i e on =
    ground (arith, bit-bit_and mask other i, ap (λ t. bit t i) e, bit-zero i)

-- Writing a field with a 64-bit mask leaves every disjoint field alone.
pub gather_bits-set_field_other :
    (reg mask other v : ℕ)
    → mask < 2 ^ 64
    → bit_and mask other ≡ 0
    → gather_bits (set_field reg mask v) other ≡ gather_bits reg other
gather_bits-set_field_other reg mask other v m e =
    gather_bits-extract (set_field reg mask v) other
    ∙ extract_ext 64 (set_field reg mask v) reg other
        (λ i k on. bit-set_field_off reg mask v i m k (disjoint_off mask other i e on))
    ∙ sym (gather_bits-extract reg other)
