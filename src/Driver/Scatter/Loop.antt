-- ===== src/Driver/Scatter/Loop.antt =====
-- The loops against a recursion on the digits of the pattern.
use amd_ibs_toolkit.Base.{ℕ, zero, suc, ◌+◌, ◌*◌, ◌/◌, ◌%◌, ◌^◌, ◌≤◌, ◌<◌}
use amd_ibs_toolkit.Base.{bit_and, bit_or, ◌≡◌, refl, arith, ◌∙◌, ap, Bool-cases, inl, inr}
use amd_ibs_toolkit.Base.{true, false, not, ◌==◌, ==_iff, if◌then◌else◌}
use amd_ibs_toolkit.Bits.Step.{bit_and_digit, bit_or_digit}
use amd_ibs_toolkit.Driver.Scatter.{
  is_set, shl1, scatter_loop, scatter_bits, gather_loop, gather_bits,
}
use Prim.Native.Nat.{bit_and-bitwise, bit_or-bitwise}
use native.Mathlib.Nat.{pow-suc, pow-le-pow_right}

-- The low digits of `qty` on the positions of `fmt`'s ones, over `n` digits.
unfoldable pub deposit : ℕ → ℕ → ℕ → ℕ
deposit zero qty fmt = 0
deposit (suc n) qty fmt = elim (fmt % 2 == 1) [
  | true ↦ qty % 2 + 2 * deposit n (qty / 2) (fmt / 2)
  | false ↦ 2 * deposit n qty (fmt / 2)
]

-- The digits of `reg` on the positions of `fmt`'s ones, packed, over `n` digits.
unfoldable pub extract : ℕ → ℕ → ℕ → ℕ
extract zero reg fmt = 0
extract (suc n) reg fmt = elim (fmt % 2 == 1) [
  | true ↦ reg % 2 + 2 * extract n (reg / 2) (fmt / 2)
  | false ↦ extract n (reg / 2) (fmt / 2)
]

-- `x >> b`, a digit at a time.
abbrev pub shift : ℕ → ℕ → ℕ
shift x zero = x
shift x (suc b) = shift (x / 2) b

shift-half : (x b : ℕ) → shift (x / 2) b ≡ shift x b / 2
shift-half x zero = refl
shift-half x (suc b) = shift-half (x / 2) b

bit_and-zero : (n x : ℕ) → x ≤ n → bit_and x 0 ≡ 0
bit_and-zero n zero h = bit_and-bitwise 0 0
bit_and-zero zero (suc x) h = absurd (omega arith)
bit_and-zero (suc n) (suc x) h =
    omega (arith, bit_and_digit (suc x) 0, bit_and-zero n (suc x / 2) (omega arith))

bit_or-zero : (n x : ℕ) → x ≤ n → bit_or x 0 ≡ x
bit_or-zero n zero h = bit_or-bitwise 0 0
bit_or-zero zero (suc x) h = absurd (omega arith)
bit_or-zero (suc n) (suc x) h =
    omega (arith, bit_or_digit (suc x) 0, bit_or-zero n (suc x / 2) (omega arith))

-- `x & (1 << b)` is nonzero exactly when bit `b` of `x` is set.
pub is_set-pow : (b x : ℕ) → is_set x (2 ^ b) ≡ (shift x b % 2 == 1)
is_set-pow zero x = ground (arith, bit_and_digit x 1, bit_and-zero (x / 2) (x / 2) (omega arith))
is_set-pow (suc b) x = ap (λ t. not (t == 0)) twice ∙ doubled ∙ is_set-pow b (x / 2)
  where
    twice : bit_and x (2 ^ suc b) ≡ 2 * bit_and (x / 2) (2 ^ b)
    twice =
        let e : 2 ^ suc b ≡ 2 ^ b * 2 = pow-suc 2 b in
        let f : 2 ^ suc b / 2 ≡ 2 ^ b = omega arith in
        omega (arith, bit_and_digit x (2 ^ suc b), ap (bit_and (x / 2)) f)

    doubled : not (2 * bit_and (x / 2) (2 ^ b) == 0) ≡ is_set (x / 2) (2 ^ b)
    doubled = ground arith

pub bit_or-pow : (b x : ℕ) → x < 2 ^ b → bit_or x (2 ^ b) ≡ x + 2 ^ b
bit_or-pow zero zero h = bit_or-bitwise 0 1
bit_or-pow zero (suc x) h = absurd (omega arith)
bit_or-pow (suc b) x h =
    let e : 2 ^ suc b ≡ 2 ^ b * 2 = pow-suc 2 b in
    let f : 2 ^ suc b / 2 ≡ 2 ^ b = omega arith in
    omega
      (arith, bit_or_digit x (2 ^ suc b), ap (bit_or (x / 2)) f, bit_or-pow b (x / 2) (omega arith))

pub shl1-pow : (b : ℕ) → b < 63 → shl1 (2 ^ b) ≡ 2 ^ suc b
shl1-pow b h =
    let top : 2 ^ suc b ≤ 2 ^ 63 = pow-le-pow_right (omega arith) {j = 63} (omega arith) in
    omega (arith, pow-suc 2 b)

-- `if (x & 1) reg |= 1 << b`.
or_digit :
    (b reg x : ℕ)
    → reg < 2 ^ b
    → (if x % 2 == 1 then bit_or reg (2 ^ b) else reg) ≡ reg + 2 ^ b * (x % 2)
or_digit b reg x h = elim (Bool-cases (x % 2 == 1)) [
  | inl one ↦
      let e : x % 2 ≡ 1 = (==_iff _ _).0 one in rw (one, e) (omega (arith, bit_or-pow b reg h))
  | inr clear ↦ let e : x % 2 ≡ 0 = ground arith in rw (clear, e) (omega arith)
]

-- The next position, while a round is left.
next_pos : (b left pos : ℕ) → b + suc left ≤ 64 → pos ≡ 2 ^ b → 0 < left → shl1 pos ≡ 2 ^ suc b
next_pos b left pos e h p = rw h (shl1-pow b (omega arith))

pub deposit-one :
    (n qty fmt : ℕ)
    → (fmt % 2 == 1) ≡ true
    → deposit (suc n) qty fmt ≡ qty % 2 + 2 * deposit n (qty / 2) (fmt / 2)
unfolding deposit
deposit-one n qty fmt h = ground arith

pub deposit-skip :
    (n qty fmt : ℕ) → (fmt % 2 == 1) ≡ false → deposit (suc n) qty fmt ≡ 2 * deposit n qty (fmt / 2)
unfolding deposit
deposit-skip n qty fmt h = ground arith

-- A digit at bit `b` and the digits above it make up the digits from bit `b` on.
carry : (b r d x : ℕ) → r + 2 ^ b * d + 2 ^ suc b * x ≡ r + 2 ^ b * (d + 2 * x)
carry b r d x = omega (arith, ap (λ (t : ℕ). t * x) (pow-suc 2 b))

carry_skip : (b r x : ℕ) → r + 2 ^ suc b * x ≡ r + 2 ^ b * (2 * x)
carry_skip b r x = omega (arith, ap (λ (t : ℕ). t * x) (pow-suc 2 b))

carry-lt : (b r x : ℕ) → r < 2 ^ b → r + 2 ^ b * (x % 2) < 2 ^ suc b
carry-lt b r x h = elim (Bool-cases (x % 2 == 1)) [
  | inl one ↦ let e : x % 2 ≡ 1 = (==_iff _ _).0 one in rw e (omega (arith, pow-suc 2 b))
  | inr clear ↦ let e : x % 2 ≡ 0 = ground arith in rw e (omega (arith, pow-suc 2 b))
]

-- `scatter_bits` from bit `b` on, with `a` digits used up, deposits the rest of them.
pub scatter_loop-deposit :
    (left a b qty fmt reg qty_pos fmt_pos : ℕ)
    → b + left ≡ 64
    → a ≤ b
    → reg < 2 ^ b
    → (0 < left → qty_pos ≡ 2 ^ a)
    → (0 < left → fmt_pos ≡ 2 ^ b)
    → scatter_loop left qty fmt reg qty_pos fmt_pos
      ≡ reg + 2 ^ b * deposit left (shift qty a) (shift fmt b)
unfolding scatter_loop
scatter_loop-deposit zero a b qty fmt reg qp fp e le lt hq hf = unfold deposit in omega arith
scatter_loop-deposit (suc left) a b qty fmt reg qp fp e le lt hq hf =
    let q : qp ≡ 2 ^ a = hq (omega arith) in
    let f : fp ≡ 2 ^ b = hf (omega arith) in
    let below : reg < 2 ^ suc b = omega (arith, pow-suc 2 b) in
    elim (Bool-cases (shift fmt b % 2 == 1)) [
      | inl hit ↦
          rw (q, f, is_set-pow b fmt, is_set-pow a qty, hit, or_digit b reg (shift qty a) lt)
            (scatter_loop-deposit left (suc a) (suc b) qty fmt (reg + 2 ^ b * (shift qty a % 2))
                (shl1 (2 ^ a)) (shl1 (2 ^ b)) (omega arith) (omega arith)
                (carry-lt b reg (shift qty a) lt) (next_pos a left (2 ^ a) (omega arith) refl)
                (next_pos b left (2 ^ b) (omega arith) refl)
              ∙ rw
                  (
                    shift-half qty a,
                    shift-half fmt b,
                    deposit-one left (shift qty a) (shift fmt b) hit,
                  )
                  (carry b reg (shift qty a % 2) _))
      | inr miss ↦
          rw (q, f, is_set-pow b fmt, miss)
            (scatter_loop-deposit left a (suc b) qty fmt reg (2 ^ a) (shl1 (2 ^ b)) (omega arith)
                (omega arith) below (λ _. refl) (next_pos b left (2 ^ b) (omega arith) refl)
              ∙ rw (shift-half fmt b, deposit-skip left (shift qty a) (shift fmt b) miss)
                  (carry_skip b reg _))
    ]

pub extract-one :
    (n reg fmt : ℕ)
    → (fmt % 2 == 1) ≡ true
    → extract (suc n) reg fmt ≡ reg % 2 + 2 * extract n (reg / 2) (fmt / 2)
unfolding extract
extract-one n reg fmt h = ground arith

pub extract-skip :
    (n reg fmt : ℕ)
    → (fmt % 2 == 1) ≡ false
    → extract (suc n) reg fmt ≡ extract n (reg / 2) (fmt / 2)
unfolding extract
extract-skip n reg fmt h = ground arith

-- `gather_bits` from bit `b` on, with `a` digits packed, packs the rest of them.
pub gather_loop-extract :
    (left a b reg fmt qty qty_pos fmt_pos : ℕ)
    → b + left ≡ 64
    → a ≤ b
    → qty < 2 ^ a
    → (0 < left → qty_pos ≡ 2 ^ a)
    → (0 < left → fmt_pos ≡ 2 ^ b)
    → gather_loop left reg fmt qty qty_pos fmt_pos
      ≡ qty + 2 ^ a * extract left (shift reg b) (shift fmt b)
unfolding gather_loop
gather_loop-extract zero a b reg fmt qty qp fp e le lt hq hf = unfold extract in omega arith
gather_loop-extract (suc left) a b reg fmt qty qp fp e le lt hq hf =
    let q : qp ≡ 2 ^ a = hq (omega arith) in
    let f : fp ≡ 2 ^ b = hf (omega arith) in
    elim (Bool-cases (shift fmt b % 2 == 1)) [
      | inl hit ↦
          rw (q, f, is_set-pow b fmt, is_set-pow b reg, hit, or_digit a qty (shift reg b) lt)
            (gather_loop-extract left (suc a) (suc b) reg fmt (qty + 2 ^ a * (shift reg b % 2))
                (shl1 (2 ^ a)) (shl1 (2 ^ b)) (omega arith) (omega arith)
                (carry-lt a qty (shift reg b) lt) (next_pos a left (2 ^ a) (omega arith) refl)
                (next_pos b left (2 ^ b) (omega arith) refl)
              ∙ rw
                  (
                    shift-half reg b,
                    shift-half fmt b,
                    extract-one left (shift reg b) (shift fmt b) hit,
                  )
                  (carry a qty (shift reg b % 2) _))
      | inr miss ↦
          rw (q, f, is_set-pow b fmt, miss)
            (gather_loop-extract left a (suc b) reg fmt qty (2 ^ a) (shl1 (2 ^ b)) (omega arith)
                (omega arith) lt (λ _. refl) (next_pos b left (2 ^ b) (omega arith) refl)
              ∙ rw (
                shift-half reg b,
                shift-half fmt b,
                extract-skip left (shift reg b) (shift fmt b) miss,
              ))
    ]

-- `scatter_bits` is the deposit of `qty` on the ones of a 64-bit pattern.
pub scatter_bits-deposit : (qty fmt : ℕ) → scatter_bits qty fmt ≡ deposit 64 qty fmt
unfolding scatter_bits
scatter_bits-deposit qty fmt =
    scatter_loop-deposit 64 0 0 qty fmt 0 1 1 refl (omega arith) (omega arith) (λ _. refl)
      (λ _. refl)
    ∙ omega arith

-- `gather_bits` packs the bits of `reg` on the ones of a 64-bit pattern.
pub gather_bits-extract : (reg fmt : ℕ) → gather_bits reg fmt ≡ extract 64 reg fmt
unfolding gather_bits
gather_bits-extract reg fmt =
    gather_loop-extract 64 0 0 reg fmt 0 1 1 refl (omega arith) (omega arith) (λ _. refl)
      (λ _. refl)
    ∙ omega arith
