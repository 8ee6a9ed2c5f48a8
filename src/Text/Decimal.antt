-- ===== src/Text/Decimal.antt =====
-- Reading back the numbers that `%d` and `%lx` print.
use amd_ibs_toolkit.Base.{
  ℕ, zero, suc, ◌+◌, ◌-◌, ◌*◌, ◌/◌, ◌%◌, ◌^◌, ◌<◌, ◌≤◌, ◌≡◌, refl, sym, arith, ap, ◌∙◌, true, ◌==◌,
  ltb, length, min,
}
use amd_ibs_toolkit.Base.{Bool-cases, inl, inr, [], ◌∷◌, ◌++◌, append_assoc, append-nil}
use amd_ibs_toolkit.Base.{length-append}
use amd_ibs_toolkit.Text.{
  Bytes, codes, digit_value, number, dec_digits, print_dec, hex_digits, print_hex64, hex_digit,
  strtoul, is_hex,
}
use amd_ibs_toolkit.Text.RoundTrip.{number-hex_digits, is_hex-hex_digits}
use amd_ibs_toolkit.Text.Split.{above, above-append}

pub digit_value-dec : (d : ℕ) → d < 10 → digit_value (48 + d) ≡ d
digit_value-dec d h = ground arith

number-digit :
    (v d : ℕ) (rest : Bytes) → d < 10 → number 10 v ((48 + d) ∷ rest) ≡ number 10 (v * 10 + d) rest
number-digit v d rest h =
    let small : ltb d 10 ≡ true = ground arith in rw (digit_value-dec d h, small) refl

number-dec_digits :
    (count n : ℕ) (rest : Bytes)
    → n < 10 ^ count
    → number 10 0 (dec_digits count n ++ rest) ≡ number 10 n rest
unfolding dec_digits
number-dec_digits zero n rest h = ap (λ v. number 10 v rest) (omega (arith, h))
number-dec_digits (suc count) n rest h = elim (Bool-cases (n / 10 == 0)) [
  | inl one ↦
      let small : n < 10 = ground arith in
      rw one (number-digit 0 n rest small ∙ ap (λ v. number 10 v rest) (omega arith))
  | inr more ↦
      let last : Bytes = (48 + n % 10) ∷ [] in
      rw (more, append_assoc (dec_digits count (n / 10)) last rest)
        (number-dec_digits count (n / 10) ((48 + n % 10) ∷ rest) (omega arith)
          ∙ number-digit (n / 10) (n % 10) rest (omega arith)
          ∙ ap (λ v. number 10 v rest) (omega arith))
]

pub above-dec_digits : (count n : ℕ) → above 47 (dec_digits count n) ≡ true
unfolding dec_digits
above-dec_digits zero n = refl
above-dec_digits (suc count) n = elim (Bool-cases (n / 10 == 0)) [
  | inl one ↦ rw one (ground arith)
  | inr more ↦ rw more (
      above-append 47 (dec_digits count (n / 10)) ((48 + n % 10) ∷ [])
        (above-dec_digits count (n / 10)) (ground arith))
]

pub above-hex_digits : (count n : ℕ) → above 47 (hex_digits count n) ≡ true
unfolding hex_digits
above-hex_digits zero n = refl
above-hex_digits (suc count) n = elim (Bool-cases (n / 16 == 0)) [
  | inl one ↦ rw one (ground arith)
  | inr more ↦ rw more (
      above-append 47 (hex_digits count (n / 16)) (hex_digit (n % 16) ∷ [])
        (above-hex_digits count (n / 16)) (ground arith))
]

pub length-dec_digits : (count n : ℕ) → length (dec_digits count n) ≤ count
unfolding dec_digits
length-dec_digits zero n = omega arith
length-dec_digits (suc count) n = elim (Bool-cases (n / 10 == 0)) [
  | inl one ↦ rw one (omega arith)
  | inr more ↦
      rw (more, length-append (dec_digits count (n / 10)) ((48 + n % 10) ∷ []))
        (omega (arith, length-dec_digits count (n / 10)))
]

-- As many digits as the number has.
pub length-dec_digits_below : (count k n : ℕ) → n < 10 ^ suc k → length (dec_digits count n) ≤ suc k
unfolding dec_digits
length-dec_digits_below zero k n h = omega arith
length-dec_digits_below (suc count) zero n h =
    let one : n / 10 == 0 ≡ true = ground (arith, h) in rw one (omega arith)
length-dec_digits_below (suc count) (suc k) n h = elim (Bool-cases (n / 10 == 0)) [
  | inl one ↦ rw one (omega arith)
  | inr more ↦
      rw (more, length-append (dec_digits count (n / 10)) ((48 + n % 10) ∷ []))
        (omega (arith, length-dec_digits_below count k (n / 10) (omega (arith, h))))
]

pub length-hex_digits : (count n : ℕ) → length (hex_digits count n) ≤ count
unfolding hex_digits
length-hex_digits zero n = omega arith
length-hex_digits (suc count) n = elim (Bool-cases (n / 16 == 0)) [
  | inl one ↦ rw one (omega arith)
  | inr more ↦
      rw (more, length-append (hex_digits count (n / 16)) (hex_digit (n % 16) ∷ []))
        (omega (arith, length-hex_digits count (n / 16)))
]

pub number-print_dec : (n : ℕ) → n < 10 ^ 20 → number 10 0 (print_dec n) ≡ n
unfolding print_dec
number-print_dec n h = rw (sym (append-nil (dec_digits 20 n))) (number-dec_digits 20 n [] h)

strtoul-0x :
    (digits : Bytes)
    → is_hex digits ≡ true
    → strtoul (codes "0x" ++ digits) ≡ min (number 16 0 digits) (2 ^ 64 - 1)
strtoul-0x digits h = rw h refl

strtoul-digits :
    (c : ℕ) (cs : Bytes)
    → 48 < c
    → c < 58
    → strtoul (c ∷ cs) ≡ min (number 10 0 (c ∷ cs)) (2 ^ 64 - 1)
strtoul-digits c cs low high = ground arith

is_hex-print : (count n : ℕ) → n < 16 ^ suc count → is_hex (hex_digits (suc count) n) ≡ true
is_hex-print count n h =
    ap is_hex (sym (append-nil (hex_digits (suc count) n))) ∙ is_hex-hex_digits count n [] h

pub strtoul-print_hex64 : (n : ℕ) → n < 2 ^ 64 → strtoul (codes "0x" ++ print_hex64 n) ≡ n
unfolding print_hex64
strtoul-print_hex64 n h =
    strtoul-0x (hex_digits 16 n) (is_hex-print 15 n h)
    ∙ ap (λ v. min v (2 ^ 64 - 1))
        (ap (number 16 0) (sym (append-nil (hex_digits 16 n))) ∙ number-hex_digits 16 n [] h)
    ∙ omega (arith, h)

-- The digits of a number from 1 on do not start with 0.
starts_high :
    (count n : ℕ)
    → n < 10 ^ count
    → 0 < n
    → (c : ℕ) × (cs : Bytes) × (dec_digits count n ≡ c ∷ cs) × (48 < c) × (c < 58)
unfolding dec_digits
starts_high zero n h positive = absurd (omega (arith, h, positive))
starts_high (suc count) n h positive = elim (Bool-cases (n / 10 == 0)) [
  | inl one ↦ (48 + n, [], rw one refl, omega (arith, positive), ground arith)
  | inr more ↦
      let (c, cs, split, low, high) = starts_high count (n / 10) (omega arith) (ground arith) in
      (c, cs ++ ((48 + n % 10) ∷ []), rw (more, split) refl, low, high)
]

strtoul-dec_digits :
    (count n : ℕ) → n < 10 ^ count → 0 < n → n < 2 ^ 64 → strtoul (dec_digits count n) ≡ n
strtoul-dec_digits count n h positive small =
    let (c, cs, split, low, high) = starts_high count n h positive in
    let digits = dec_digits count n in
    ap strtoul split
    ∙ strtoul-digits c cs low high
    ∙ ap (λ v. min v (2 ^ 64 - 1))
        (ap (number 10 0) (sym split ∙ sym (append-nil digits)) ∙ number-dec_digits count n [] h)
    ∙ omega (arith, small)

pub strtoul-print_dec : (n : ℕ) → n < 2 ^ 64 → strtoul (print_dec n) ≡ n
unfolding print_dec dec_digits
strtoul-print_dec n h = elim (Bool-cases (n == 0)) [
  | inl zero_n ↦ let same : n ≡ 0 = ground (arith, zero_n) in rw same refl
  | inr some_n ↦ strtoul-dec_digits 20 n (omega (arith, h)) (ground (arith, some_n)) h
]
