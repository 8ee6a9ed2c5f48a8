-- ===== src/Text/RoundTrip.antt =====
-- Reading back the numbers that `%x` prints.
use amd_ibs_toolkit.Base.{
  ℕ, zero, suc, ◌+◌, ◌*◌, ◌/◌, ◌%◌, ◌^◌, ◌<◌, ◌≡◌, refl, arith, ap, ◌∙◌, true, false, ◌==◌, ltb,
}
use amd_ibs_toolkit.Base.{Bool-cases, inl, inr, [], ◌∷◌, ◌++◌, append_assoc}
use amd_ibs_toolkit.Text.{
  Bytes, codes, is_hex, digit_value, number, hex_digit, hex_digits, print_hex, to_colon, colon,
  strtoul,
}

digit_value-hex_digit : (d : ℕ) → d < 16 → digit_value (hex_digit d) ≡ d
digit_value-hex_digit d h = ground arith

number-digit :
    (v d : ℕ) (rest : Bytes)
    → d < 16
    → number 16 v (hex_digit d ∷ rest) ≡ number 16 (v * 16 + d) rest
number-digit v d rest h =
    let small : ltb d 16 ≡ true = ground arith in rw (digit_value-hex_digit d h, small) refl

pub number-hex_digits :
    (count n : ℕ) (rest : Bytes)
    → n < 16 ^ count
    → number 16 0 (hex_digits count n ++ rest) ≡ number 16 n rest
unfolding hex_digits
number-hex_digits zero n rest h = ap (λ v. number 16 v rest) (omega (arith, h))
number-hex_digits (suc count) n rest h = elim (Bool-cases (n / 16 == 0)) [
  | inl one ↦
      let small : n < 16 = ground arith in
      rw one (number-digit 0 n rest small ∙ ap (λ v. number 16 v rest) (omega arith))
  | inr more ↦
      let last : Bytes = hex_digit (n % 16) ∷ [] in
      rw (more, append_assoc (hex_digits count (n / 16)) last rest)
        (number-hex_digits count (n / 16) (hex_digit (n % 16) ∷ rest) (omega arith)
          ∙ number-digit (n / 16) (n % 16) rest (omega arith)
          ∙ ap (λ v. number 16 v rest) (omega arith))
]

-- Hexadecimal digits hold no colon, so `strtok` does not stop in them.
to_colon-hex_digit :
    (d : ℕ) (rest : Bytes) → d < 16 → to_colon (hex_digit d ∷ rest) ≡ hex_digit d ∷ to_colon rest
to_colon-hex_digit d rest h =
    let other : hex_digit d == colon ≡ false = ground arith in rw other refl

to_colon-hex_digits :
    (count n : ℕ) (rest : Bytes)
    → n < 16 ^ count
    → to_colon (hex_digits count n ++ rest) ≡ hex_digits count n ++ to_colon rest
unfolding hex_digits
to_colon-hex_digits zero n rest h = refl
to_colon-hex_digits (suc count) n rest h = elim (Bool-cases (n / 16 == 0)) [
  | inl one ↦ rw one (to_colon-hex_digit n rest (ground arith))
  | inr more ↦
      let d = n % 16 in
      let last : Bytes = hex_digit d ∷ [] in
      rw
        (
          more,
          append_assoc (hex_digits count (n / 16)) last rest,
          append_assoc (hex_digits count (n / 16)) last (to_colon rest),
        )
        (to_colon-hex_digits count (n / 16) (hex_digit d ∷ rest) (omega arith)
          ∙ ap (λ t. hex_digits count (n / 16) ++ t) (to_colon-hex_digit d rest (omega arith)))
]

pub is_hex-hex_digits :
    (count n : ℕ) (rest : Bytes)
    → n < 16 ^ suc count
    → is_hex (hex_digits (suc count) n ++ rest) ≡ true
unfolding hex_digits
is_hex-hex_digits zero n rest h =
    let one : n / 16 == 0 ≡ true = ground arith in
    rw (one, digit_value-hex_digit n h) (ground arith)
is_hex-hex_digits (suc count) n rest h = elim (Bool-cases (n / 16 == 0)) [
  | inl one ↦
      let small : n < 16 = ground arith in rw (one, digit_value-hex_digit n small) (ground arith)
  | inr more ↦
      let last : Bytes = hex_digit (n % 16) ∷ [] in
      rw (more, append_assoc (hex_digits (suc count) (n / 16)) last rest)
        (is_hex-hex_digits count (n / 16) (hex_digit (n % 16) ∷ rest) (omega arith))
]

-- What a line has behind the colon of its key: a blank, a number for `0x%x`, and the line's end.
pub strtoul-print_hex :
    (n : ℕ) → n < 2 ^ 32 → strtoul (to_colon (codes " 0x" ++ print_hex n ++ codes "\n")) ≡ n
unfolding print_hex
strtoul-print_hex n h =
    rw
      (
        to_colon-hex_digits 8 n (codes "\n") h,
        is_hex-hex_digits 7 n (codes "\n") h,
        number-hex_digits 8 n (codes "\n") h,
      )
      (omega (arith, h))
