-- ===== src/Text/Split.antt =====
-- Texts with separators: the fields of a row, and the lines of a file.
use amd_ibs_toolkit.Base.{
  ℕ, ◌<◌, ◌≡◌, refl, arith, ap, Bool, true, false, ◌&&◌, ◌==◌, ltb, if◌then◌else◌,
}
use amd_ibs_toolkit.Base.{List, [], ◌∷◌, ◌++◌}
use amd_ibs_toolkit.Text.{Bytes}

abbrev push_first : ℕ → List Bytes → List Bytes
push_first c [] = (c ∷ []) ∷ []
push_first c (t ∷ ts) = (c ∷ t) ∷ ts

-- The fields between separators.
abbrev pub split : ℕ → Bytes → List Bytes
split sep [] = [] ∷ []
split sep (c ∷ cs) = let rest = split sep cs in if c == sep then [] ∷ rest else push_first c rest

-- The lines that a line feed ends, and what follows the last, if anything.
abbrev pub lines : Bytes → List Bytes
lines [] = []
lines (c ∷ cs) = let rest = lines cs in if c == 10 then [] ∷ rest else push_first c rest

-- All the characters of a text lie above a bound.
abbrev pub above : ℕ → Bytes → Bool
above bound [] = true
above bound (c ∷ cs) = ltb bound c && above bound cs

pub above-append :
    (bound : ℕ) (xs ys : Bytes)
    → above bound xs ≡ true
    → above bound ys ≡ true
    → above bound (xs ++ ys) ≡ true
above-append bound [] ys hx hy = hy
above-append bound (c ∷ cs) ys hx hy =
    let later = above-append bound cs ys (ground (arith, hx)) hy in ground (arith, later, hx)

-- A lower bound serves as well.
pub above-lower :
    (low bound : ℕ) (xs : Bytes) → low < bound → above bound xs ≡ true → above low xs ≡ true
above-lower low bound [] h hx = refl
above-lower low bound (c ∷ cs) h hx =
    let later = above-lower low bound cs h (ground (arith, hx)) in ground (arith, later, h, hx)

-- A text without the separator is one field.
pub split-last : (sep : ℕ) (xs : Bytes) → above sep xs ≡ true → split sep xs ≡ xs ∷ []
split-last sep [] h = refl
split-last sep (c ∷ cs) h =
    let other : c == sep ≡ false = ground (arith, h) in
    rw other (ap (push_first c) (split-last sep cs (ground (arith, h))))

pub split-field :
    (sep : ℕ) (xs rest : Bytes)
    → above sep xs ≡ true
    → split sep (xs ++ sep ∷ rest) ≡ xs ∷ split sep rest
split-field sep [] rest h = let same : sep == sep ≡ true = ground arith in rw same refl
split-field sep (c ∷ cs) rest h =
    let other : c == sep ≡ false = ground (arith, h) in
    rw other (ap (push_first c) (split-field sep cs rest (ground (arith, h))))

pub lines-line : (xs rest : Bytes) → above 10 xs ≡ true → lines (xs ++ 10 ∷ rest) ≡ xs ∷ lines rest
lines-line [] rest h = refl
lines-line (c ∷ cs) rest h =
    let other : c == 10 ≡ false = ground (arith, h) in
    rw other (ap (push_first c) (lines-line cs rest (ground (arith, h))))
