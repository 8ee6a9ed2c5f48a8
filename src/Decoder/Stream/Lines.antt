-- ===== src/Decoder/Stream/Lines.antt =====
-- The header of a trace file as `fgets` of tools/ibs_decoder/ibs_decoder.c reads it.
use amd_ibs_toolkit.Base.{
  ℕ, zero, suc, ◌<◌, ◌≤◌, ◌≡◌, refl, arith, ap, ◌∙◌, sym, Bool, true, false, not, ◌&&◌, ◌==◌,
  if◌then◌else◌, Bool-cases, inl, inr, and_left, and_right, not-true,
}
use amd_ibs_toolkit.Base.{List, [], ◌∷◌, ◌++◌, length, length-append, append_assoc}
use amd_ibs_toolkit.Text.{Bytes, starts_with}
use amd_ibs_toolkit.Decoder.Parse.{end_of_header}
use amd_ibs_toolkit.Decoder.Stream.{line_of, header_from, read_header, push_first, push_line}

abbrev is_nil : Bytes → Bool
is_nil [] = true
is_nil (c ∷ cs) = false

-- What one call of `fgets` returns: a line with its line feed, or as many bytes as there is room
-- for, with no line feed in them.
abbrev pub is_piece : ℕ → Bytes → Bool
is_piece zero line = is_nil line
is_piece (suc room) [] = false
is_piece (suc room) (c ∷ cs) = if c == 10 then is_nil cs else is_piece room cs

abbrev pub are_pieces : List Bytes → Bool
are_pieces [] = true
are_pieces (line ∷ lines) = is_piece 254 line && are_pieces lines

-- No line ends the header.
abbrev pub none_ends : List Bytes → Bool
none_ends [] = true
none_ends (line ∷ lines) = not (starts_with end_of_header line) && none_ends lines

abbrev pub concat : List Bytes → Bytes
concat [] = []
concat (line ∷ lines) = line ++ concat lines

nil : (cs : Bytes) → is_nil cs ≡ true → cs ≡ []
nil [] h = refl
nil (c ∷ cs) h = cc h

line_of-piece :
    (room : ℕ) (line rest : Bytes)
    → is_piece room line ≡ true
    → line_of room (line ++ rest) ≡ (line, rest)
line_of-piece zero [] rest h = refl
line_of-piece zero (c ∷ cs) rest h = cc h
line_of-piece (suc room) [] rest h = cc h
line_of-piece (suc room) (c ∷ cs) rest h = elim (Bool-cases (c == 10)) [
  | inl ends ↦ rw ends (
      ap (λ t. (c ∷ [], t ++ rest)) (nil cs (simp ends at h))
      ∙ ap (λ t. (c ∷ t, rest)) (sym (nil cs (simp ends at h))))
  | inr goes ↦ rw goes (ap (push_first c) (line_of-piece room cs rest (simp goes at h)))
]

-- One round of the loop.
header_from-line :
    (fuel : ℕ) (line rest : Bytes)
    → is_piece 254 line ≡ true
    → header_from (suc fuel) (line ++ rest) ≡ (
        if starts_with end_of_header line
        then (line ∷ [], rest)
        else push_line line (header_from fuel rest))
header_from-line fuel [] rest h = cc h
header_from-line fuel (c ∷ cs) rest h =
    ap
      (λ (p : Bytes × Bytes).
        if starts_with end_of_header p.0
        then (p.0 ∷ [], p.1)
        else push_line p.0 (header_from fuel p.1))
      (line_of-piece 254 (c ∷ cs) rest h)

header_from-lines :
    (fuel : ℕ) (lines : List Bytes) (last rest : Bytes)
    → are_pieces lines ≡ true
    → none_ends lines ≡ true
    → is_piece 254 last ≡ true
    → starts_with end_of_header last ≡ true
    → length lines < fuel
    → header_from fuel (concat lines ++ (last ++ rest)) ≡ (lines ++ (last ∷ []), rest)
header_from-lines zero lines last rest pieces going piece ends enough =
    absurd (omega (arith, enough))
header_from-lines (suc fuel) [] last rest pieces going piece ends enough =
    header_from-line fuel last rest piece ∙ rw ends refl
header_from-lines (suc fuel) (line ∷ lines) last rest pieces going piece ends enough =
    let first : is_piece 254 line ≡ true = and_left (is_piece 254 line) (are_pieces lines) pieces in
    let others = and_right (is_piece 254 line) (are_pieces lines) pieces in
    let goes : starts_with end_of_header line ≡ false =
      not-true (starts_with end_of_header line)
        (and_left (not (starts_with end_of_header line)) (none_ends lines) going) in
    let go_on = and_right (not (starts_with end_of_header line)) (none_ends lines) going in
    let later = concat lines ++ (last ++ rest) in
    ap (header_from (suc fuel)) (append_assoc line (concat lines) (last ++ rest))
    ∙ header_from-line fuel line later first
    ∙ rw goes (
        ap (push_line line)
          (header_from-lines fuel lines last rest others go_on piece ends (omega (arith, enough))))

length-piece : (line : Bytes) → is_piece 254 line ≡ true → 1 ≤ length line
length-piece [] h = cc h
length-piece (c ∷ cs) h = omega arith

length-concat :
    (lines : List Bytes) → are_pieces lines ≡ true → length lines ≤ length (concat lines)
length-concat [] h = omega arith
length-concat (line ∷ lines) h = omega (
  arith,
  length-append line (concat lines),
  length-piece line (and_left (is_piece 254 line) (are_pieces lines) h),
  length-concat lines (and_right (is_piece 254 line) (are_pieces lines) h),
)

-- The loop over the header takes just the lines of the header, down to the one that ends it.
pub read_header-lines :
    (lines : List Bytes) (last rest : Bytes)
    → are_pieces lines ≡ true
    → none_ends lines ≡ true
    → is_piece 254 last ≡ true
    → starts_with end_of_header last ≡ true
    → read_header (concat lines ++ (last ++ rest)) ≡ (lines ++ (last ∷ []), rest)
unfolding read_header
read_header-lines lines last rest pieces going piece ends =
    let text = concat lines ++ (last ++ rest) in
    header_from-lines (length text) lines last rest pieces going piece ends (
      omega (
        arith,
        length-append (concat lines) (last ++ rest),
        length-append last rest,
        length-piece last piece,
        length-concat lines pieces,
      ))
