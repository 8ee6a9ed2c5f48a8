-- ===== src/Text.antt =====
-- What the source uses of the C library on lines of text: `strncmp` with a literal, `strtok` with
-- ":", `strtoul` with base 0, and the conversion `%x`. Lines hold no byte 0.
pub mod RoundTrip
pub mod Decimal
pub mod Split
use Prim.Native.Char.{code}
use Prim.Native.String.{String}
use amd_ibs_toolkit.Base.{
  ℕ, zero, suc, ◌+◌, ◌-◌, ◌*◌, ◌/◌, ◌%◌, ◌^◌, min, Bool, true, false, not, ◌&&◌, ◌||◌, ◌==◌, ltb,
  leb,
}
use amd_ibs_toolkit.Base.{if◌then◌else◌, Option, none, some, List, [], ◌∷◌, ◌++◌}

abbrev pub Bytes : Type 0
Bytes = List ℕ

abbrev pub codes : String → Bytes
codes String.[] = []
codes (String.◌∷◌ c s) = code c ∷ codes s

-- `!strncmp(line, prefix, sizeof(prefix) - 1)`
abbrev pub starts_with : Bytes → Bytes → Bool
starts_with [] line = true
starts_with (c ∷ cs) [] = false
starts_with (c ∷ cs) (d ∷ ds) = c == d && starts_with cs ds

abbrev pub colon : ℕ
colon = 58

abbrev skip_colons : Bytes → Bytes
skip_colons [] = []
skip_colons (c ∷ cs) = let rest = skip_colons cs in if c == colon then rest else c ∷ cs

abbrev pub to_colon : Bytes → Bytes
to_colon [] = []
to_colon (c ∷ cs) = let rest = to_colon cs in if c == colon then [] else c ∷ rest

abbrev past_colon : Bytes → Bytes
past_colon [] = []
past_colon (c ∷ cs) = let rest = past_colon cs in if c == colon then cs else rest

abbrev token_of : Bytes → Option (Bytes × Bytes)
token_of [] = none
token_of (c ∷ cs) = some (to_colon (c ∷ cs), past_colon (c ∷ cs))

-- `strtok(text, ":")`: the token, and the text for the next call; `none` stands for `NULL`.
abbrev pub strtok : Bytes → Option (Bytes × Bytes)
strtok text = token_of (skip_colons text)

abbrev is_space : ℕ → Bool
is_space c = c == 32 || (leb 9 c && leb c 13)

abbrev pub skip_spaces : Bytes → Bytes
skip_spaces [] = []
skip_spaces (c ∷ cs) = let rest = skip_spaces cs in if is_space c then rest else c ∷ cs

-- What a character counts as a digit; 99 where it is none in any base.
abbrev pub digit_value : ℕ → ℕ
digit_value c =
    if leb 48 c && leb c 57
    then c - 48
    else if leb 97 c && leb c 122
    then c - 87
    else if leb 65 c && leb c 90
    then c - 55
    else 99

-- The digits of a number in a base, up to the first character that is none.
abbrev pub number : ℕ → ℕ → Bytes → ℕ
number base v [] = v
number base v (c ∷ cs) =
    let d = digit_value c in
    let rest = number base (v * base + d) cs in if ltb d base then rest else v

abbrev pub is_hex : Bytes → Bool
is_hex [] = false
is_hex (c ∷ cs) = ltb (digit_value c) 16

abbrev after_zero : Bytes → ℕ
after_zero [] = 0
after_zero (c ∷ cs) =
    if (c == 120 || c == 88) && is_hex cs then number 16 0 cs else number 8 0 (c ∷ cs)

-- The base of what follows the sign, and its value.
abbrev unsigned : Bytes → ℕ
unsigned [] = 0
unsigned (c ∷ cs) = if c == 48 then after_zero cs else number 10 0 (c ∷ cs)

abbrev most : ℕ
most = 2 ^ 64 - 1

abbrev signed : Bytes → ℕ
signed [] = 0
signed (c ∷ cs) =
    let v = unsigned cs in
    if c == 45
    then (if ltb most v then most else (2 ^ 64 - v) % 2 ^ 64)
    else if c == 43
    then min v most
    else min (unsigned (c ∷ cs)) most

-- `strtoul(text, NULL, 0)`
abbrev pub strtoul : Bytes → ℕ
strtoul text = signed (skip_spaces text)

abbrev pub hex_digit : ℕ → ℕ
hex_digit d = if ltb d 10 then 48 + d else 87 + d

-- The last `count` digits at most, from the first that is not 0 on.
unfoldable pub hex_digits : ℕ → ℕ → Bytes
hex_digits zero n = []
hex_digits (suc count) n =
    let front = hex_digits count (n / 16) in
    if n / 16 == 0 then hex_digit n ∷ [] else front ++ (hex_digit (n % 16) ∷ [])

-- `%x` of a 32-bit number.
unfoldable pub print_hex : ℕ → Bytes
unfolding hex_digits
print_hex n = hex_digits 8 n

-- The same in base 10, for `%d`, `%u` and `%lu`.
unfoldable pub dec_digits : ℕ → ℕ → Bytes
dec_digits zero n = []
dec_digits (suc count) n =
    let front = dec_digits count (n / 10) in
    if n / 10 == 0 then (48 + n) ∷ [] else front ++ ((48 + n % 10) ∷ [])

-- A number of up to 64 bits that is not negative.
unfoldable pub print_dec : ℕ → Bytes
unfolding dec_digits
print_dec n = dec_digits 20 n

-- `%lx`, of a 64-bit number.
unfoldable pub print_hex64 : ℕ → Bytes
unfolding hex_digits
print_hex64 n = hex_digits 16 n
