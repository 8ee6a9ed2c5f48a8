-- ===== src/Monitor/Header/Lines.antt =====
-- How the decoder's loop goes over the lines of a header.
use amd_ibs_toolkit.Base.{ℕ, ◌^◌, ◌<◌, ◌≡◌, refl, arith, ap, sym, ◌∙◌, Bool, true, false, not, ◌&&◌}
use amd_ibs_toolkit.Base.{List, [], ◌∷◌, ◌++◌}
use amd_ibs_toolkit.Text.{Bytes, codes, starts_with}
use amd_ibs_toolkit.Text.RoundTrip.{strtoul-print_hex}
use amd_ibs_toolkit.Decoder.Header.{Features}
use amd_ibs_toolkit.Decoder.Parse
use amd_ibs_toolkit.Monitor.Cpu.{Cpuid, cpu_family, cpu_model}
use amd_ibs_toolkit.Monitor.Cpu.Bounds.{cpu_family-lt, cpu_model-lt}
use amd_ibs_toolkit.Monitor.Header

-- A line that starts with no key of a list and does not end the header.
abbrev pub is_quiet : List Parse.Key → Bytes → Bool
is_quiet [] line = not (starts_with Parse.end_of_header line)
is_quiet (k ∷ keys) line = not (starts_with (Parse.key_text k) line) && is_quiet keys line

abbrev pub are_quiet : List Parse.Key → List Bytes → Bool
are_quiet keys [] = true
are_quiet keys (line ∷ lines) = is_quiet keys line && are_quiet keys lines

not-true : (b : Bool) → not b ≡ true → b ≡ false
not-true true q = sym q
not-true false q = refl

pub is_quiet_last :
    (keys : List Parse.Key) (line : Bytes)
    → is_quiet keys line ≡ true
    → starts_with Parse.end_of_header line ≡ false
is_quiet_last [] line q = not-true (starts_with Parse.end_of_header line) q
is_quiet_last (k ∷ keys) line q = is_quiet_last keys line (ground arith)

parse_line_quiet :
    (keys : List Parse.Key) (line : Bytes) (f : Features)
    → is_quiet keys line ≡ true
    → Parse.parse_line keys line f ≡ f
unfolding Parse.parse_line
parse_line_quiet [] line f q = refl
parse_line_quiet (k ∷ keys) line f q =
    let other : starts_with (Parse.key_text k) line ≡ false = ground arith in
    rw other (parse_line_quiet keys line f (ground arith))

-- A round of the loop over the lines.
pub parse_lines_on :
    (keys : List Parse.Key) (line : Bytes) (lines : List Bytes) (f : Features)
    → starts_with Parse.end_of_header line ≡ false
    → Parse.parse_lines keys (line ∷ lines) f
      ≡ Parse.parse_lines keys lines (Parse.parse_line keys line f)
unfolding Parse.parse_lines
parse_lines_on keys line lines f more = rw more refl

pub parse_lines_read :
    (keys : List Parse.Key) (line : Bytes) (lines : List Bytes) (f g : Features)
    → starts_with Parse.end_of_header line ≡ false
    → Parse.parse_line keys line f ≡ g
    → Parse.parse_lines keys (line ∷ lines) f ≡ Parse.parse_lines keys lines g
parse_lines_read keys line lines f g more e =
    parse_lines_on keys line lines f more ∙ ap (λ h. Parse.parse_lines keys lines h) e

pub parse_lines_end :
    (keys : List Parse.Key) (f : Features)
    → Parse.parse_lines keys ((Parse.end_of_header ++ codes "\n") ∷ []) f ≡ f
unfolding Parse.parse_lines
parse_lines_end keys f = refl

pub parse_lines_quiet :
    (keys : List Parse.Key) (quiet lines : List Bytes) (f : Features)
    → are_quiet keys quiet ≡ true
    → Parse.parse_lines keys (quiet ++ lines) f ≡ Parse.parse_lines keys lines f
parse_lines_quiet keys [] lines f q = refl
parse_lines_quiet keys (line ∷ quiet) lines f q =
    let first : is_quiet keys line ≡ true = ground arith in
    parse_lines_read keys line (quiet ++ lines) f f (is_quiet_last keys line first)
      (parse_line_quiet keys line f first)
    ∙ parse_lines_quiet keys quiet lines f (ground arith)

-- The line of the family and the line of the model.
parse_family :
    (n : ℕ) (keys : List Parse.Key) (f : Features)
    → n < 2 ^ 32
    → Parse.parse_line
        (Parse.family_key ∷ keys)
        (Header.hex_line (codes "AMD Processor Family:") n)
        f
      ≡ record f { family = n }
unfolding Parse.parse_line Parse.put
parse_family n keys f h =
    rw (strtoul-print_hex n h) (ap (λ v. record f { family = v }) (omega (arith, h)))

parse_model :
    (n : ℕ) (keys : List Parse.Key) (f : Features)
    → n < 2 ^ 32
    → Parse.parse_line
        (Parse.family_key ∷ Parse.model_key ∷ keys)
        (Header.hex_line (codes "AMD Processor Model:") n)
        f
      ≡ record f { model = n }
unfolding Parse.parse_line Parse.put
parse_model n keys f h =
    rw (strtoul-print_hex n h) (ap (λ v. record f { model = v }) (omega (arith, h)))

-- The lines of the machine's setup.
pub parse_setup :
    (cpuid : Cpuid) (keys : List Parse.Key) (machine lines : List Bytes) (f : Features)
    → is_quiet
        (Parse.family_key ∷ Parse.model_key ∷ keys)
        (Header.hex_line (codes "AMD Processor Stepping:") (Header.cpu_stepping cpuid))
      ≡ true
    → are_quiet (Parse.family_key ∷ Parse.model_key ∷ keys) machine ≡ true
    → Parse.parse_lines
        (Parse.family_key ∷ Parse.model_key ∷ keys)
        (Header.output_machine_setup cpuid machine ++ lines)
        f
      ≡ Parse.parse_lines
          (Parse.family_key ∷ Parse.model_key ∷ keys)
          lines
          (record f { family = cpu_family cpuid; model = cpu_model cpuid })
unfolding Header.output_machine_setup
parse_setup cpuid keys machine lines f stepping quiet =
    let all = Parse.family_key ∷ Parse.model_key ∷ keys in
    let fam = cpu_family cpuid in
    let model = cpu_model cpuid in
    let step = Header.hex_line (codes "AMD Processor Stepping:") (Header.cpu_stepping cpuid) in
    let rest = step ∷ (machine ++ lines) in
    let model_line = Header.hex_line (codes "AMD Processor Model:") model in
    let f1 = record f { family = fam } in
    let f2 = record f1 { model = model } in
    parse_lines_read all (Header.hex_line (codes "AMD Processor Family:") fam) (model_line ∷ rest) f
      f1 refl (parse_family fam (Parse.model_key ∷ keys) f (cpu_family-lt cpuid))
    ∙ parse_lines_read all model_line rest f1 f2 refl
        (parse_model model keys f1 (cpu_model-lt cpuid))
    ∙ parse_lines_quiet all (step ∷ machine) lines f2 (rw (stepping, quiet) refl)
