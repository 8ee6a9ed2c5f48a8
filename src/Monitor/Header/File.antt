-- ===== src/Monitor/Header/File.antt =====
-- From the bytes of the monitor's op trace to the decoder's table.
use amd_ibs_toolkit.Base.{
  ℕ, zero, suc, ◌<◌, ◌≡◌, refl, arith, ap, ap₂, ◌∙◌, sym, Bool, true, false, not, some, and_left,
  and_right, ◌==◌, ltb, length, List, [], ◌∷◌, ◌++◌, map, append_assoc,
}
use amd_ibs_toolkit.Text.{Bytes, codes, print_hex, hex_digits, starts_with}
use amd_ibs_toolkit.Text.Decimal.{above-hex_digits, length-hex_digits}
use amd_ibs_toolkit.Text.Split.{above, above-lower}
use amd_ibs_toolkit.Driver.Device.{IbsOp}
use amd_ibs_toolkit.Decoder.Header.{Features, output_op_header}
use amd_ibs_toolkit.Decoder.Entry.{output_op_entry}
use amd_ibs_toolkit.Decoder.Parse
use amd_ibs_toolkit.Decoder.Work.{Table, do_op_work}
use amd_ibs_toolkit.Decoder.Stream.{decode_op_file, read_ops, read_header}
use amd_ibs_toolkit.Decoder.Stream.Words.{encode_ops, all_fit, read_ops-encode_ops}
use amd_ibs_toolkit.Decoder.Stream.Lines.{
  is_piece, are_pieces, none_ends, concat, read_header-lines,
}
use amd_ibs_toolkit.Monitor.Cpu.{Cpuid, cpu_family, cpu_model, cpu_stepping}
use amd_ibs_toolkit.Monitor.Header
use amd_ibs_toolkit.Monitor.Header.Lines.{is_quiet, are_quiet, is_quiet_last}
use amd_ibs_toolkit.Monitor.Header.RoundTrip.{
  op_features, parse_op_in_header-output_op_header, output_op_header_lines,
}

above-first : (c : ℕ) (cs : Bytes) → above 10 (c ∷ cs) ≡ true → (c == 10) ≡ false
above-first c cs h =
    let high : ltb 10 c ≡ true = and_left (ltb 10 c) (above 10 cs) h in ground (arith, high)

is_piece-line :
    (room : ℕ) (text : Bytes)
    → above 10 text ≡ true
    → length text < room
    → is_piece room (text ++ 10 ∷ []) ≡ true
is_piece-line zero text h short = absurd (omega (arith, short))
is_piece-line (suc room) [] h short = refl
is_piece-line (suc room) (c ∷ cs) h short =
    let other : c == 10 ≡ false = above-first c cs h in
    rw other (is_piece-line room cs (and_right (ltb 10 c) (above 10 cs) h) (omega (arith, short)))

is_piece-print_hex : (room n : ℕ) → 8 < room → is_piece room (print_hex n ++ 10 ∷ []) ≡ true
unfolding print_hex
is_piece-print_hex room n h =
    is_piece-line room (hex_digits 8 n)
      (above-lower 10 47 (hex_digits 8 n) (omega arith) (above-hex_digits 8 n))
      (omega (arith, h, length-hex_digits 8 n))

is_piece-flag_line :
    (text : Bytes)
    → is_piece 254 (text ++ codes " 1\n") ≡ true
    → is_piece 254 (text ++ codes " 0\n") ≡ true
    → (b : Bool) → is_piece 254 (Header.flag_line text b) ≡ true
is_piece-flag_line text h1 h0 true = h1
is_piece-flag_line text h1 h0 false = h0

-- Each line is a piece.
abbrev Pieces : List Bytes → Type 0
Pieces [] = Unit
Pieces (line ∷ lines) = (is_piece 254 line ≡ true) × Pieces lines

Pieces-all : (lines : List Bytes) → Pieces lines → are_pieces lines ≡ true
Pieces-all [] h = refl
Pieces-all (line ∷ lines) (first, others) = rw (first, Pieces-all lines others) refl

are_pieces-append :
    (xs ys : List Bytes)
    → are_pieces xs ≡ true
    → are_pieces ys ≡ true
    → are_pieces (xs ++ ys) ≡ true
are_pieces-append [] ys hx hy = hy
are_pieces-append (x ∷ xs) ys hx hy =
    rw
      (
        and_left (is_piece 254 x) (are_pieces xs) hx,
        are_pieces-append xs ys (and_right (is_piece 254 x) (are_pieces xs) hx) hy,
      )
      refl

none_ends-append :
    (xs ys : List Bytes) → none_ends xs ≡ true → none_ends ys ≡ true → none_ends (xs ++ ys) ≡ true
none_ends-append [] ys hx hy = hy
none_ends-append (x ∷ xs) ys hx hy =
    let first = not (starts_with Parse.end_of_header x) in
    rw
      (
        and_left first (none_ends xs) hx,
        none_ends-append xs ys (and_right first (none_ends xs) hx) hy,
      )
      refl

-- No quiet line ends the header.
quiet-none_ends :
    (machine : List Bytes) → are_quiet Parse.op_keys machine ≡ true → none_ends machine ≡ true
quiet-none_ends [] h = refl
quiet-none_ends (line ∷ lines) h =
    let quiet = is_quiet Parse.op_keys line in
    let others = are_quiet Parse.op_keys lines in
    rw
      (
        is_quiet_last Parse.op_keys line (and_left quiet others h),
        quiet-none_ends lines (and_right quiet others h),
      )
      refl

-- The header but for its last line.
abbrev front : Cpuid → List Bytes → List Bytes
front cpuid machine =
    codes "IBS Op Sample File\n"
    ∷ (Header.output_machine_setup cpuid machine
        ++ (codes "IBS Op Structure Version: 1\n"
            ∷ (Header.op_flag_lines cpuid ++ (codes "\n" ∷ []))))

abbrev last_line : Bytes
last_line = Parse.end_of_header ++ codes "\n"

concat-front :
    (cpuid : Cpuid) (machine : List Bytes)
    → Header.op_header_lines cpuid machine ≡ front cpuid machine ++ (last_line ∷ [])
unfolding Header.op_header_lines
concat-front cpuid machine = simp append_assoc refl

concat-append : (xs ys : List Bytes) → concat (xs ++ ys) ≡ concat xs ++ concat ys
concat-append [] ys = refl
concat-append (x ∷ xs) ys =
    ap (◌++◌ x) (concat-append xs ys) ∙ sym (append_assoc x (concat xs) (concat ys))

op_flag_lines-Pieces : (cpuid : Cpuid) → Pieces (Header.op_flag_lines cpuid)
unfolding Header.op_flag_lines
op_flag_lines-Pieces cpuid =
    let fam = cpu_family cpuid in
    let model = cpu_model cpuid in
    (
      is_piece-flag_line (codes "IbsOpBrnResync:") refl refl (Header.has_brn_resync fam model),
      (
        is_piece-flag_line (codes "IbsOpMispReturn:") refl refl (Header.has_brn_resync fam model),
        (
          is_piece-flag_line (codes "BrnTrgt:") refl refl (Header.deep_bit cpuid 5),
          (
            is_piece-flag_line (codes "OpCntExt:") refl refl (Header.deep_bit cpuid 6),
            (
              is_piece-flag_line (codes "RipInvalidChk:") refl refl (Header.deep_bit cpuid 7),
              (
                is_piece-flag_line (codes "OpBrnFuse:") refl refl (Header.deep_bit cpuid 8),
                (
                  is_piece-flag_line (codes "IbsOpData4:") refl refl (Header.deep_bit cpuid 10),
                  (
                    is_piece-flag_line (codes "Microcode:") refl refl
                        (Header.has_microcode fam model),
                    (
                      is_piece-flag_line (codes "IBSOpData2_4_5:") refl refl
                          (Header.has_data2_4_5 fam),
                      (
                        is_piece-flag_line (codes "IbsDcLdBnkCon:") refl refl
                            (Header.has_ld_bnk_con fam model),
                        (
                          is_piece-flag_line (codes "IbsDcStBnkCon:") refl refl
                              (Header.has_st_bnk_con fam),
                          (
                            is_piece-flag_line (codes "IbsDcStToLdFwd:") refl refl
                                (Header.has_st_to_ld_fw fam model),
                            (
                              is_piece-flag_line (codes "IbsDcStToLdCan:") refl refl
                                  (Header.has_ld_bnk_con fam model),
                              (
                                is_piece-flag_line (codes "IbsData3_20_31_48_63:") refl refl
                                    (Header.has_data3_extra fam model),
                                tt,
                              ),
                            ),
                          ),
                        ),
                      ),
                    ),
                  ),
                ),
              ),
            ),
          ),
        ),
      ),
    )

front-pieces :
    (cpuid : Cpuid) (machine : List Bytes)
    → are_pieces machine ≡ true
    → are_pieces (front cpuid machine) ≡ true
unfolding Header.output_machine_setup
front-pieces cpuid machine h =
    let flags = Pieces-all (Header.op_flag_lines cpuid) (op_flag_lines-Pieces cpuid) in
    let ends = are_pieces-append (Header.op_flag_lines cpuid) (codes "\n" ∷ []) flags refl in
    let rest = Header.op_flag_lines cpuid ++ (codes "\n" ∷ []) in
    let setup : List Bytes =
      codes "IBS Op Sample File\n"
      ∷ Header.hex_line (codes "AMD Processor Family:") (cpu_family cpuid)
      ∷ Header.hex_line (codes "AMD Processor Model:") (cpu_model cpuid)
      ∷ Header.hex_line (codes "AMD Processor Stepping:") (cpu_stepping cpuid)
      ∷ [] in
    are_pieces-append setup (machine ++ (codes "IBS Op Structure Version: 1\n" ∷ rest))
      (Pieces-all setup (
        refl,
        (
          is_piece-print_hex 230 (cpu_family cpuid) (omega arith),
          (
            is_piece-print_hex 231 (cpu_model cpuid) (omega arith),
            (is_piece-print_hex 228 (cpu_stepping cpuid) (omega arith), tt),
          ),
        ),
      ))
      (are_pieces-append machine (codes "IBS Op Structure Version: 1\n" ∷ rest) h ends)

front-none_ends :
    (cpuid : Cpuid) (machine : List Bytes)
    → are_quiet Parse.op_keys machine ≡ true
    → none_ends (front cpuid machine) ≡ true
unfolding Header.output_machine_setup Header.op_flag_lines
front-none_ends cpuid machine h =
    none_ends-append machine
      (codes "IBS Op Structure Version: 1\n" ∷ (Header.op_flag_lines cpuid ++ (codes "\n" ∷ [])))
      (quiet-none_ends machine h) refl

-- The decoder on the bytes finds the lines and the samples.
decode_op_file-do_op_work :
    (cpuid : Cpuid) (machine : List Bytes) (ops : List IbsOp) (tail : Bytes)
    → are_quiet Parse.op_keys machine ≡ true
    → are_pieces machine ≡ true
    → all_fit ops ≡ true
    → length tail < 104
    → decode_op_file (concat (Header.op_header_lines cpuid machine) ++ (encode_ops ops ++ tail))
      ≡ do_op_work (Header.op_header_lines cpuid machine) ops
unfolding decode_op_file
decode_op_file-do_op_work cpuid machine ops tail quiet pieces fit short =
    let head = front cpuid machine in
    let samples = encode_ops ops ++ tail in
    let bytes : concat (Header.op_header_lines cpuid machine) ++ samples
        ≡ concat head ++ (last_line ++ samples) =
      ap (λ ls. concat ls ++ samples) (concat-front cpuid machine)
      ∙ ap (λ t. t ++ samples) (concat-append head (last_line ∷ []))
      ∙ append_assoc (concat head) last_line samples in
    let found =
      ap read_header bytes
      ∙ read_header-lines head last_line samples (front-pieces cpuid machine pieces)
          (front-none_ends cpuid machine quiet) refl refl in
    ap (λ (p : List Bytes × Bytes). do_op_work p.0 (read_ops p.1)) found
    ∙ ap₂ do_op_work (sym (concat-front cpuid machine)) (read_ops-encode_ops ops tail fit short)

do_op_work-features :
    (lines : List Bytes) (ops : List IbsOp) (f : Features)
    → Parse.parse_op_in_header lines Parse.no_features ≡ f
    → do_op_work lines ops
      ≡ record { columns = output_op_header f; rows = map (output_op_entry f) ops }
unfolding do_op_work
do_op_work-features lines ops f parsed =
    let table : Features → Table =
      λ g. record { columns = output_op_header g; rows = map (output_op_entry g) ops } in
    ap table parsed

-- The bytes of an op trace, as the monitor writes them on a processor where its checks pass: the
-- lines of the header, and structures. If the rest of the machine's setup is in the pieces that
-- `fgets` makes of it, none of which starts with a key of the decoder or ends the header, and
-- the numbers of the samples fit their fields, the decoder makes of these bytes, with less than
-- a structure behind them, the table with the columns for the features of that processor and one
-- line for each sample.
pub decode_op_file-output_op_header :
    (cpuid : Cpuid) (machine lines : List Bytes) (ops : List IbsOp) (tail : Bytes)
    → are_quiet Parse.op_keys machine ≡ true
    → are_pieces machine ≡ true
    → Header.output_op_header cpuid machine ≡ some lines
    → all_fit ops ≡ true
    → length tail < 104
    → decode_op_file (concat lines ++ (encode_ops ops ++ tail)) ≡ record {
      columns = output_op_header (op_features cpuid);
      rows = map (output_op_entry (op_features cpuid)) ops;
    }
decode_op_file-output_op_header cpuid machine lines ops tail quiet pieces written fit short =
    let same = output_op_header_lines cpuid machine lines written in
    let parsed = parse_op_in_header-output_op_header cpuid machine lines quiet written in
    rw (← same) (decode_op_file-do_op_work cpuid machine ops tail quiet pieces fit short)
    ∙ ap (λ ls. do_op_work ls ops) same
    ∙ do_op_work-features lines ops (op_features cpuid) parsed
