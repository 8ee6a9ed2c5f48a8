-- ===== src/Daemon/Rows/File.antt =====
-- The whole file that tools/ibs_daemon/ibs_daemon.c writes, and the length of its rows.
use amd_ibs_toolkit.Base.{
  ℕ, ◌+◌, ◌≤◌, ◌≡◌, refl, arith, ap, ◌∙◌, sym, true, false, length, drop, List, [], ◌∷◌, ◌++◌, map,
}
use amd_ibs_toolkit.Base.{append_assoc, append-nil, length-append}
use amd_ibs_toolkit.Text.{Bytes, print_dec, print_hex64, strtoul}
use amd_ibs_toolkit.Text.Decimal.{length-dec_digits, length-hex_digits}
use amd_ibs_toolkit.Text.Split.{split, lines, lines-line, above, above-lower}
use amd_ibs_toolkit.Driver.Device.{IbsOp}
use amd_ibs_toolkit.Daemon.Rows.{
  comma, columns, write_header, write_op_misc, op_row, write_op_sample, write_op_samples, Output,
}
use amd_ibs_toolkit.Daemon.Rows.Read.{
  fits, all_fit, values, split-op_row, above-op_row, strtoul-texts,
}

-- A reader of the file: the rows below the name of the host and the columns, as numbers.
abbrev pub read_file : Bytes → List (List ℕ)
read_file text = map (λ row. map strtoul (split comma row)) (drop 2 (lines text))

-- What the samples add to a file that has its header.
abbrev rows : List IbsOp → Bytes
rows [] = []
rows (op ∷ ops) = op_row op ++ 10 ∷ rows ops

write_op_samples-rows :
    (hostname : Bytes) (ops : List IbsOp) (out : Output)
    → out.header_written ≡ true
    → (write_op_samples hostname ops out).file ≡ out.file ++ rows ops
unfolding write_op_samples write_op_sample
write_op_samples-rows hostname [] out h = sym (append-nil out.file)
write_op_samples-rows hostname (op ∷ ops) out h =
    write_op_samples-rows hostname ops (write_op_sample hostname op out) refl
    ∙ rw h (simp append_assoc refl)

lines-rows : (ops : List IbsOp) → lines (rows ops) ≡ map op_row ops
lines-rows [] = refl
lines-rows (op ∷ ops) =
    lines-line (op_row op) (rows ops) (above-op_row op) ∙ ap (◌∷◌ (op_row op)) (lines-rows ops)

read_row : (op : IbsOp) → fits op ≡ true → map strtoul (split comma (op_row op)) ≡ values op
read_row op h = ap (map strtoul) (split-op_row op) ∙ strtoul-texts op h

read_rows :
    (ops : List IbsOp)
    → all_fit ops ≡ true
    → map (λ row. map strtoul (split comma row)) (map op_row ops) ≡ map values ops
read_rows [] h = refl
read_rows (op ∷ ops) h =
    ap (λ v. v ∷ map (λ row. map strtoul (split comma row)) (map op_row ops))
      (read_row op (ground (arith, h)))
    ∙ ap (◌∷◌ (values op)) (read_rows ops (ground (arith, h)))

-- The file that `write_op_sample` makes of some samples, from the first on, which also writes the
-- header, is read back as the values of the samples in their order, if their numbers are as
-- wide as their fields and the name of the host has no control characters.
pub read_file-write_op_samples :
    (hostname : Bytes) (op : IbsOp) (ops : List IbsOp)
    → above 31 hostname ≡ true
    → all_fit (op ∷ ops) ≡ true
    → read_file
        (write_op_samples hostname (op ∷ ops) (record { header_written = false; file = [] })).file
      ≡ map values (op ∷ ops)
unfolding write_op_samples write_op_sample write_header
read_file-write_op_samples hostname op ops named h =
    let start : Output = record { header_written = false; file = [] } in
    let text = rows (op ∷ ops) in
    let written : (write_op_samples hostname (op ∷ ops) start).file
        ≡ hostname ++ 10 ∷ (columns ++ 10 ∷ text) =
      write_op_samples-rows hostname ops (write_op_sample hostname op start) refl
      ∙ simp append_assoc refl in
    ap read_file written
    ∙ ap (λ ls. map (λ row. map strtoul (split comma row)) (drop 2 ls))
        (lines-line hostname (columns ++ 10 ∷ text) (above-lower 10 31 hostname (omega arith) named)
          ∙ ap (λ ls. hostname ∷ ls)
              (lines-line columns text refl ∙ ap (λ ls. columns ∷ ls) (lines-rows (op ∷ ops))))
    ∙ read_rows (op ∷ ops) h

length-print_dec : (n : ℕ) → length (print_dec n) ≤ 20
unfolding print_dec
length-print_dec n = length-dec_digits 20 n

length-print_hex64 : (n : ℕ) → length (print_hex64 n) ≤ 16
unfolding print_hex64
length-print_hex64 n = length-hex_digits 16 n

-- A row, with the byte 0 behind it, fits into the 1000 bytes of `buf`.
length-op_row : (op : IbsOp) → length (op_row op) + 1 ≤ 1000
unfolding op_row write_op_misc
length-op_row op = simp length-append (
    omega (
      arith,
      length-print_dec op.tsc,
      length-print_dec op.cpu,
      length-print_dec op.pid,
      length-print_dec op.tid,
      length-print_dec op.kern_mode,
      length-print_hex64 op.op_data,
      length-print_hex64 op.op_data2,
      length-print_hex64 op.op_data3,
    ))
