-- ===== src/Decoder/Stream.antt =====
-- The trace file as bytes in tools/ibs_decoder/ibs_decoder.c: the `fgets` of the loops over the
-- header, and the `fread` of `do_op_work`. The fields of `ibs_op_t` stand in the order of their
-- declaration, low bytes first; `fread` and `fgets` are taken to find the file readable.
pub mod Lines
pub mod Words
use amd_ibs_toolkit.Base.{
  ℕ, zero, suc, ◌+◌, ◌*◌, ◌/◌, ◌%◌, ◌^◌, Bool, true, false, ◌==◌, ltb, if◌then◌else◌,
}
use amd_ibs_toolkit.Base.{List, [], ◌∷◌, ◌++◌, take, drop, length}
use amd_ibs_toolkit.Text.{Bytes, starts_with}
use amd_ibs_toolkit.Driver.Device.{IbsOp}
use amd_ibs_toolkit.Decoder.Parse.{end_of_header}
use amd_ibs_toolkit.Decoder.Work.{Table, do_op_work}

abbrev pub push_first : ℕ → Bytes × Bytes → Bytes × Bytes
push_first c (line, rest) = (c ∷ line, rest)

-- Up to so many bytes, with the line feed that ends them, and what follows.
abbrev pub line_of : ℕ → Bytes → Bytes × Bytes
line_of zero text = ([], text)
line_of (suc room) [] = ([], [])
line_of (suc room) (c ∷ cs) =
    let more = line_of room cs in if c == 10 then (c ∷ [], cs) else push_first c more

abbrev pub push_line : Bytes → List Bytes × Bytes → List Bytes × Bytes
push_line line (lines, rest) = (line ∷ lines, rest)

-- The calls `fgets(line, 255, op_in_fp)` of the loop over the header, down to the line that ends
-- it, and what they leave of the file. Each takes at least one byte.
abbrev pub header_from : ℕ → Bytes → List Bytes × Bytes
header_from zero text = ([], text)
header_from (suc fuel) [] = ([], [])
header_from (suc fuel) (c ∷ cs) =
    let (line, rest) = line_of 254 (c ∷ cs) in
    let more = header_from fuel rest in
    if starts_with end_of_header line then (line ∷ [], rest) else push_line line more

unfoldable pub read_header : Bytes → List Bytes × Bytes
read_header text = header_from (length text) text

-- A little-endian number.
abbrev pub word : Bytes → ℕ
word [] = 0
word (b ∷ bs) = b + 256 * word bs

-- The next number of so many bytes.
abbrev pub next : ℕ → Bytes → ℕ × Bytes
next size bytes = (word (take size bytes), drop size bytes)

-- A structure of 104 bytes.
unfoldable pub decode_op : Bytes → IbsOp × Bytes
decode_op b =
    let (op_ctl, b) = next 8 b in
    let (op_rip, b) = next 8 b in
    let (op_data, b) = next 8 b in
    let (op_data2, b) = next 8 b in
    let (op_data3, b) = next 8 b in
    let (op_data4, b) = next 8 b in
    let (dc_lin_ad, b) = next 8 b in
    let (dc_phys_ad, b) = next 8 b in
    let (br_target, b) = next 8 b in
    let (tsc, b) = next 8 b in
    let (cr3, b) = next 8 b in
    let (tid, b) = next 4 b in
    let (pid, b) = next 4 b in
    let (cpu, b) = next 4 b in
    let (kern_mode, b) = next 4 b in
    (
      record {
        op_ctl = op_ctl;
        op_rip = op_rip;
        op_data = op_data;
        op_data2 = op_data2;
        op_data3 = op_data3;
        op_data4 = op_data4;
        dc_lin_ad = dc_lin_ad;
        dc_phys_ad = dc_phys_ad;
        br_target = br_target;
        tsc = tsc;
        cr3 = cr3;
        tid = tid;
        pid = pid;
        cpu = cpu;
        kern_mode = kern_mode;
      },
      b,
    )

-- The loop of `do_op_work` over `fread`, which returns 0 where less than a structure is left.
unfoldable pub ops_from : ℕ → Bytes → List IbsOp
unfolding decode_op
ops_from zero bytes = []
ops_from (suc fuel) bytes =
    let (op, rest) = decode_op bytes in
    let more = ops_from fuel rest in if ltb (length bytes) 104 then [] else op ∷ more

unfoldable pub read_ops : Bytes → List IbsOp
unfolding ops_from
read_ops bytes = ops_from (length bytes) bytes

-- `do_op_work` on the bytes of `op_in_fp`.
unfoldable pub decode_op_file : Bytes → Table
unfolding read_header read_ops do_op_work
decode_op_file bytes = let (lines, rest) = read_header bytes in do_op_work lines (read_ops rest)
