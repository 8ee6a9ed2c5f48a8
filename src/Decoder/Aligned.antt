-- ===== src/Decoder/Aligned.antt =====
-- The lines of the decoder's tables against their headers.
use amd_ibs_toolkit.Base.{ℕ, ◌+◌, List, ◌++◌, true, false}
use amd_ibs_toolkit.Base.{◌≡◌, arith, length, length-append, Bool-cases, inl, inr}
use amd_ibs_toolkit.Driver.Device.{IbsOp, IbsFetch}
use amd_ibs_toolkit.Decoder.Header.{Features, Column, output_common_header}
use amd_ibs_toolkit.Decoder.Header.{
  op_data_header, op_data2_header, op_data3_header, op_tail_header,
}
use amd_ibs_toolkit.Decoder.Header.{output_op_header, output_fetch_header}
use amd_ibs_toolkit.Decoder.Entry.{
  Cell, op_data_cells, op_data2_cells, op_data3_cells, op_tail_cells,
}
use amd_ibs_toolkit.Decoder.Entry.{data2_valid, output_op_entry, output_fetch_entry}

op_data-as_many : (f : Features) (v : ℕ) → length (op_data_cells f v) ≡ length (op_data_header f)
op_data-as_many f v = ground arith

op_data3-as_many : (f : Features) (v : ℕ) → length (op_data3_cells f v) ≡ length (op_data3_header f)
unfolding op_data3_cells
op_data3-as_many f v = ground arith

op_tail-as_many :
    (f : Features) (op : IbsOp) → length (op_tail_cells f op) ≡ length (op_tail_header f)
op_tail-as_many f op = ground arith

-- The cells of `IbsOpData2`, where the header has all three columns.
op_data2-as_many :
    (f : Features) (data2 data3 : ℕ)
    → f.ibs_op_data2_4_5 ≡ true
    → length (op_data2_cells f data2 data3) ≡ length (op_data2_header f)
unfolding op_data2_cells
op_data2-as_many f data2 data3 has = rw has (ground arith)

append_more :
    (a b : List Cell) (a' b' : List Column) (m n : ℕ)
    → length a ≡ length a' + m
    → length b ≡ length b' + n
    → length (a ++ b) ≡ length (a' ++ b') + (m + n)
append_more a b a' b' m n p q = omega (arith, length-append a b, length-append a' b', p, q)

-- The cells from `IbsOpData` on, when those of `IbsOpData2` are `n` more than their columns.
from_op_data :
    (f : Features) (op : IbsOp) (n : ℕ)
    → length (op_data2_cells f op.op_data2 op.op_data3) ≡ length (op_data2_header f) + n
    → length (
        op_data_cells f op.op_data
        ++ op_data2_cells f op.op_data2 op.op_data3
        ++ op_data3_cells f op.op_data3
        ++ op_tail_cells f op)
      ≡ length (op_data_header f ++ op_data2_header f ++ op_data3_header f ++ op_tail_header f) + n
from_op_data f op n p =
    let a = op_data_cells f op.op_data in
    let b = op_data2_cells f op.op_data2 op.op_data3 in
    let c = op_data3_cells f op.op_data3 in
    let a' = op_data_header f in
    let b' = op_data2_header f in
    let c' = op_data3_header f in
    let ab = append_more a b a' b' 0 n (omega (arith, op_data-as_many f op.op_data)) p in
    let abc =
      append_more (a ++ b) c (a' ++ b') c' n 0 (omega (arith, ab))
        (omega (arith, op_data3-as_many f op.op_data3)) in
    omega (
      arith,
      append_more (a ++ b ++ c) (op_tail_cells f op) (a' ++ b' ++ c') (op_tail_header f) n 0
          (omega (arith, abc)) (omega (arith, op_tail-as_many f op)),
    )

output_op_entry-more :
    (f : Features) (op : IbsOp) (n : ℕ)
    → length (op_data2_cells f op.op_data2 op.op_data3) ≡ length (op_data2_header f) + n
    → length (output_op_entry f op) ≡ length (output_op_header f) + n
unfolding output_op_entry output_op_header output_common_header
output_op_entry-more f op n p = elim (Bool-cases f.op_cnt_ext) [
  | inl wide ↦ rw wide (omega (arith, from_op_data f op n p))
  | inr narrow ↦ rw narrow (omega (arith, from_op_data f op n p))
]

-- A line of the op table has as many cells as its header has columns, if the trace has the fields
-- NbIbsReqDstNode and NbIbsReqCacheHitSt.
pub output_op_entry-aligned :
    (f : Features) (op : IbsOp)
    → f.ibs_op_data2_4_5 ≡ true
    → length (output_op_entry f op) ≡ length (output_op_header f)
output_op_entry-aligned f op has = omega (
  arith,
  output_op_entry-more f op 0 (omega (arith, op_data2-as_many f op.op_data2 op.op_data3 has)),
)

op_data2-two_more :
    (f : Features) (data2 data3 : ℕ)
    → f.ibs_op_data2_4_5 ≡ false
    → data2_valid f data3 ≡ false
    → length (op_data2_cells f data2 data3) ≡ length (op_data2_header f) + 2
unfolding op_data2_cells
op_data2-two_more f data2 data3 lacks invalid = rw (lacks, invalid) (ground arith)

-- Where the trace lacks those fields, a line without a valid IbsOpData2 has two cells more than
-- its header has columns.
pub output_op_entry-shifted :
    (f : Features) (op : IbsOp)
    → f.ibs_op_data2_4_5 ≡ false
    → data2_valid f op.op_data3 ≡ false
    → length (output_op_entry f op) ≡ length (output_op_header f) + 2
output_op_entry-shifted f op lacks invalid =
    output_op_entry-more f op 2 (op_data2-two_more f op.op_data2 op.op_data3 lacks invalid)

-- A line of the fetch table has as many cells as its header has columns.
pub output_fetch_entry-aligned :
    (f : Features) (fetch : IbsFetch)
    → length (output_fetch_entry f fetch) ≡ length (output_fetch_header f)
unfolding output_fetch_entry output_fetch_header output_common_header
output_fetch_entry-aligned f fetch = ground arith
