-- ===== src/Monitor/Header/Table.antt =====
-- From the monitor's op trace to the decoder's table.
use amd_ibs_toolkit.Base.{◌≡◌, refl, ap₂, true, some, List, [], ◌∷◌, map, length}
use amd_ibs_toolkit.Text.{Bytes}
use amd_ibs_toolkit.Driver.Device.{IbsOp}
use amd_ibs_toolkit.Decoder.Header.{Features, output_op_header}
use amd_ibs_toolkit.Decoder.Entry.{output_op_entry}
use amd_ibs_toolkit.Decoder.Aligned.{output_op_entry-aligned}
use amd_ibs_toolkit.Decoder.Parse
use amd_ibs_toolkit.Decoder.Work.{Table, do_op_work}
use amd_ibs_toolkit.Monitor.Cpu.{Cpuid, cpu_family}
use amd_ibs_toolkit.Monitor.Header
use amd_ibs_toolkit.Monitor.Header.Lines.{are_quiet}
use amd_ibs_toolkit.Monitor.Header.RoundTrip.{op_features, parse_op_in_header-output_op_header}

-- The table for the features that a header gives.
op_table : Features → List IbsOp → Table
op_table f ops = record { columns = output_op_header f; rows = map (output_op_entry f) ops }

do_op_work-op_table :
    (lines : List Bytes) (ops : List IbsOp)
    → do_op_work lines ops ≡ op_table (Parse.parse_op_in_header lines Parse.no_features) ops
unfolding do_op_work op_table
do_op_work-op_table lines ops = refl

op_table-lengths :
    (f : Features) (ops : List IbsOp)
    → f.ibs_op_data2_4_5 ≡ true
    → map length (op_table f ops).rows ≡ map (λ (op : IbsOp). length (op_table f ops).columns) ops
unfolding op_table
op_table-lengths f [] has = refl
op_table-lengths f (op ∷ ops) has =
    ap₂ (λ n ns. n ∷ ns) (output_op_entry-aligned f op has) (op_table-lengths f ops has)

-- When the monitor writes an op header on a processor with the two fields of `ibs_op_data2_4_5`,
-- and no line in the rest of the machine's setup starts with a key of the decoder or ends the
-- header, each line of the table that the decoder makes of the trace has one cell per column.
pub do_op_work-aligned :
    (cpuid : Cpuid) (machine lines : List Bytes) (ops : List IbsOp)
    → are_quiet Parse.op_keys machine ≡ true
    → Header.output_op_header cpuid machine ≡ some lines
    → Header.has_data2_4_5 (cpu_family cpuid) ≡ true
    → let table = do_op_work lines ops in
      map length table.rows ≡ map (λ (op : IbsOp). length table.columns) ops
do_op_work-aligned cpuid machine lines ops quiet written has =
    rw
      (
        do_op_work-op_table lines ops,
        parse_op_in_header-output_op_header cpuid machine lines quiet written,
      )
      (op_table-lengths (op_features cpuid) ops has)
