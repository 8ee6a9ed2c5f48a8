-- ===== src/Decoder/Work.antt =====
-- `do_op_work` and `do_fetch_work` of tools/ibs_decoder/ibs_decoder.c: from a trace to a table.
use amd_ibs_toolkit.Base.{List, map}
use amd_ibs_toolkit.Text.{Bytes}
use amd_ibs_toolkit.Driver.Device.{IbsOp, IbsFetch}
use amd_ibs_toolkit.Decoder.Header.{Column, output_op_header, output_fetch_header}
use amd_ibs_toolkit.Decoder.Entry.{Cell, output_op_entry, output_fetch_entry}
use amd_ibs_toolkit.Decoder.Parse.{parse_op_in_header, parse_fetch_in_header, no_features}

-- A file that is written: the line with the columns, and a line for each sample.
pub record Table : Type 0 where
  pub columns : List Column
  pub rows : List (List Cell)

-- A trace is the lines of its header, and the samples that `fread` returns whole.
unfoldable pub do_op_work : List Bytes → List IbsOp → Table
unfolding parse_op_in_header output_op_header output_op_entry
do_op_work lines ops =
    let f = parse_op_in_header lines no_features in
    record { columns = output_op_header f; rows = map (output_op_entry f) ops }

unfoldable pub do_fetch_work : List Bytes → List IbsFetch → Table
unfolding parse_fetch_in_header output_fetch_header output_fetch_entry
do_fetch_work lines fetches =
    let f = parse_fetch_in_header lines no_features in
    record { columns = output_fetch_header f; rows = map (output_fetch_entry f) fetches }
