-- ===== src/Daemon/Rows.antt =====
-- The file that tools/ibs_daemon/ibs_daemon.c writes: `write_header`, `write_op_misc` and
-- `write_op_sample`. The numbers of `%d` are not negative. The answer of `gethostname` is a
-- parameter.
pub mod Read
pub mod File
use amd_ibs_toolkit.Base.{ℕ, Bool, true, false, List, [], ◌∷◌, ◌++◌, if◌then◌else◌}
use amd_ibs_toolkit.Text.{Bytes, codes, print_dec, print_hex64}
use amd_ibs_toolkit.Driver.Device.{IbsOp}

-- The static `header_written`, and what the file holds.
pub record Output : Type 0 where
  pub header_written : Bool
  pub file : Bytes

abbrev pub columns : Bytes
columns = codes "tsc,cpu,pid,tid,kern_mode,data,data2,data3"

-- What `write_header` adds to the file.
unfoldable pub write_header : Bytes → Bytes → Bytes
write_header hostname file = file ++ hostname ++ codes "\n" ++ columns ++ codes "\n"

abbrev pub comma : ℕ
comma = 44

-- The text in `buf` after `write_op_misc`.
unfoldable pub write_op_misc : IbsOp → Bytes
write_op_misc op =
    print_dec op.tsc
    ++ comma ∷ print_dec op.cpu
    ++ comma ∷ print_dec op.pid
    ++ comma ∷ print_dec op.tid
    ++ comma ∷ print_dec op.kern_mode

-- The text in `buf` when `write_op_sample` prints it.
unfoldable pub op_row : IbsOp → Bytes
unfolding write_op_misc
op_row op =
    write_op_misc op
    ++ codes ",0x"
    ++ print_hex64 op.op_data
    ++ codes ",0x"
    ++ print_hex64 op.op_data2
    ++ codes ",0x"
    ++ print_hex64 op.op_data3

unfoldable pub write_op_sample : Bytes → IbsOp → Output → Output
unfolding write_header op_row
write_op_sample hostname op out =
    let file = if out.header_written then out.file else write_header hostname out.file in
    record { header_written = true; file = file ++ op_row op ++ codes "\n" }

-- The calls of the library's daemon, one for each sample.
unfoldable pub write_op_samples : Bytes → List IbsOp → Output → Output
unfolding write_op_sample
write_op_samples hostname [] out = out
write_op_samples hostname (op ∷ ops) out =
    write_op_samples hostname ops (write_op_sample hostname op out)
