-- ===== src/Decoder/Program.antt =====
-- The arguments and `main` of tools/ibs_decoder/ibs_decoder.c, with `set_op_in_file`,
-- `set_op_out_file`, `set_fetch_in_file` and `set_fetch_out_file`, and the `fread` of
-- `do_fetch_work`.
pub mod Paired
use amd_ibs_toolkit.Base.{ℕ, zero, suc, Bool, true, false, ltb, if◌then◌else◌}
use amd_ibs_toolkit.Base.{Option, none, some, List, [], ◌∷◌, length, ◌>>=◌}
use amd_ibs_toolkit.Text.{Bytes}
use amd_ibs_toolkit.Driver.Device.{IbsFetch}
use amd_ibs_toolkit.Decoder.Work.{Table, do_fetch_work}
use amd_ibs_toolkit.Decoder.Stream.{next, read_header, decode_op_file}

-- A structure of 64 bytes.
unfoldable pub decode_fetch : Bytes → IbsFetch × Bytes
decode_fetch b =
    let (fetch_ctl, b) = next 8 b in
    let (fetch_ctl_extd, b) = next 8 b in
    let (fetch_lin_ad, b) = next 8 b in
    let (fetch_phys_ad, b) = next 8 b in
    let (tsc, b) = next 8 b in
    let (cr3, b) = next 8 b in
    let (tid, b) = next 4 b in
    let (pid, b) = next 4 b in
    let (cpu, b) = next 4 b in
    let (kern_mode, b) = next 4 b in
    (
      record {
        fetch_ctl = fetch_ctl;
        fetch_ctl_extd = fetch_ctl_extd;
        fetch_lin_ad = fetch_lin_ad;
        fetch_phys_ad = fetch_phys_ad;
        tsc = tsc;
        cr3 = cr3;
        tid = tid;
        pid = pid;
        cpu = cpu;
        kern_mode = kern_mode;
      },
      b,
    )

unfoldable pub fetches_from : ℕ → Bytes → List IbsFetch
unfolding decode_fetch
fetches_from zero bytes = []
fetches_from (suc fuel) bytes =
    let (fetch, rest) = decode_fetch bytes in
    let more = fetches_from fuel rest in if ltb (length bytes) 64 then [] else fetch ∷ more

unfoldable pub decode_fetch_file : Bytes → Table
unfolding read_header fetches_from do_fetch_work
decode_fetch_file bytes =
    let (lines, rest) = read_header bytes in do_fetch_work lines (fetches_from (length rest) rest)

pub data Argument : Type 0 where
  op_in_file op_out_file fetch_in_file fetch_out_file : Bytes → Argument
  help bad_argument : Argument

-- The files for reading by what they hold, those for writing by their names.
pub record Files : Type 0 where
  pub op_in_fp : Option Bytes
  pub op_out_fp : Option Bytes
  pub fetch_in_fp : Option Bytes
  pub fetch_out_fp : Option Bytes

-- The answers of `fopen` for reading and for writing.
pub record Disk : Type 0 where
  pub reads : Bytes → Option Bytes
  pub creates : Bytes → Bool

-- `none` stands for `exit`.
module _ (disk : Disk) where
  unfoldable pub set_op_in_file : Bytes → Files → Option Files
  set_op_in_file name f = disk.reads name >>= (λ bytes. some (record f { op_in_fp = some bytes }))

  unfoldable pub set_op_out_file : Bytes → Files → Option Files
  set_op_out_file name f =
      if disk.creates name then some (record f { op_out_fp = some name }) else none

  unfoldable pub set_fetch_in_file : Bytes → Files → Option Files
  set_fetch_in_file name f =
      disk.reads name >>= (λ bytes. some (record f { fetch_in_fp = some bytes }))

  unfoldable pub set_fetch_out_file : Bytes → Files → Option Files
  set_fetch_out_file name f =
      if disk.creates name then some (record f { fetch_out_fp = some name }) else none

  unfoldable pub set_argument : Argument → Files → Option Files
  unfolding set_op_in_file set_op_out_file set_fetch_in_file set_fetch_out_file
  set_argument (op_in_file name) f = set_op_in_file name f
  set_argument (op_out_file name) f = set_op_out_file name f
  set_argument (fetch_in_file name) f = set_fetch_in_file name f
  set_argument (fetch_out_file name) f = set_fetch_out_file name f
  set_argument help f = none
  set_argument bad_argument f = some f

  -- The loop over the options.
  unfoldable pub set_arguments : List Argument → Files → Option Files
  unfolding set_argument
  set_arguments [] f = some f
  set_arguments (arg ∷ args) f = do next ← set_argument arg f; set_arguments args next

-- A file for reading without its file for writing.
abbrev pub is_unpaired : Option Bytes → Option Bytes → Bool
is_unpaired none out = false
is_unpaired (some bytes) none = true
is_unpaired (some bytes) (some name) = false

-- The tests after the loop.
abbrev pub check_files : Files → Option Files
check_files f =
    if is_unpaired f.op_in_fp f.op_out_fp
    then none
    else if is_unpaired f.fetch_in_fp f.fetch_out_fp
    then none
    else some f

unfoldable pub parse_args : Disk → List Argument → Files → Option Files
unfolding set_arguments
parse_args disk args f = do g ← set_arguments disk args f; check_files g

-- What `main` writes: a file by its name, and the table. A table for no file would go to `NULL`.
pub record Written : Type 0 where
  pub name : Option Bytes
  pub table : Table

abbrev pub write_table : (Bytes → Table) → Option Bytes → Option Bytes → List Written
write_table decode none out = []
write_table decode (some bytes) out = record { name = out; table = decode bytes } ∷ []

abbrev pub no_files : Files
no_files = record { op_in_fp = none; op_out_fp = none; fetch_in_fp = none; fetch_out_fp = none }

unfoldable pub main : Disk → List Argument → Option (List Written × List Written)
unfolding parse_args decode_op_file decode_fetch_file
main disk args = do
  f ← parse_args disk args no_files
  some (
    write_table decode_op_file f.op_in_fp f.op_out_fp,
    write_table decode_fetch_file f.fetch_in_fp f.fetch_out_fp,
  )
