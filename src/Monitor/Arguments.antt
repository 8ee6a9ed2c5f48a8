-- ===== src/Monitor/Arguments.antt =====
-- The arguments of tools/ibs_monitor/ibs_monitor.c: `parse_args`, `set_op_file`, `set_fetch_file`,
-- `set_working_dir` and `set_ld_debug_name`. The pointers are not null. `getopt_long` is taken to
-- split the command line; the numbers are in the range of `int`.
pub mod Sound
use amd_ibs_toolkit.Base.{ℕ, zero, suc, ◌-◌, Bool, true, false, ◌==◌, ltb, leb, if◌then◌else◌}
use amd_ibs_toolkit.Base.{Option, none, some, List, [], ◌∷◌, ◌>>=◌}
use amd_ibs_toolkit.Text.{Bytes, number, skip_spaces}
use amd_ibs_toolkit.Monitor.Cpu.{Cpuid}
use amd_ibs_toolkit.Monitor.Settings.{
  ℤ, pos, negsuc, Settings, set_global_op_sample_rate, set_global_fetch_sample_rate,
  set_global_buffer_size, set_global_poll_percent, set_global_poll_timeout,
}

-- The options, with `optarg`.
pub data Argument : Type 0 where
  op_file fetch_file library_map working_dir : Bytes → Argument
  op_sample_rate fetch_sample_rate buffer_size poll_percent poll_timeout : Bytes → Argument
  help bad_argument : Argument

-- The settings, the files by their names, `flavors` by its two bits, `global_work_dir` and
-- `ld_debug_out`.
pub record Arguments : Type 0 where
  pub settings : Settings
  pub opf : Option Bytes
  pub fetchf : Option Bytes
  pub wants_op : Bool
  pub wants_fetch : Bool
  pub global_work_dir : Option Bytes
  pub ld_debug_out : Option Bytes

abbrev negate : ℕ → ℤ
negate zero = pos 0
negate (suc n) = negsuc n

abbrev signed_number : Bytes → ℤ
signed_number [] = pos 0
signed_number (c ∷ cs) =
    if c == 45
    then negate (number 10 0 cs)
    else if c == 43
    then pos (number 10 0 cs)
    else pos (number 10 0 (c ∷ cs))

-- `atoi`
abbrev pub atoi : Bytes → ℤ
atoi text = signed_number (skip_spaces text)

-- `opens` says whether `fopen` succeeds; `none` stands for `exit`.
unfoldable pub set_op_file : (Bytes → Bool) → Bytes → Arguments → Option Arguments
set_op_file opens name a =
    if opens name then some (record a { opf = some name; wants_op = true }) else none

unfoldable pub set_fetch_file : (Bytes → Bool) → Bytes → Arguments → Option Arguments
set_fetch_file opens name a =
    if opens name then some (record a { fetchf = some name; wants_fetch = true }) else none

unfoldable pub set_working_dir : Bytes → Arguments → Arguments
set_working_dir dir a = record a { global_work_dir = some dir }

unfoldable pub set_ld_debug_name : Bytes → Arguments → Arguments
set_ld_debug_name name a = record a { ld_debug_out = some name }

-- The settings as one of the functions leaves them.
abbrev pub with_settings : Option Settings → Arguments → Option Arguments
with_settings none a = none
with_settings (some s) a = some (record a { settings = s })

-- The `switch` of `parse_args`.
unfoldable pub set_argument : Cpuid → (Bytes → Bool) → Argument → Arguments → Option Arguments
unfolding set_op_file set_fetch_file set_working_dir set_ld_debug_name
set_argument cpuid opens (op_file name) a = set_op_file opens name a
set_argument cpuid opens (fetch_file name) a = set_fetch_file opens name a
set_argument cpuid opens (library_map name) a = some (set_ld_debug_name name a)
set_argument cpuid opens (working_dir dir) a = some (set_working_dir dir a)
set_argument cpuid opens (op_sample_rate n) a =
    with_settings (set_global_op_sample_rate cpuid (atoi n) a.settings) a
set_argument cpuid opens (fetch_sample_rate n) a =
    with_settings (set_global_fetch_sample_rate (atoi n) a.settings) a
set_argument cpuid opens (buffer_size n) a =
    with_settings (set_global_buffer_size (atoi n) a.settings) a
set_argument cpuid opens (poll_percent n) a =
    with_settings (set_global_poll_percent (atoi n) a.settings) a
set_argument cpuid opens (poll_timeout n) a =
    with_settings (set_global_poll_timeout (atoi n) a.settings) a
set_argument cpuid opens help a = none
set_argument cpuid opens bad_argument a = some a

unfoldable pub parse_args : Cpuid → (Bytes → Bool) → List Argument → Arguments → Option Arguments
unfolding set_argument
parse_args cpuid opens [] a = some a
parse_args cpuid opens (arg ∷ args) a = do
  next ← set_argument cpuid opens arg a
  parse_args cpuid opens args next
