-- ===== src/Monitor/Program.antt =====
-- `output_headers`, `update_environment` and `main` of tools/ibs_monitor/ibs_monitor.c. The files
-- hold the header, as lines, and the samples.
pub mod Counts
use amd_ibs_toolkit.Base.{ℕ, ◌/◌, Bool, true, false, ◌||◌, if◌then◌else◌}
use amd_ibs_toolkit.Base.{Option, none, some, List, [], ◌∷◌, ◌++◌, ◌>>=◌}
use amd_ibs_toolkit.Text.{Bytes, codes, starts_with, print_dec}
use amd_ibs_toolkit.Driver.Device.{IbsOp, IbsFetch}
use amd_ibs_toolkit.Driver.Cpus.{size_of_ibs_op, size_of_ibs_fetch}
use amd_ibs_toolkit.Library.State.{System, Call}
use amd_ibs_toolkit.Monitor.Cpu.{Cpuid}
use amd_ibs_toolkit.Monitor.Settings.{Settings, set_global_defaults}
use amd_ibs_toolkit.Monitor.Header.{output_op_header, output_fetch_header}
use amd_ibs_toolkit.Monitor.Online.{fill_out_online_cores}
use amd_ibs_toolkit.Monitor.Arguments.{Argument, Arguments, parse_args}
use amd_ibs_toolkit.Monitor.Sampling.{Sampler, Setup, Polled, enable_ibs_flavors, sample}

-- `strstr(text, pattern)` is not `NULL`.
abbrev pub contains : Bytes → Bytes → Bool
contains pattern [] = starts_with pattern []
contains pattern (c ∷ cs) = starts_with pattern (c ∷ cs) || contains pattern cs

-- `ld_debug_exists`
abbrev ld_debug_exists : List Bytes → Bool
ld_debug_exists [] = false
ld_debug_exists (v ∷ vs) = contains (codes "LD_DEBUG") v || ld_debug_exists vs

-- `update_environment`, with the name in `ld_debug_out`.
unfoldable pub update_environment : Bytes → List Bytes → List Bytes
update_environment name environ =
    if ld_debug_exists environ
    then environ
    else environ ++ codes "LD_DEBUG=files,libs" ∷ (codes "LD_DEBUG_OUTPUT=" ++ name) ∷ []

-- The header of a file that is open; `flavors | IBS_OP` is never 0.
abbrev header_for : Option Bytes → Option (List Bytes) → Option (Option (List Bytes))
header_for none lines = some none
header_for (some file) lines = lines >>= (λ ls. some (some ls))

-- The headers of the two files, `none` for a file that is not open.
pub record Headers : Type 0 where
  pub op_header : Option (List Bytes)
  pub fetch_header : Option (List Bytes)

-- `none` stands for `exit`.
unfoldable pub output_headers :
    Cpuid → List Bytes → List Bytes → Option Bytes → Option Bytes → Option Headers
output_headers cpuid op_machine fetch_machine opf fetchf = do
  ops ← header_for opf (output_op_header cpuid op_machine)
  fetches ← header_for fetchf (output_fetch_header cpuid fetch_machine)
  some (record { op_header = ops; fetch_header = fetches })

-- What the program finds. `fopen` and the headers as above; `get_nprocs_conf`, `get_nprocs` and the
-- line of the online CPUs; `scaled` is the product of the buffer's size and the percentage in
-- floating point; `cpid` is the answer of `fork` in the parent, `polls` are the answers of
-- `poll` until the child has ended.
pub record Surroundings : Type 0 where
  pub cpuid : Cpuid
  pub opens : Bytes → Bool
  pub op_machine : List Bytes
  pub fetch_machine : List Bytes
  pub num_cpus : ℕ
  pub num_online_cpus : ℕ
  pub online : Bytes
  pub system : System
  pub scaled : ℕ → ℕ → ℕ
  pub environ : List Bytes
  pub cpid : ℕ
  pub polls : List Polled

-- The arguments before `parse_args`.
abbrev pub no_arguments : Arguments
no_arguments = record {
  settings = set_global_defaults;
  opf = none;
  fetchf = none;
  wants_op = false;
  wants_fetch = false;
  global_work_dir = none;
  ld_debug_out = none;
}

-- An open file has no samples.
abbrev pub empty_file {ℓ κ} : {A : Type ℓ} {B : Type κ} → Option A → Option (List B)
empty_file none = none
empty_file (some name) = some []

abbrev pub new_sampler : Arguments → Sampler
new_sampler a = record {
  calls = [];
  n_op_samples = 0;
  n_fetch_samples = 0;
  n_lost_op_samples = 0;
  n_lost_fetch_samples = 0;
  op_file = empty_file a.opf;
  fetch_file = empty_file a.fetchf;
}

-- How `main` ends in the parent: the headers, the counters and files, the environment and the
-- directory of the child, and the names that `rename` gets.
pub record Run : Type 0 where
  pub headers : Headers
  pub sampler : Sampler
  pub child_environ : List Bytes
  pub child_dir : Option Bytes
  pub renamed : Option (Bytes × Bytes)

abbrev environ_to_use : Option Bytes → List Bytes → List Bytes
environ_to_use none environ = environ
environ_to_use (some name) environ = update_environment name environ

abbrev rename_log : ℕ → Option Bytes → Option (Bytes × Bytes)
rename_log cpid none = none
rename_log cpid (some name) = some (name ++ codes "." ++ print_dec cpid, name)

-- The settings that `enable_ibs_flavors` uses for a flavor.
abbrev setup_of : Surroundings → Settings → ℕ → ℕ → Setup
setup_of w s entry_size max_cnt = record {
  buffer_size = s.buffer_size;
  poll_entries = w.scaled s.buffer_size s.poll_percent / entry_size;
  max_cnt = max_cnt;
}

-- The call of `enable_ibs_flavors`
unfoldable pub enable_all : Surroundings → Arguments → (List ℕ × List ℕ) × Sampler
unfolding enable_ibs_flavors
enable_all w a =
    let s = a.settings in
    enable_ibs_flavors w.system (setup_of w s size_of_ibs_op s.op_cnt_max_to_set)
      (setup_of w s size_of_ibs_fetch s.fetch_cnt_max_to_set) a.wants_op a.wants_fetch
      (fill_out_online_cores w.num_cpus w.num_online_cpus w.online) w.num_cpus (new_sampler a)

-- `main` from there on, in the parent.
unfoldable pub monitor : Surroundings → Arguments → Option Sampler
unfolding enable_all sample
monitor w a =
    let ((op_fds, fetch_fds), enabled) = enable_all w a in
    sample w.system a.settings.buffer_size op_fds fetch_fds w.polls enabled

-- The child's part, and what is left when the sampling has ended.
unfoldable pub end_of_run : Surroundings → Arguments → Headers → Sampler → Run
unfolding update_environment
end_of_run w a headers sampler = record {
  headers = headers;
  sampler = sampler;
  child_environ = environ_to_use a.ld_debug_out w.environ;
  child_dir = a.global_work_dir;
  renamed = rename_log w.cpid a.ld_debug_out;
}

unfoldable pub main : Surroundings → List Argument → Option Run
unfolding parse_args output_headers monitor end_of_run
main w args = do
  a ← parse_args w.cpuid w.opens args no_arguments
  headers ← output_headers w.cpuid w.op_machine w.fetch_machine a.opf a.fetchf
  sampler ← monitor w a
  some (end_of_run w a headers sampler)
