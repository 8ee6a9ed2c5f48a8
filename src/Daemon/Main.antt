-- ===== src/Daemon/Main.antt =====
-- The arguments and the main program of tools/ibs_daemon/ibs_daemon.c. Names of files and the
-- functions that the library gets are numbers, as in the library's options.
pub mod Reserved
use amd_ibs_toolkit.Base.{ℕ, ◌*◌, ◌-◌, Bool, true, false, not, ◌&&◌, ◌==◌, ltb, if◌then◌else◌}
use amd_ibs_toolkit.Base.{Option, none, some, List, [], ◌∷◌}
use amd_ibs_toolkit.Text.{Bytes}
use amd_ibs_toolkit.Library.State.{System}
use amd_ibs_toolkit.Library.Options.{Setting}
use amd_ibs_toolkit.Library.Options
use amd_ibs_toolkit.Library.Initialize.{
  Library, Outcome, returns, runs_daemon, ibs_initialize, ibs_finalize,
}
use amd_ibs_toolkit.Daemon.Cores.{Cores, fill_out_online_cores}

-- What `getopt_long` returns, with `optarg`.
pub data Argument : Type 0 where
  op_file working_dir : ℕ → Argument
  help bad_argument : Argument

-- The static `global_op_file` and `global_work_dir`; `none` is `NULL`.
pub record Files : Type 0 where
  pub global_op_file : Option ℕ
  pub global_work_dir : Option ℕ

-- `none` where the help ends the program.
unfoldable pub parse_args : List Argument → Files → Option Files
parse_args [] f = some f
parse_args (op_file name ∷ rest) f = parse_args rest (record f { global_op_file = some name })
parse_args (working_dir name ∷ rest) f = parse_args rest (record f { global_work_dir = some name })
parse_args (help ∷ rest) f = none
parse_args (bad_argument ∷ rest) f = parse_args rest f

-- The lists of `main` once the last online core is reserved for the daemon.
pub record Plan : Type 0 where
  pub cpu_list : ℕ → Bool
  pub procs : ℕ → Bool
  pub daemon_cpu_list : ℕ → Bool

unfoldable pub reserve_last : Cores → Plan
reserve_last c =
    let last_online_core = c.after_previous - 1 in
    record {
      cpu_list = λ (i : ℕ). not (i == last_online_core) && c.cpu_list i;
      procs = λ (i : ℕ). not (i == last_online_core) && c.procs i;
      daemon_cpu_list = λ (i : ℕ). i == last_online_core;
    }

-- What the program finds: `get_nprocs_conf`, `get_nprocs`, the line of the file, the answer of
-- `fork` to the library; and the pointers to the list of the daemon's CPUs and to
-- `write_op_sample`.
pub record Machine : Type 0 where
  pub num_cpus : ℕ
  pub num_online_cpus : ℕ
  pub online : Bytes
  pub forked : Option ℕ
  pub daemon_list_ptr : ℕ
  pub write_op_ptr : ℕ

-- `IBS_WATCH_MAX_SAMPLES`: `(int)(512 * 1.1)` for each CPU that is online.
abbrev max_samples : Machine → ℕ
max_samples m = 563 * m.num_online_cpus

abbrev flag : Bool → ℕ
flag true = 1
flag false = 0

-- `opts`
unfoldable pub daemon_options : Machine → Plan → ℕ → List Setting
daemon_options m plan file =
    Options.debug 1
    ∷ Options.op 1
    ∷ Options.poll_num_samples 512
    ∷ Options.poll_timeout 1000
    ∷ Options.read_on_timeout 0
    ∷ Options.max_cnt 0x2ffff
    ∷ Options.cpu_list (λ (i : ℕ). flag (plan.cpu_list i))
    ∷ Options.daemon_max_samples (max_samples m)
    ∷ Options.daemon_cpu_list m.daemon_list_ptr
    ∷ Options.daemon_op_file file
    ∷ Options.daemon_op_write m.write_op_ptr
    ∷ []

-- How `main` ends: with EXIT_FAILURE before all else, with the status of `ibs_initialize`, as
-- the daemon, or after the child ran on some CPUs.
pub data End : Type 0 where
  too_few_cores : End
  not_initialized : Option ℕ → End
  in_daemon : End
  child_done : (ℕ → Bool) → End

-- `clean_exit` and, with another status, `bad_exit`: the part that concerns the library.
unfoldable pub clean_exit : System → Option ℕ → Library → Library
clean_exit sys none l = l
clean_exit sys (some file) l = ibs_finalize sys l

-- From the status of `ibs_initialize` on.
unfoldable pub run_child : System → Plan → ℕ → Outcome → Library → End × Library
unfolding clean_exit
run_child sys plan file runs_daemon l = (in_daemon, l)
run_child sys plan file (returns none) l = (not_initialized none, l)
run_child sys plan file (returns (some status)) l =
    if status == 0
    then (child_done plan.procs, clean_exit sys (some file) l)
    else (not_initialized (some status), l)

-- From the test of `global_op_file` on.
unfoldable pub sample_child : System → Machine → Plan → Option ℕ → Library → End × Library
unfolding run_child daemon_options
sample_child sys m plan none l = (child_done plan.procs, clean_exit sys none l)
sample_child sys m plan (some file) l =
    let (outcome, l') =
      ibs_initialize sys m.num_cpus (daemon_options m plan file) true m.forked l in
    run_child sys plan file outcome l'

-- `main` after `parse_args`
unfoldable pub main : System → Machine → Files → Library → End × Library
unfolding sample_child reserve_last
main sys m f l =
    let c = fill_out_online_cores m.num_cpus m.num_online_cpus m.online in
    if ltb m.num_online_cpus 2
    then (too_few_cores, l)
    else if ltb c.after_previous 2
    then (too_few_cores, l)
    else sample_child sys m (reserve_last c) f.global_op_file l
