-- ===== src/Library/Initialize.antt =====
-- `do_ibs_initialize`, `ibs_initialize` and `ibs_finalize` of lib/ibs.c.
pub mod Descriptors
pub mod Held
pub mod Balance
use amd_ibs_toolkit.Base.{ℕ, zero, suc, ◌+◌, Bool, true, false, not, ◌&&◌, ◌==◌, ltb, if◌then◌else◌}
use amd_ibs_toolkit.Base.{Option, none, some, List, [], ◌∷◌}
use amd_ibs_toolkit.Driver.Registers.{Flavor, ibs_op, ibs_fetch}
use amd_ibs_toolkit.Driver.Ioctl.{Command, set_max_cnt, set_poll_size}
use amd_ibs_toolkit.Library.State.{IbsCpu, System, Files, call, put_cpu, ioctl_call, open_failed}
use amd_ibs_toolkit.Library.State.{opened, close_call, kill_call}
use amd_ibs_toolkit.Library.Enable.{succeeded, ibs_disable_all}
use amd_ibs_toolkit.Library.Options.{Options, Setting, ibs_set_option}

-- The variables of the library. `none` is -1 in `fd`, `ibs_max_op_fd` and `ibs_max_fetch_fd`; `fd`
-- is the local variable of `do_ibs_initialize`.
pub record Library : Type 0 where
  pub options : Options
  pub num_cpus : ℕ
  pub files : Files
  pub fd : Option ℕ
  pub ibs_max_op_fd : Option ℕ
  pub ibs_max_fetch_fd : Option ℕ
  pub ibs_initialized : Bool
  pub ibs_daemon : ℕ

-- How `ibs_initialize` ends: with a return value, or as the daemon.
pub data Outcome : Type 0 where
  returns : Option ℕ → Outcome
  runs_daemon : Outcome

-- `if (fd > max) max = fd`
abbrev raise_to : ℕ → Option ℕ → Option ℕ
raise_to fd none = some fd
raise_to fd (some m) = if ltb m fd then some fd else some m

-- The structure after the `memset`.
abbrev pub cleared_cpu : IbsCpu
cleared_cpu = record { op_enabled = false; op_fd = 0; fetch_enabled = false; fetch_fd = 0 }

-- The loop over the options.
unfoldable pub save_options : ℕ → List Setting → Options → Options
save_options num_cpus [] o = o
save_options num_cpus (s ∷ rest) o = save_options num_cpus rest (ibs_set_option num_cpus s o).1

-- What follows `open` for either device; `false` stands for `goto err`.
unfoldable pub store_op : ℕ → Option ℕ → Library → Bool × Library
store_op cpu none l = (false, record l { fd = none; files = call (open_failed ibs_op cpu) l.files })
store_op cpu (some n) l =
    let f = call (opened ibs_op cpu n) l.files in
    (
      true,
      record l {
        fd = some n;
        files = put_cpu cpu (record (l.files.cpus cpu) { op_fd = n }) f;
        ibs_max_op_fd = raise_to n l.ibs_max_op_fd;
      },
    )

unfoldable pub store_fetch : ℕ → Option ℕ → Library → Bool × Library
store_fetch cpu none l =
    (false, record l { fd = none; files = call (open_failed ibs_fetch cpu) l.files })
store_fetch cpu (some n) l =
    let f = call (opened ibs_fetch cpu n) l.files in
    (
      true,
      record l {
        fd = some n;
        files = put_cpu cpu (record (l.files.cpus cpu) { fetch_fd = n }) f;
        ibs_max_fetch_fd = raise_to n l.ibs_max_fetch_fd;
      },
    )

-- The two `close` of a round of the loop at `err`.
unfoldable pub close_cpu : ℕ → Files → Files
close_cpu cpu st =
    let c = st.cpus cpu in
    let s1 =
      if ltb 0 c.op_fd
      then put_cpu cpu (record c { op_fd = 0 }) (call (close_call c.op_fd) st)
      else st in
    let d = s1.cpus cpu in
    if ltb 0 d.fetch_fd
    then put_cpu cpu (record d { fetch_fd = 0 }) (call (close_call d.fetch_fd) s1)
    else s1

-- The loop at `err`, for the CPUs below `rounds`.
unfoldable pub close_down : ℕ → Files → Files
unfolding close_cpu
close_down zero st = st
close_down (suc cpu) st = close_down cpu (close_cpu cpu st)

-- The statements at `err`, reached in the round of `cpu`.
unfoldable pub give_up : ℕ → Library → Library
unfolding close_down
give_up cpu l = record l {
  files = close_down (cpu + 1) l.files;
  ibs_max_op_fd = none;
  ibs_max_fetch_fd = none;
}

-- The state when the loop starts; `nprocs` is the answer of `get_nprocs_conf`.
unfoldable pub start_of : ℕ → List Setting → Library → Library
unfolding save_options
start_of nprocs settings l =
    let o = record l.options { ibs_cpu_list = λ (i : ℕ). 0 } in
    record l {
      num_cpus = nprocs;
      options = save_options nprocs settings o;
      files = record l.files { cpus = λ (i : ℕ). cleared_cpu };
      fd = some 0;
      ibs_max_op_fd = none;
      ibs_max_fetch_fd = none;
    }

-- What follows `do_ibs_initialize`; `forked` is the answer of `fork`.
unfoldable pub daemonized : Option ℕ → Library → Outcome × Library
daemonized none l = (returns none, l)
daemonized (some pid) l =
    if pid == 0 then (runs_daemon, l) else (returns (some 0), record l { ibs_daemon = pid })

abbrev pub is_success : Option ℕ → Bool
is_success none = false
is_success (some n) = n == 0

module _ (sys : System) where
  -- One device's call of `ioctl`; `false` stands for -1.
  unfoldable pub ioctl_on_fd : Command → ℕ → ℕ → Files → Bool × Files
  ioctl_on_fd cmd arg fd st =
      if ltb 0 fd
      then (succeeded (sys.ioctl st.calls fd cmd arg), call (ioctl_call fd cmd arg) st)
      else (true, st)

  unfoldable pub ibs_apply_ioctl_on_cpu : Command → ℕ → ℕ → Files → Bool × Files
  unfolding ioctl_on_fd
  ibs_apply_ioctl_on_cpu cmd arg cpu st =
      let (op_ok, s1) = ioctl_on_fd cmd arg (st.cpus cpu).op_fd st in
      let both = ioctl_on_fd cmd arg (s1.cpus cpu).fetch_fd s1 in
      if op_ok then both else (false, s1)

  unfoldable pub ibs_apply_options_on_cpu : Options → ℕ → Files → Bool × Files
  unfolding ibs_apply_ioctl_on_cpu
  ibs_apply_options_on_cpu o cpu st =
      let (max_ok, s1) = ibs_apply_ioctl_on_cpu set_max_cnt o.ibs_max_cnt cpu st in
      let both = ibs_apply_ioctl_on_cpu set_poll_size o.ibs_poll_num_samples cpu s1 in
      if max_ok then both else (false, s1)

  -- The first half of a round of the loop that opens the devices.
  unfoldable pub open_op : ℕ → Library → Bool × Library
  unfolding store_op
  open_op cpu l =
      if l.options.ibs_op == 0
      then (true, l)
      else store_op cpu (sys.open_device l.files.calls ibs_op cpu) l

  unfoldable pub open_fetch : ℕ → Library → Bool × Library
  unfolding store_fetch
  open_fetch cpu l =
      if l.options.ibs_fetch == 0
      then (true, l)
      else store_fetch cpu (sys.open_device l.files.calls ibs_fetch cpu) l

  -- The options of a CPU, with the files in the library's state.
  unfoldable pub set_up_cpu : ℕ → Library → Bool × Library
  unfolding ibs_apply_options_on_cpu
  set_up_cpu cpu l =
      let (ok, st) = ibs_apply_options_on_cpu l.options cpu l.files in (ok, record l { files = st })

  -- A round of the loop for a CPU that is online.
  unfoldable pub open_cpu : ℕ → Library → Bool × Library
  unfolding open_op open_fetch set_up_cpu
  open_cpu cpu l =
      let (op_ok, l1) = open_op cpu l in
      let (fetch_ok, l2) = open_fetch cpu l1 in
      let last = set_up_cpu cpu l2 in
      if not op_ok then (false, l1) else if not fetch_ok then (false, l2) else last

  unfoldable pub open_online : ℕ → Library → Bool × Library
  unfolding open_cpu
  open_online cpu l = if sys.is_cpu_online cpu then open_cpu cpu l else (true, l)

  -- The loop from `cpu` on with `left` rounds to go, and what comes after it.
  unfoldable pub open_from : ℕ → ℕ → Library → Option ℕ × Library
  unfolding open_online give_up
  open_from zero cpu l = (some 0, record l { ibs_initialized = true })
  open_from (suc left) cpu l =
      let (ok, tried) = open_online cpu l in
      let rest = open_from left (cpu + 1) tried in
      if ok then rest else (tried.fd, give_up cpu tried)

  unfoldable pub do_ibs_initialize : ℕ → List Setting → Library → Option ℕ × Library
  unfolding open_from start_of
  do_ibs_initialize nprocs settings l = open_from nprocs 0 (start_of nprocs settings l)

  unfoldable pub ibs_initialize : ℕ → List Setting → Bool → Option ℕ → Library → Outcome × Library
  unfolding do_ibs_initialize daemonized
  ibs_initialize nprocs settings daemonize forked l =
      let (ret, l1) = do_ibs_initialize nprocs settings l in
      if l.ibs_initialized
      then (returns none, l)
      else if not (is_success ret)
      then (returns ret, l1)
      else if daemonize
      then daemonized forked l1
      else (returns (some 0), l1)

  unfoldable pub ibs_finalize : Library → Library
  unfolding ibs_disable_all
  ibs_finalize l =
      let list = λ (i : ℕ). not (l.options.ibs_cpu_list i == 0) in
      if not (l.ibs_daemon == 0)
      then record l { ibs_daemon = 0; files = call (kill_call l.ibs_daemon) l.files }
      else if not l.ibs_initialized
      then l
      else record l {
        files = ibs_disable_all sys list l.num_cpus l.files;
        ibs_max_op_fd = none;
        ibs_max_fetch_fd = none;
        ibs_initialized = false;
      }
