-- ===== src/Library/Tests.antt =====
-- The theorems on the user library with a concrete system.
use amd_ibs_toolkit.Base.{◌≢◌}
use amd_ibs_toolkit.Base.{
  ℕ, ◌+◌, ◌*◌, ◌≤◌, ◌≡◌, refl, arith, Bool, true, false, ◌==◌, if◌then◌else◌, none, some, [],
}
use amd_ibs_toolkit.Driver.Registers.{ibs_op, ibs_fetch}
use amd_ibs_toolkit.Driver.Device.{IbsOp, IbsFetch, op_sample}
use amd_ibs_toolkit.Driver.Ioctl.{Command, fionread}
use amd_ibs_toolkit.Library.State.{System, Files, some_ready}
use amd_ibs_toolkit.Library.Options
use amd_ibs_toolkit.Library.Enable
use amd_ibs_toolkit.Library.Enable.Quiet.{IsQuiet, are_apart, ibs_enable_all-IsQuiet}
use amd_ibs_toolkit.Library.Sample
use amd_ibs_toolkit.Library.Sample.Answers.{tag}
use amd_ibs_toolkit.Library.Sample.Bounds.{wants, do_ibs_sample-typed}
use amd_ibs_toolkit.Library.Daemon
use amd_ibs_toolkit.Library.Daemon.Writes.{Counted}
use amd_ibs_toolkit.Library.Daemon.Statistics.{start_ibs_daemon-Counted}
use amd_ibs_toolkit.Library.Initialize
use amd_ibs_toolkit.Library.Initialize.Descriptors.{opens, closes, held}
use amd_ibs_toolkit.Library.Initialize.Balance.{do_ibs_initialize_failed, ibs_finalize_leak}

abbrev pub op : IbsOp
op = record {
  op_ctl = 0x400;
  op_rip = 0x401000;
  op_data = 0;
  op_data2 = 0;
  op_data3 = 0;
  op_data4 = 0;
  dc_lin_ad = 0;
  dc_phys_ad = 0;
  br_target = 0;
  tsc = 9;
  cr3 = 0;
  tid = 1;
  pid = 1;
  cpu = 0;
  kern_mode = 0;
}

abbrev fetch : IbsFetch
fetch = record {
  fetch_ctl = 0;
  fetch_ctl_extd = 0;
  fetch_lin_ad = 0x401000;
  fetch_phys_ad = 0;
  tsc = 9;
  cr3 = 0;
  tid = 1;
  pid = 1;
  cpu = 0;
  kern_mode = 0;
}

-- The answer of `ioctl`: two samples wait in each device.
abbrev answer : Command → ℕ
answer fionread = 2
answer _ = 0

-- Each device opens, with the descriptors from 3 on, and `read` returns two samples.
abbrev pub system : System
system = record {
  ioctl = λ calls fd cmd arg. some (answer cmd);
  open_device = λ calls flavor cpu. some (cpu * 2 + (elim flavor [ ibs_op ↦ 3 | ibs_fetch ↦ 4 ]));
  read = λ calls fd bytes.
      some (record { bytes_read = bytes; ops = λ (i : ℕ). op; fetches = λ (i : ℕ). fetch });
  select = λ calls fds timeout. some_ready;
  fd_isset = λ calls fd. true;
  is_cpu_online = λ cpu. true;
}

-- The device of descriptor 5 cannot be enabled, and neither takes options.
abbrev stuck : System
stuck = record system { ioctl = λ calls fd cmd arg. if fd == 5 then none else some (answer cmd) }

-- Two CPUs that are set up and not enabled.
abbrev files : Files
files = record {
  cpus = λ (cpu : ℕ). record {
    op_enabled = false;
    op_fd = cpu * 2 + 3;
    fetch_enabled = false;
    fetch_fd = cpu * 2 + 4;
  };
  calls = [];
}

abbrev every : ℕ → Bool
every cpu = true

other-files : (i : ℕ) → i ≢ 0 → are_apart (files.cpus i) (files.cpus 0) ≡ true
other-files i other = ground (arith, other)

ibs_enable_all-IsQuiet_example :
    let st = (Enable.ibs_enable_all stuck every 2 files).1 in IsQuiet stuck (st.cpus 0) st.calls
unfolding Enable.ibs_enable_all
ibs_enable_all-IsQuiet_example =
    ibs_enable_all-IsQuiet stuck every 2 0 files other-files refl
      (record { op = refl; fetch = refl; op_quiet = refl; fetch_quiet = refl }) refl refl

abbrev options : Options.Options
options = record {
  ibs_debug_on = 0;
  ibs_op = 1;
  ibs_fetch = 1;
  ibs_aggressive_read = 0;
  ibs_read_on_timeout = 0;
  ibs_poll_timeout = 1000;
  ibs_poll_num_samples = 1;
  ibs_max_cnt = 0x4000;
  ibs_cpu_list = λ (cpu : ℕ). 0;
  ibs_daemon_max_samples = 100;
  ibs_daemon_cpu_list = 0;
  ibs_daemon_op_file = 0;
  ibs_daemon_fetch_file = 0;
  ibs_daemon_op_write = 0;
  ibs_daemon_fetch_write = 0;
}

abbrev batch : Sample.Batch
batch = record {
  samples = λ (i : ℕ). op_sample op;
  sample_types = λ (i : ℕ). Sample.op_type;
  total_new_samples = 0;
  files = files;
}

-- Of the four samples of CPU 0, two are ops and the last that fits is a fetch.
do_ibs_sample-typed_example :
    let filled = (Sample.do_ibs_sample system options 3 true true every 2 batch).1 in
    (3 ≤ 3)
    × (filled.sample_types 2 ≡ tag (filled.samples 2))
    × (wants true true (filled.sample_types 2) ≡ true)
unfolding Sample.do_ibs_sample
do_ibs_sample-typed_example =
    do_ibs_sample-typed system options 3 true true every 2 batch 3 2 refl (omega arith)

abbrev pub library : Initialize.Library
library = record {
  options = options;
  num_cpus = 0;
  files = files;
  fd = some 0;
  ibs_max_op_fd = none;
  ibs_max_fetch_fd = none;
  ibs_initialized = false;
  ibs_daemon = 0;
}

-- CPU 1 does not take the options, after all four devices have been opened.
do_ibs_initialize_failed_example :
    let after = (Initialize.do_ibs_initialize stuck 2 [] library).1.files.calls in
    opens 4 after + closes 4 [] ≡ opens 4 [] + closes 4 after
unfolding Initialize.do_ibs_initialize
do_ibs_initialize_failed_example = do_ibs_initialize_failed 4 (omega arith) stuck 2 [] library refl

ibs_finalize_leak_example :
    let ready = (Initialize.do_ibs_initialize system 2 [] library).1 in
    let after = (Initialize.ibs_finalize system ready).files.calls in
    opens 4 after + closes 4 [] ≡ opens 4 [] + closes 4 after + held 4 ready.files.cpus 2
ibs_finalize_leak_example = ibs_finalize_leak 4 (omega arith) system 2 [] library

-- `options` with every CPU in `ibs_cpu_list`.
abbrev all_cpus : Options.Options
all_cpus = record options { ibs_cpu_list = λ (cpu : ℕ). 1 }

start_ibs_daemon-Counted_example :
    let out =
      Daemon.start_ibs_daemon system true 2 batch.samples batch.sample_types
        (record library { options = all_cpus }) in
    (l' : Initialize.Library) × (d : Daemon.Daemon) × (out.1 ≡ some (l', d)) × Counted d
start_ibs_daemon-Counted_example =
    start_ibs_daemon-Counted system true 2 batch.samples batch.sample_types
      (record library { options = all_cpus })
