-- ===== src/Library/Options.antt =====
-- The options of lib/ibs.c and `ibs_set_option`.
use amd_ibs_toolkit.Base.{ℕ, ◌%◌, ◌^◌, Bool, true, false, ltb, if◌then◌else◌}

-- The static variables that options set. The functions that write samples are numbers here, as are
-- the names of files.
pub record Options : Type 0 where
  pub ibs_debug_on : ℕ
  pub ibs_op : ℕ
  pub ibs_fetch : ℕ
  pub ibs_aggressive_read : ℕ
  pub ibs_read_on_timeout : ℕ
  pub ibs_poll_timeout : ℕ
  pub ibs_poll_num_samples : ℕ
  pub ibs_max_cnt : ℕ
  pub ibs_cpu_list : ℕ → ℕ
  pub ibs_daemon_max_samples : ℕ
  pub ibs_daemon_cpu_list : ℕ
  pub ibs_daemon_op_file : ℕ
  pub ibs_daemon_fetch_file : ℕ
  pub ibs_daemon_op_write : ℕ
  pub ibs_daemon_fetch_write : ℕ

-- An option with its value: a 64-bit word, or the array of characters behind it.
pub data Setting : Type 0 where
  debug op fetch aggressive_read read_on_timeout : ℕ → Setting
  poll_timeout poll_num_samples max_cnt : ℕ → Setting
  cpu_list : (ℕ → ℕ) → Setting
  daemon_max_samples daemon_cpu_list daemon_op_file daemon_fetch_file : ℕ → Setting
  daemon_op_write daemon_fetch_write : ℕ → Setting
  unrecognized : Setting

-- A cast to `unsigned char`.
abbrev pub byte : ℕ → ℕ
byte v = v % 2 ^ 8

-- `true` stands for a return value of 0, `false` for -1.
unfoldable pub ibs_set_option : ℕ → Setting → Options → Bool × Options
ibs_set_option num_cpus (debug v) o = (true, record o { ibs_debug_on = byte v })
ibs_set_option num_cpus (op v) o = (true, record o { ibs_op = byte v })
ibs_set_option num_cpus (fetch v) o = (true, record o { ibs_fetch = byte v })
ibs_set_option num_cpus (aggressive_read v) o = (true, record o { ibs_aggressive_read = byte v })
ibs_set_option num_cpus (read_on_timeout v) o = (true, record o { ibs_read_on_timeout = byte v })
ibs_set_option num_cpus (poll_timeout v) o = (true, record o { ibs_poll_timeout = v })
ibs_set_option num_cpus (poll_num_samples v) o = (true, record o { ibs_poll_num_samples = v })
ibs_set_option num_cpus (max_cnt v) o = (true, record o { ibs_max_cnt = v })
ibs_set_option num_cpus (cpu_list v) o = (
  true,
  record o { ibs_cpu_list = λ (i : ℕ). if ltb i num_cpus then byte (v i) else o.ibs_cpu_list i },
)
ibs_set_option num_cpus (daemon_max_samples v) o = (true, record o { ibs_daemon_max_samples = v })
ibs_set_option num_cpus (daemon_cpu_list v) o = (true, record o { ibs_daemon_cpu_list = v })
ibs_set_option num_cpus (daemon_op_file v) o = (true, record o { ibs_daemon_op_file = v })
ibs_set_option num_cpus (daemon_fetch_file v) o = (true, record o { ibs_daemon_fetch_file = v })
ibs_set_option num_cpus (daemon_op_write v) o = (true, record o { ibs_daemon_op_write = v })
ibs_set_option num_cpus (daemon_fetch_write v) o = (true, record o { ibs_daemon_fetch_write = v })
ibs_set_option num_cpus unrecognized o = (false, o)
