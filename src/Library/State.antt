-- ===== src/Library/State.antt =====
-- The variables of lib/ibs.c, what the library asks of the system, and the calls it has made.
use amd_ibs_toolkit.Base.{ℕ, Bool, Option, List, ◌∷◌, ◌==◌, if◌then◌else◌}
use amd_ibs_toolkit.Driver.Registers.{Flavor}
use amd_ibs_toolkit.Driver.Device.{IbsOp, IbsFetch}
use amd_ibs_toolkit.Driver.Ioctl.{Command}

-- `ibs_cpu_t`; a file descriptor of 0 stands for a device that is not open.
pub record IbsCpu : Type 0 where
  pub op_enabled : Bool
  pub op_fd : ℕ
  pub fetch_enabled : Bool
  pub fetch_fd : ℕ

-- The calls of the system: `opened` with the descriptor that `open` returned.
pub data Call : Type 0 where
  ioctl_call : ℕ → Command → ℕ → Call
  open_failed : Flavor → ℕ → Call
  opened : Flavor → ℕ → ℕ → Call
  close_call : ℕ → Call
  read_call : ℕ → ℕ → Call
  select_call : List ℕ → ℕ → Call
  kill_call : ℕ → Call

-- What `select` returns: an error, a signal, the end of the timeout, or descriptors.
pub data Selected : Type 0 where
  select_error interrupted timed_out some_ready : Selected

-- A `read`: how many bytes, and what they hold as either structure.
pub record ReadData : Type 0 where
  pub bytes_read : ℕ
  pub ops : ℕ → IbsOp
  pub fetches : ℕ → IbsFetch

-- The system: each answer may depend on all calls before. `none` is a negative return value.
pub record System : Type 0 where
  pub ioctl : List Call → ℕ → Command → ℕ → Option ℕ
  pub open_device : List Call → Flavor → ℕ → Option ℕ
  pub read : List Call → ℕ → ℕ → Option ReadData
  -- by the descriptors of the set, and the timeout in milliseconds, 0 for none
  pub select : List Call → List ℕ → ℕ → Selected
  -- `FD_ISSET` after `select`
  pub fd_isset : List Call → ℕ → Bool
  pub is_cpu_online : ℕ → Bool

-- `ibs_cpus` and the calls so far, newest first.
pub record Files : Type 0 where
  pub cpus : ℕ → IbsCpu
  pub calls : List Call

abbrev pub call : Call → Files → Files
call c st = record st { calls = c ∷ st.calls }

abbrev pub put_cpu : ℕ → IbsCpu → Files → Files
put_cpu cpu c st = record st { cpus = λ (i : ℕ). if cpu == i then c else st.cpus i }
