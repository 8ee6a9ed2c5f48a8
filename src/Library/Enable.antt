-- ===== src/Library/Enable.antt =====
-- `ibs_enable_cpu`, `ibs_enable_all`, `ibs_disable_cpu` and `ibs_disable_all` of lib/ibs.c. A
-- status is `true` for 0 and `false` for a negative number.
pub mod Rollback
pub mod Quiet
use amd_ibs_toolkit.Base.{
  ℕ, zero, suc, ◌+◌, Bool, true, false, not, ◌&&◌, ltb, if◌then◌else◌, Option, none, some,
}
use amd_ibs_toolkit.Driver.Ioctl.{Command, ibs_enable, ibs_disable}
use amd_ibs_toolkit.Library.State.{IbsCpu, System, Files, call, ioctl_call, put_cpu}

abbrev pub succeeded : Option ℕ → Bool
succeeded none = false
succeeded (some _) = true

-- `list` is `ibs_cpu_list`.
module _ (sys : System) (list : ℕ → Bool) where
  -- The half of `ibs_disable_cpu` for the op device; an error only shows in a message.
  abbrev disable_op : ℕ → Files → Files
  disable_op cpu st =
      let c = st.cpus cpu in
      if c.op_enabled
      then put_cpu cpu (record c { op_enabled = false })
          (call (ioctl_call c.op_fd ibs_disable 0) st)
      else st

  abbrev disable_fetch : ℕ → Files → Files
  disable_fetch cpu st =
      let c = st.cpus cpu in
      if c.fetch_enabled
      then put_cpu cpu (record c { fetch_enabled = false })
          (call (ioctl_call c.fetch_fd ibs_disable 0) st)
      else st

  unfoldable pub ibs_disable_cpu : ℕ → Files → Files
  ibs_disable_cpu cpu st = if list cpu then disable_fetch cpu (disable_op cpu st) else st

  -- The body of the loops that disable.
  unfoldable pub disable_listed : ℕ → Files → Files
  unfolding ibs_disable_cpu
  disable_listed cpu st = if list cpu then ibs_disable_cpu cpu st else st

  -- The loop of `ibs_disable_all`, from `cpu` on with `left` rounds to go.
  unfoldable pub disable_from : ℕ → ℕ → Files → Files
  unfolding disable_listed
  disable_from zero cpu st = st
  disable_from (suc left) cpu st = disable_from left (cpu + 1) (disable_listed cpu st)

  unfoldable pub ibs_disable_all : ℕ → Files → Files
  unfolding disable_from
  ibs_disable_all num_cpus st = disable_from num_cpus 0 st

  abbrev enable_op : ℕ → Files → Bool × Files
  enable_op cpu st =
      let c = st.cpus cpu in
      let asked = call (ioctl_call c.op_fd ibs_enable 0) st in
      if not (ltb 0 c.op_fd)
      then (true, st)
      else if succeeded (sys.ioctl st.calls c.op_fd ibs_enable 0)
      then (true, put_cpu cpu (record c { op_enabled = true }) asked)
      else (false, asked)

  abbrev enable_fetch : ℕ → Files → Bool × Files
  enable_fetch cpu st =
      let c = st.cpus cpu in
      let asked = call (ioctl_call c.fetch_fd ibs_enable 0) st in
      if not (ltb 0 c.fetch_fd)
      then (true, st)
      else if succeeded (sys.ioctl st.calls c.fetch_fd ibs_enable 0)
      then (true, put_cpu cpu (record c { fetch_enabled = true }) asked)
      else (false, asked)

  unfoldable pub ibs_enable_cpu : ℕ → Files → Bool × Files
  unfolding ibs_disable_cpu
  ibs_enable_cpu cpu st =
      let (op_ok, s1) = enable_op cpu st in
      let (fetch_ok, s2) = enable_fetch cpu s1 in
      if not (list cpu)
      then (false, st)
      else if not op_ok
      then (false, ibs_disable_cpu cpu s1)
      else if not fetch_ok
      then (false, ibs_disable_cpu cpu s2)
      else (true, s2)

  -- The loop at `enable_err`, for the CPUs below `rounds`.
  unfoldable pub disable_down : ℕ → Files → Files
  unfolding disable_listed
  disable_down zero st = st
  disable_down (suc cpu) st = disable_down cpu (disable_listed cpu st)

  -- The body of the loop of `ibs_enable_all`.
  unfoldable pub enable_listed : ℕ → Files → Bool × Files
  unfolding ibs_enable_cpu
  enable_listed cpu st = if list cpu then ibs_enable_cpu cpu st else (true, st)

  -- The loop of `ibs_enable_all`, from `cpu` on with `left` rounds to go.
  unfoldable pub enable_from : ℕ → ℕ → Files → Bool × Files
  unfolding enable_listed disable_down
  enable_from zero cpu st = (true, st)
  enable_from (suc left) cpu st =
      let (ok, tried) = enable_listed cpu st in
      let rest = enable_from left (cpu + 1) tried in
      if ok then rest else (false, disable_down (cpu + 1) tried)

  unfoldable pub ibs_enable_all : ℕ → Files → Bool × Files
  unfolding enable_from
  ibs_enable_all num_cpus st = enable_from num_cpus 0 st
