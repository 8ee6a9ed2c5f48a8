-- ===== src/Monitor/Sampling.antt =====
-- Sampling in tools/ibs_monitor/ibs_monitor.c: `enable_ibs_flavors`, `reset_ibs_buffers`,
-- `read_and_write_op_data`, `read_and_write_fetch_data`, `poll_ibs`, `flush_ibs_buffers`,
-- `disable_ibs` and the loop of `main`. `fwrite` is taken to write all it is given.
pub mod Statistics
pub mod Descriptors
use amd_ibs_toolkit.Base.{
  ℕ, zero, suc, ◌+◌, ◌-◌, ◌*◌, ◌/◌, ◌%◌, ◌^◌, Bool, true, false, ◌==◌, if◌then◌else◌,
}
use amd_ibs_toolkit.Base.{Option, none, some, ◌>>=◌, List, [], ◌∷◌, ◌++◌}
use amd_ibs_toolkit.Driver.Registers.{Flavor, ibs_op, ibs_fetch}
use amd_ibs_toolkit.Driver.Device.{IbsOp, IbsFetch}
use amd_ibs_toolkit.Driver.Cpus.{size_of_ibs_op, size_of_ibs_fetch}
use amd_ibs_toolkit.Driver.Ioctl.{Command, ibs_enable, ibs_disable, set_buffer_size, set_poll_size}
use amd_ibs_toolkit.Driver.Ioctl.{set_max_cnt, reset_buffer, get_lost}
use amd_ibs_toolkit.Library.State.{System, Call, ReadData, ioctl_call, open_failed, opened}
use amd_ibs_toolkit.Library.State.{close_call, read_call}

-- What the monitor counts and writes, and the calls so far, newest first. A file is `none` where
-- its flavor was not asked for.
pub record Sampler : Type 0 where
  pub calls : List Call
  pub n_op_samples : ℕ
  pub n_fetch_samples : ℕ
  pub n_lost_op_samples : ℕ
  pub n_lost_fetch_samples : ℕ
  pub op_file : Option (List IbsOp)
  pub fetch_file : Option (List IbsFetch)

-- What `poll` returns: an error, the end of the timeout, or `revents` by descriptor.
pub data Polled : Type 0 where
  poll_error nothing_ready : Polled
  ready : (ℕ → Bool) → Polled

-- The first `n` structures of a buffer.
abbrev pub items_of {ℓ} : {A : Type ℓ} → ℕ → (ℕ → A) → List A
items_of zero buffer = []
items_of (suc n) buffer = items_of n buffer ++ (buffer n ∷ [])

abbrev write {ℓ} : {A : Type ℓ} → List A → Option (List A) → Option (List A)
write items none = none
write items (some written) = some (written ++ items)

-- An `unsigned long` plus the `int` that `ioctl` returned.
abbrev add_lost : ℕ → Option ℕ → ℕ
add_lost n none = (n + (2 ^ 64 - 1)) % 2 ^ 64
add_lost n (some lost) = (n + lost) % 2 ^ 64

abbrev pub call : Call → Sampler → Sampler
call c st = record st { calls = c ∷ st.calls }

-- The values that `enable_ibs_flavors` sets on a device.
pub record Setup : Type 0 where
  pub buffer_size : ℕ
  pub poll_entries : ℕ
  pub max_cnt : ℕ

module _ (sys : System) where
  unfoldable pub ask : Command → ℕ → ℕ → Sampler → Sampler
  ask cmd arg fd st = call (ioctl_call fd cmd arg) st

  -- The test of `IBS_ENABLE`: 0 is success.
  abbrev pub is_zero : Option ℕ → Bool
  is_zero none = false
  is_zero (some n) = n == 0

  -- A round of a loop of `enable_ibs_flavors` from `open` on; the descriptors kept so far are in
  -- the order of `fds`.
  unfoldable pub enable_device : Setup → Flavor → ℕ → Option ℕ → List ℕ × Sampler → List ℕ × Sampler
  unfolding ask
  enable_device u flavor cpu none (fds, st) = (fds, call (open_failed flavor cpu) st)
  enable_device u flavor cpu (some fd) (fds, st) =
      let s1 = ask set_buffer_size u.buffer_size fd (call (opened flavor cpu fd) st) in
      let s2 = ask set_max_cnt u.max_cnt fd (ask set_poll_size u.poll_entries fd s1) in
      let s3 = ask ibs_enable 0 fd s2 in
      if is_zero (sys.ioctl s2.calls fd ibs_enable 0) then (fds ++ (fd ∷ []), s3) else (fds, s3)

  unfoldable pub enable_online :
      Setup → Flavor → (ℕ → Bool) → ℕ → List ℕ × Sampler → List ℕ × Sampler
  unfolding enable_device
  enable_online u flavor cpu_list cpu (fds, st) =
      let tried = enable_device u flavor cpu (sys.open_device st.calls flavor cpu) (fds, st) in
      if cpu_list cpu then tried else (fds, st)

  -- The loop for one flavor, from `cpu` on with `left` rounds to go.
  unfoldable pub enable_flavor :
      Setup → Flavor → (ℕ → Bool) → ℕ → ℕ → List ℕ × Sampler → List ℕ × Sampler
  unfolding enable_online
  enable_flavor u flavor cpu_list zero cpu out = out
  enable_flavor u flavor cpu_list (suc left) cpu out =
      enable_flavor u flavor cpu_list left (cpu + 1) (enable_online u flavor cpu_list cpu out)

  -- `reset_ibs_buffers`
  unfoldable pub reset_ibs_buffers : List ℕ → Sampler → Sampler
  unfolding ask
  reset_ibs_buffers [] st = st
  reset_ibs_buffers (fd ∷ fds) st = reset_ibs_buffers fds (ask reset_buffer 0 fd st)

  -- What follows `read`; `none` is a negative return value.
  unfoldable pub keep_op_data : ℕ → Option ReadData → Sampler → Sampler
  unfolding ask
  keep_op_data fd none st = st
  keep_op_data fd (some d) st =
      let n = d.bytes_read / size_of_ibs_op in
      let kept = record st {
        op_file = write (items_of n d.ops) st.op_file;
        n_op_samples = (st.n_op_samples + n) % 2 ^ 64;
        n_lost_op_samples = add_lost st.n_lost_op_samples (sys.ioctl st.calls fd get_lost 0);
      } in
      if d.bytes_read == 0 then st else ask get_lost 0 fd kept

  unfoldable pub read_and_write_op_data : ℕ → ℕ → Sampler → Sampler
  unfolding keep_op_data
  read_and_write_op_data buffer_size fd st =
      keep_op_data fd (sys.read st.calls fd buffer_size) (call (read_call fd buffer_size) st)

  unfoldable pub keep_fetch_data : ℕ → Option ReadData → Sampler → Sampler
  unfolding ask
  keep_fetch_data fd none st = st
  keep_fetch_data fd (some d) st =
      let n = d.bytes_read / size_of_ibs_fetch in
      let kept = record st {
        fetch_file = write (items_of n d.fetches) st.fetch_file;
        n_fetch_samples = (st.n_fetch_samples + n) % 2 ^ 64;
        n_lost_fetch_samples = add_lost st.n_lost_fetch_samples (sys.ioctl st.calls fd get_lost 0);
      } in
      if d.bytes_read == 0 then st else ask get_lost 0 fd kept

  unfoldable pub read_and_write_fetch_data : ℕ → ℕ → Sampler → Sampler
  unfolding keep_fetch_data
  read_and_write_fetch_data buffer_size fd st =
      keep_fetch_data fd (sys.read st.calls fd buffer_size) (call (read_call fd buffer_size) st)

  -- The two loops of `poll_ibs` and `flush_ibs_buffers`, over the descriptors that are ready.
  unfoldable pub read_ops : ℕ → (ℕ → Bool) → List ℕ → Sampler → Sampler
  unfolding read_and_write_op_data
  read_ops size revents [] st = st
  read_ops size revents (fd ∷ fds) st =
      read_ops size revents fds (if revents fd then read_and_write_op_data size fd st else st)

  unfoldable pub read_fetches : ℕ → (ℕ → Bool) → List ℕ → Sampler → Sampler
  unfolding read_and_write_fetch_data
  read_fetches size revents [] st = st
  read_fetches size revents (fd ∷ fds) st =
      read_fetches size revents fds
        (if revents fd then read_and_write_fetch_data size fd st else st)

  -- `none` stands for `exit`.
  unfoldable pub poll_ibs : ℕ → List ℕ → List ℕ → Polled → Sampler → Option Sampler
  unfolding read_ops read_fetches
  poll_ibs size op_fds fetch_fds poll_error st = none
  poll_ibs size op_fds fetch_fds nothing_ready st = some st
  poll_ibs size op_fds fetch_fds (ready revents) st =
      some (read_fetches size revents fetch_fds (read_ops size revents op_fds st))

  unfoldable pub flush_ibs_buffers : ℕ → List ℕ → List ℕ → Sampler → Sampler
  unfolding read_ops read_fetches
  flush_ibs_buffers size op_fds fetch_fds st =
      let all = λ (fd : ℕ). true in read_fetches size all fetch_fds (read_ops size all op_fds st)

  unfoldable pub disable_ibs : List ℕ → Sampler → Sampler
  unfolding ask
  disable_ibs [] st = st
  disable_ibs (fd ∷ fds) st = disable_ibs fds (call (close_call fd) (ask ibs_disable 0 fd st))

  -- The loop of `main` over what `poll` answers until the child has ended.
  unfoldable pub poll_all : ℕ → List ℕ → List ℕ → List Polled → Sampler → Option Sampler
  unfolding poll_ibs
  poll_all size op_fds fetch_fds [] st = some st
  poll_all size op_fds fetch_fds (p ∷ polls) st = do
    next ← poll_ibs size op_fds fetch_fds p st
    poll_all size op_fds fetch_fds polls next

  -- `main` in the parent, from `reset_ibs_buffers` to `disable_ibs`.
  unfoldable pub sample : ℕ → List ℕ → List ℕ → List Polled → Sampler → Option Sampler
  unfolding reset_ibs_buffers poll_all flush_ibs_buffers disable_ibs
  sample size op_fds fetch_fds polls st = do
    polled ← poll_all size op_fds fetch_fds polls (reset_ibs_buffers (op_fds ++ fetch_fds) st)
    some (disable_ibs (op_fds ++ fetch_fds) (flush_ibs_buffers size op_fds fetch_fds polled))

-- The counters and files when `enable_ibs_flavors` starts.
abbrev pub cleared : Sampler → Sampler
cleared st = record st {
  n_op_samples = 0;
  n_fetch_samples = 0;
  n_lost_op_samples = 0;
  n_lost_fetch_samples = 0;
}

unfoldable pub enable_ibs_flavors :
    System → Setup → Setup → Bool → Bool → (ℕ → Bool) → ℕ → Sampler → (List ℕ × List ℕ) × Sampler
unfolding enable_flavor
enable_ibs_flavors sys op fetch want_op want_fetch cpu_list num_cpus st =
    let start : List ℕ × Sampler = ([], cleared st) in
    let (ops, s1) =
      if want_op then enable_flavor sys op ibs_op cpu_list num_cpus 0 start else start in
    let second : List ℕ × Sampler = ([], s1) in
    let (fetches, s2) =
      if want_fetch then enable_flavor sys fetch ibs_fetch cpu_list num_cpus 0 second else second in
    ((ops, fetches), s2)
