-- ===== src/Driver/Fops.antt =====
-- The file operations of driver/ibs-fops.c: open, release, read and poll.
pub mod Session
pub mod Wait
pub mod Wake
use amd_ibs_toolkit.Base.{ℕ, zero, suc, ◌+◌, ◌-◌, ◌*◌, ◌/◌, ◌%◌, min, List, [], ◌∷◌, ◌++◌}
use amd_ibs_toolkit.Base.{Bool, true, false, not, ◌||◌, ◌==◌, ltb, leb, if◌then◌else◌}
use amd_ibs_toolkit.Driver.Registers.{Flavor, ibs_op, ibs_fetch, ibs_flavor, ibs_cpu}
use amd_ibs_toolkit.Driver.Device.{
  IbsDev, Sample, Kernel, Sys, Log, Ret, ok, err, emit, acquire, release,
}
use amd_ibs_toolkit.Driver.Device.{
  read_lock, ctl_lock, copied, ebusy, efault, einval, eagain, erestartsys,
}
use amd_ibs_toolkit.Driver.Buffer.{reset_ibs_buffer}
use amd_ibs_toolkit.Driver.Workarounds.{Saved}
use amd_ibs_toolkit.Driver.Control.{
  disable_ibs_op_on_cpu, disable_ibs_fetch_on_cpu, set_ibs_defaults,
}
use amd_ibs_toolkit.Driver.Control.{is_enabled}

-- The device that `ibs_open` takes: `op` and `fetch` are the per-CPU devices.
unfoldable pub select_dev {ℓ} : {A : Type ℓ} → (ℕ → A) → (ℕ → A) → ℕ → A
select_dev op fetch minor = elim (ibs_flavor minor) [
  | ibs_op ↦ op (ibs_cpu minor)
  | ibs_fetch ↦ fetch (ibs_cpu minor)
]

unfoldable pub ibs_open : Sys → Ret × Sys
unfolding set_ibs_defaults reset_ibs_buffer
ibs_open s =
    let dev = record s.dev { in_use = 1 } in
    let fresh = reset_ibs_buffer (set_ibs_defaults dev) in
    if s.dev.in_use == 0
    then (ok 0, record { dev = fresh; log = release ctl_lock ∷ acquire ctl_lock ∷ s.log })
    else (err ebusy, s)

-- The entries at slots `start`, `start + 1` and so on.
abbrev pub slots : (ℕ → Sample) → ℕ → ℕ → List Sample
slots buf start zero = []
slots buf start (suc n) = buf start ∷ slots buf (start + 1) n

-- How a read ends: with a value, or asleep when the list of wake-ups is used up.
pub data Outcome : Type 0 where
  returned : Ret → Outcome
  asleep : Outcome

-- What ends a sleep: a signal, or data, with the device as the interrupts left it.
pub data Wakeup : Type 0 where
  signal : Wakeup
  woken : IbsDev → Wakeup

module _ (k : Kernel) where
  -- `copy_to_user` of `bytes` bytes from slot `start` on; `true` is a failure.
  unfoldable pub copy_to_user : ℕ → ℕ → Sys → Bool × Sys
  copy_to_user start bytes s =
      if k.copy_fails s.log bytes
      then (true, s)
      else (false, emit (copied (slots s.dev.buf start (bytes / s.dev.entry_size))) s)

  -- The end of `do_ibs_read`: the entries that were read are taken off.
  unfoldable pub consume : ℕ → ℕ → Sys → Ret × Sys
  consume rd count s =
      let n = count / s.dev.entry_size in
      let dev = record s.dev { rd = (rd + n) % s.dev.capacity; entries = s.dev.entries - n } in
      (ok count, record s { dev = dev })

  unfoldable pub read_wrapped : ℕ → ℕ → ℕ → Sys → Ret × Sys
  unfolding copy_to_user consume
  read_wrapped rd wr count s =
      let bytes_to_end = (s.dev.capacity - rd) * s.dev.entry_size in
      let (failed, s1) = copy_to_user rd (min count bytes_to_end) s in
      let (failed', s2) = copy_to_user 0 (min (count - bytes_to_end) (wr * s.dev.entry_size)) s1 in
      if failed
      then (err efault, s1)
      else if ltb bytes_to_end count
      then (if failed' then (err efault, s2) else consume rd count s2)
      else consume rd count s1

  -- `do_ibs_read` on the values of `rd`, `wr` and `entries` that its first lines read.
  unfoldable pub do_ibs_read_at : ℕ → ℕ → ℕ → ℕ → Sys → Ret × Sys
  unfolding copy_to_user consume read_wrapped
  do_ibs_read_at rd wr entries asked s =
      let count = min asked (entries * s.dev.entry_size) in
      let (failed, s1) = copy_to_user rd count s in
      if count == 0
      then (ok 0, s)
      else if ltb rd wr
      then (if failed then (err efault, s1) else consume rd count s1)
      else read_wrapped rd wr count s

  unfoldable pub do_ibs_read : ℕ → Sys → Ret × Sys
  unfolding do_ibs_read_at
  do_ibs_read count s = do_ibs_read_at s.dev.rd s.dev.wr s.dev.entries count s

  -- The end of `ibs_read` once there is data.
  abbrev finish_read : ℕ → Sys → Outcome × Sys
  finish_read count s =
      let (ret, s') = do_ibs_read count s in (returned ret, emit (release read_lock) s')

  -- One empty round of the loop of `ibs_read`, up to the wait, which `wait` carries out.
  abbrev empty_round : Bool → (Sys → Outcome × Sys) → Sys → Outcome × Sys
  empty_round nonblock wait s =
      let idle = record s {
        log = release ctl_lock ∷ acquire ctl_lock ∷ release read_lock ∷ s.log;
      } in
      if not (is_enabled s.dev)
      then (returned (ok 0), idle)
      else if nonblock
      then (returned (err eagain), idle)
      else wait idle

  -- The loop of `ibs_read`, entered with the read lock held. The list is what ends each wait.
  unfoldable pub read_loop : Bool → ℕ → List Wakeup → Sys → Outcome × Sys
  unfolding do_ibs_read
  read_loop nonblock count [] s =
      if s.dev.entries == 0
      then empty_round nonblock (λ idle. (asleep, idle)) s
      else finish_read count s
  read_loop nonblock count (signal ∷ later) s =
      if s.dev.entries == 0
      then empty_round nonblock (λ idle. (returned (err erestartsys), idle)) s
      else finish_read count s
  read_loop nonblock count (woken dev ∷ later) s =
      if s.dev.entries == 0
      then empty_round nonblock
          (λ idle.
            read_loop nonblock count later
              (record { dev = dev; log = acquire read_lock ∷ idle.log }))
          s
      else finish_read count s

  unfoldable pub ibs_read : Bool → ℕ → List Wakeup → Sys → Outcome × Sys
  unfolding read_loop
  ibs_read nonblock count wakeups s =
      if ltb count s.dev.entry_size || ltb s.dev.size count
      then (returned (err einval), s)
      else read_loop nonblock (count - count % s.dev.entry_size) wakeups
          (emit (acquire read_lock) s)

  module _ (old : Saved) (this_cpu : ℕ) where
    unfoldable pub ibs_release : Sys → Ret × Sys
    unfolding set_ibs_defaults reset_ibs_buffer
    ibs_release s =
        let dev = s.dev in
        let held = acquire ctl_lock ∷ s.log in
        let off : Log = elim dev.flavor [
          | ibs_op ↦ disable_ibs_op_on_cpu k old this_cpu dev dev.cpu held
          | ibs_fetch ↦ disable_ibs_fetch_on_cpu k old this_cpu dev dev.cpu held
        ] in
        (
          ok 0,
          record {
            dev = record (reset_ibs_buffer (set_ibs_defaults dev)) { in_use = 0 };
            log = release ctl_lock ∷ off;
          },
        )

-- `POLLIN | POLLRDNORM`, `POLLHUP` or 0.
pub data PollMask : Type 0 where
  readable hangup not_ready : PollMask

unfoldable pub ibs_poll : Sys → PollMask × Sys
ibs_poll s =
    let checked = release read_lock ∷ acquire read_lock ∷ s.log in
    let s' = record s { log = release ctl_lock ∷ acquire ctl_lock ∷ checked } in
    if leb s.dev.poll_threshold s.dev.entries
    then (readable, record s { log = checked })
    else if not (is_enabled s.dev)
    then (hangup, s')
    else (not_ready, s')
