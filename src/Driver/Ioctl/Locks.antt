-- ===== src/Driver/Ioctl/Locks.antt =====
-- `ibs_ioctl` and the locks of the device.
use amd_ibs_toolkit.Base.{ℕ, ◌≡◌, refl, arith, false, ◌∷◌, Bool-cases, inl, inr}
use amd_ibs_toolkit.Base.{◌&&◌}
use amd_ibs_toolkit.Driver.Registers.{Flavor, ibs_op, ibs_fetch}
use amd_ibs_toolkit.Driver.Device.{Kernel, Sys, Ret, acquire, ctl_lock}
use amd_ibs_toolkit.Driver.Workarounds.{Saved}
use amd_ibs_toolkit.Driver.Locks.{ctl_held, read_held}
use amd_ibs_toolkit.Driver.Locks.Keep.{Keeps, enable_op-Keeps, enable_fetch-Keeps}
use amd_ibs_toolkit.Driver.Locks.Keep.{disable_op-Keeps, disable_fetch-Keeps}
use amd_ibs_toolkit.Driver.Control.{is_enabled}
use amd_ibs_toolkit.Driver.Ioctl

module _ (k : Kernel) (old : Saved) (this_cpu : ℕ) where
  resize-Keeps : (arg : ℕ) (s : Sys) → Keeps s.log (Ioctl.resize_buffer k old this_cpu arg s).1.log
  unfolding Ioctl.resize_buffer
  resize-Keeps arg s = ground arith

  switch_on-Keeps : (f : Flavor) (s : Sys) → Keeps s.log (Ioctl.switch_on k old this_cpu f s).log
  switch_on-Keeps ibs_op s = enable_op-Keeps k old this_cpu _ _ _ s.log
  switch_on-Keeps ibs_fetch s = enable_fetch-Keeps k old this_cpu _ _ _ s.log

  switch_off-Keeps : (f : Flavor) (s : Sys) → Keeps s.log (Ioctl.switch_off k old this_cpu f s).log
  switch_off-Keeps ibs_op s = disable_op-Keeps k old this_cpu _ _ s.log
  switch_off-Keeps ibs_fetch s = disable_fetch-Keeps k old this_cpu _ _ s.log

  locked_command-Keeps :
      (cmd : Ioctl.Command) (arg : ℕ) (s : Sys)
      → Keeps s.log (Ioctl.locked_command k old this_cpu cmd arg s).1.log
  unfolding Ioctl.locked_command
  locked_command-Keeps Ioctl.Command.ibs_enable arg s = switch_on-Keeps s.dev.flavor s
  locked_command-Keeps Ioctl.Command.ibs_disable arg s = switch_off-Keeps s.dev.flavor s
  locked_command-Keeps Ioctl.Command.set_buffer_size arg s = resize-Keeps arg s
  locked_command-Keeps _ arg s = ground arith

  -- What a command leaves of the locks when the control lock was free.
  abbrev Unlocks : Sys → Ret × Sys → Type 0
  Unlocks s out = (ctl_held out.1.log ≡ false) × (read_held out.1.log ≡ read_held s.log)

  under_lock-Unlocks :
      (cmd : Ioctl.Command) (arg : ℕ) (s : Sys)
      → Unlocks s (Ioctl.under_lock k old this_cpu cmd arg s)
  under_lock-Unlocks cmd arg s = elim (Bool-cases (Ioctl.is_setter cmd && is_enabled s.dev)) [
    | inl busy ↦ rw busy (refl, refl)
    | inr fine ↦
        rw fine
          (refl, (locked_command-Keeps cmd arg (record s { log = acquire ctl_lock ∷ s.log })).read)
  ]

  -- A command that starts with the control lock free ends with it free, on every path, and with
  -- the read lock as it was.
  pub ibs_ioctl-Unlocks :
      (cmd : Ioctl.Command) (arg : ℕ) (s : Sys)
      → ctl_held s.log ≡ false
      → (ctl_held (Ioctl.ibs_ioctl k old this_cpu cmd arg s).1.log ≡ false)
        × (read_held (Ioctl.ibs_ioctl k old this_cpu cmd arg s).1.log ≡ read_held s.log)
  unfolding Ioctl.ibs_ioctl
  ibs_ioctl-Unlocks Ioctl.Command.debug_buffer arg s free = (free, refl)
  ibs_ioctl-Unlocks Ioctl.Command.get_lost arg s free = (free, refl)
  ibs_ioctl-Unlocks Ioctl.Command.fionread arg s free = (free, refl)
  ibs_ioctl-Unlocks cmd arg s free = under_lock-Unlocks cmd arg s
