-- ===== src/Driver/Ioctl/Memory.antt =====
-- `ibs_ioctl` of driver/ibs-fops.c and the memory of the sample buffer.
use amd_ibs_toolkit.Base.{
  ℕ, ◌<◌, ◌≡◌, arith, Bool, true, false, not, ◌∷◌, ◌&&◌, ◌==◌, Bool-cases, inl, inr,
}
use amd_ibs_toolkit.Driver.Device.{IbsDev, Kernel, Sys, Ret, err, enomem, acquire, ctl_lock}
use amd_ibs_toolkit.Driver.Workarounds.{Saved}
use amd_ibs_toolkit.Driver.Control.{is_enabled}
use amd_ibs_toolkit.Driver.Ioctl

abbrev pub is_enomem : Ret → Bool
is_enomem (err enomem) = true
is_enomem _ = false

-- The device has its buffer, or the call answered ENOMEM and what describes the buffer is as
-- before the call.
pub record KeepsBuffer (dev : IbsDev) (r : Ret × Sys) : Type 0 where
  pub mapped : r.1.dev.mapped ≡ not (is_enomem r.0)
  pub size : (is_enomem r.0 && not (r.1.dev.size == dev.size)) ≡ false
  pub capacity : (is_enomem r.0 && not (r.1.dev.capacity == dev.capacity)) ≡ false
  pub entries : (is_enomem r.0 && not (r.1.dev.entries == dev.entries)) ≡ false

module _ (k : Kernel) (old : Saved) (this_cpu : ℕ) where
  resize-KeepsBuffer :
      (arg : ℕ) (s : Sys)
      → 0 < s.dev.entry_size
      → s.dev.mapped ≡ true
      → KeepsBuffer s.dev (Ioctl.resize_buffer k old this_cpu arg s)
  unfolding Ioctl.resize_buffer
  resize-KeepsBuffer arg s pos there = ground (arith, pos, there)

  locked_command-KeepsBuffer :
      (cmd : Ioctl.Command) (arg : ℕ) (s : Sys)
      → 0 < s.dev.entry_size
      → s.dev.mapped ≡ true
      → KeepsBuffer s.dev (Ioctl.locked_command k old this_cpu cmd arg s)
  unfolding Ioctl.locked_command
  locked_command-KeepsBuffer Ioctl.Command.set_buffer_size arg s pos there =
      resize-KeepsBuffer arg s pos there
  locked_command-KeepsBuffer _ arg s pos there = ground (arith, there)

  under_lock-KeepsBuffer :
      (cmd : Ioctl.Command) (arg : ℕ) (s : Sys)
      → 0 < s.dev.entry_size
      → s.dev.mapped ≡ true
      → KeepsBuffer s.dev (Ioctl.under_lock k old this_cpu cmd arg s)
  under_lock-KeepsBuffer cmd arg s pos there =
      elim (Bool-cases (Ioctl.is_setter cmd && is_enabled s.dev)) [
        | inl busy ↦ rw busy (ground (arith, there))
        | inr free ↦
            let kept =
              locked_command-KeepsBuffer cmd arg (record s { log = acquire ctl_lock ∷ s.log }) pos
                there in
            rw free (record {
              mapped = kept.mapped;
              size = kept.size;
              capacity = kept.capacity;
              entries = kept.entries;
            })
      ]

  -- Whatever the command, a device that has a buffer and entries of a positive size is left
  -- without its buffer exactly when the call answers ENOMEM; its size, its capacity and its
  -- number of entries then go on describing the buffer that is gone.
  pub ibs_ioctl-KeepsBuffer :
      (cmd : Ioctl.Command) (arg : ℕ) (s : Sys)
      → 0 < s.dev.entry_size
      → s.dev.mapped ≡ true
      → KeepsBuffer s.dev (Ioctl.ibs_ioctl k old this_cpu cmd arg s)
  unfolding Ioctl.ibs_ioctl
  ibs_ioctl-KeepsBuffer Ioctl.Command.debug_buffer arg s pos there = ground (arith, there)
  ibs_ioctl-KeepsBuffer Ioctl.Command.get_lost arg s pos there = ground (arith, there)
  ibs_ioctl-KeepsBuffer Ioctl.Command.fionread arg s pos there = ground (arith, there)
  ibs_ioctl-KeepsBuffer cmd arg s pos there = under_lock-KeepsBuffer cmd arg s pos there
