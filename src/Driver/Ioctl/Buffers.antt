-- ===== src/Driver/Ioctl/Buffers.antt =====
-- `ibs_ioctl` and the sample buffer.
use amd_ibs_toolkit.Base.{ℕ, ◌/◌, ◌^◌, ◌≤◌, ◌<◌, ◌≡◌, ◌≢◌, refl, arith, true, false}
use amd_ibs_toolkit.Base.{◌∷◌, ◌&&◌, Bool-cases, inl, inr, none, le→ltb, ne→==}
use amd_ibs_toolkit.Driver.Buffer.{setup_ibs_buffer, free_ibs_buffer}
use mathlib.Core.Bool.{false≢true}
use amd_ibs_toolkit.Driver.Registers.{Flavor}
use amd_ibs_toolkit.Driver.Device.{IbsDev, Kernel, Log, Sys, err, ebusy, enomem, acquire, ctl_lock}
use amd_ibs_toolkit.Driver.Workarounds.{Saved}
use amd_ibs_toolkit.Driver.Control.{is_enabled}
use amd_ibs_toolkit.Driver.Ring.{IsValid}
use amd_ibs_toolkit.Driver.Ioctl

div_pos : (a b : ℕ) → 0 < b → b ≤ a → 0 < a / b
div_pos a b pos le = grind arith

module _ (k : Kernel) (old : Saved) (this_cpu : ℕ) where
  -- A setter is refused with EBUSY while IBS is enabled, and changes nothing of the device.
  setter_busy :
      (cmd : Ioctl.Command) (arg : ℕ) (s : Sys)
      → Ioctl.is_setter cmd ≡ true
      → is_enabled s.dev ≡ true
      → let (ret, s') = Ioctl.ibs_ioctl k old this_cpu cmd arg s in
        (ret ≡ err ebusy) × (s'.dev ≡ s.dev)
  unfolding Ioctl.ibs_ioctl
  setter_busy Ioctl.Command.set_cur_cnt arg s h on = rw on (refl, refl)
  setter_busy Ioctl.Command.set_cnt arg s h on = rw on (refl, refl)
  setter_busy Ioctl.Command.set_max_cnt arg s h on = rw on (refl, refl)
  setter_busy Ioctl.Command.set_cnt_ctl arg s h on = rw on (refl, refl)
  setter_busy Ioctl.Command.set_rand_en arg s h on = rw on (refl, refl)
  setter_busy Ioctl.Command.set_poll_size arg s h on = rw on (refl, refl)
  setter_busy Ioctl.Command.set_buffer_size arg s h on = rw on (refl, refl)
  setter_busy Ioctl.Command.reset_buffer arg s h on = rw on (refl, refl)
  setter_busy _ arg s h on = absurd (false≢true h)

  -- A command that sets the size of the buffer by a number that fits the indices.
  abbrev pub SizeFits : IbsDev → Ioctl.Command → ℕ → Type 0
  SizeFits dev Ioctl.Command.set_buffer_size arg = arg / dev.entry_size < 2 ^ 32
  SizeFits dev _ arg = Unit {0}

  resize-IsValid :
      (arg : ℕ) (s : Sys)
      → arg / s.dev.entry_size < 2 ^ 32
      → IsValid s.dev
      → IsValid (Ioctl.resize_buffer k old this_cpu arg s).1.dev
  unfolding Ioctl.resize_buffer
  resize-IsValid arg s fits v = ground (arith, div_pos arg s.dev.entry_size)

  switch_on-dev :
      (f : Flavor) (s : Sys)
      → IsValid s.dev
      → IsValid (Ioctl.switch_on k old this_cpu f s).dev
        × IsValid (Ioctl.switch_off k old this_cpu f s).dev
  switch_on-dev f s v = (ground arith, ground arith)

  locked_command-IsValid :
      (cmd : Ioctl.Command) (arg : ℕ) (s : Sys)
      → SizeFits s.dev cmd arg
      → IsValid s.dev
      → IsValid (Ioctl.locked_command k old this_cpu cmd arg s).1.dev
  unfolding Ioctl.locked_command
  locked_command-IsValid Ioctl.Command.set_buffer_size arg s fits v = resize-IsValid arg s fits v
  locked_command-IsValid _ arg s fits v = ground arith

  under_lock-IsValid :
      (cmd : Ioctl.Command) (arg : ℕ) (s : Sys)
      → SizeFits s.dev cmd arg
      → IsValid s.dev
      → IsValid (Ioctl.under_lock k old this_cpu cmd arg s).1.dev
  under_lock-IsValid cmd arg s fits v =
      elim (Bool-cases (Ioctl.is_setter cmd && is_enabled s.dev)) [
        | inl busy ↦ rw busy v
        | inr free ↦
            rw free
              (locked_command-IsValid cmd arg (record s { log = acquire ctl_lock ∷ s.log }) fits v)
      ]

  -- Every command leaves a valid ring valid, if the capacity that a new buffer size gives fits
  -- the indices.
  pub ibs_ioctl-IsValid :
      (cmd : Ioctl.Command) (arg : ℕ) (s : Sys)
      → SizeFits s.dev cmd arg
      → IsValid s.dev
      → IsValid (Ioctl.ibs_ioctl k old this_cpu cmd arg s).1.dev
  unfolding Ioctl.ibs_ioctl
  ibs_ioctl-IsValid Ioctl.Command.debug_buffer arg s fits v = v
  ibs_ioctl-IsValid Ioctl.Command.get_lost arg s fits v = omega arith
  ibs_ioctl-IsValid Ioctl.Command.fionread arg s fits v = v
  ibs_ioctl-IsValid cmd arg s fits v = under_lock-IsValid cmd arg s fits v

  -- With IBS off, a new size of at least one entry, other than the present one, for which
  -- there is no memory: the call fails with ENOMEM, the old buffer is freed all the same, and
  -- the size, the capacity and the positions go on describing it.
  failed_resize :
      (arg : ℕ) (s : Sys)
      → is_enabled s.dev ≡ false
      → s.dev.entry_size ≤ arg
      → arg ≢ s.dev.size
      → 0 < arg
      → ((log : Log) → k.vmalloc log arg ≡ none)
      → let (ret, s') = Ioctl.ibs_ioctl k old this_cpu Ioctl.Command.set_buffer_size arg s in
        (ret ≡ err enomem) × (s'.dev ≡ record s.dev { mapped = false })
  unfolding Ioctl.ibs_ioctl Ioctl.resize_buffer setup_ibs_buffer free_ibs_buffer
  failed_resize arg s off large other pos no_memory =
      rw
        (
          off,
          le→ltb _ _ large,
          ne→== _ _ other,
          ne→== arg 0 (λ e. omega (arith, e, pos)),
          no_memory,
        )
        (refl, refl)
