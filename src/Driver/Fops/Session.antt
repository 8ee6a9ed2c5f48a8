-- ===== src/Driver/Fops/Session.antt =====
-- `ibs_open` and `ibs_release` of driver/ibs-fops.c.
use amd_ibs_toolkit.Base.{
  ℕ, [], ◌∷◌, ◌≡◌, ◌≢◌, refl, ne→==, Bool, true, false, arith, Option, none, some, ◌&&◌, ◌==◌,
  if◌then◌else◌, ◌∙◌,
}
use amd_ibs_toolkit.Driver.Scatter.{is_set, scatter_bits, scatter_loop}
use amd_ibs_toolkit.Driver.Registers.{Flavor, ibs_op, ibs_fetch, msr_ibs_op_ctl, msr_ibs_fetch_ctl}
use amd_ibs_toolkit.Driver.Device.{IbsDev, Kernel, Log, Sys, ok, err, ebusy, wrmsr}
use amd_ibs_toolkit.Driver.Buffer.{reset_ibs_buffer}
use amd_ibs_toolkit.Driver.Workarounds.{
  Saved, stop_fam17h_zn_dyn_workaround, disable_fam17h_zn_dyn_workaround,
}
use amd_ibs_toolkit.Driver.Control.{
  set_ibs_defaults, is_enabled, enable_mask, default_ctl, stop_zn, disable_ibs_op,
  disable_ibs_op_on_cpu, disable_ibs_fetch_on_cpu,
}
use amd_ibs_toolkit.Driver.Fops.{ibs_open, ibs_release}
use amd_ibs_toolkit.Driver.Ring.{IsValid, contents}

-- A device that is open is refused with EBUSY, untouched.
pub ibs_open-busy : (s : Sys) → s.dev.in_use ≢ 0 → ibs_open s ≡ (err ebusy, s)
unfolding ibs_open
ibs_open-busy s used = rw (ne→== s.dev.in_use 0 used) refl

default_ctl-off : (f : Flavor) (ext : Bool) → is_set (default_ctl f ext) (enable_mask f) ≡ false
unfolding scatter_bits scatter_loop
default_ctl-off ibs_op true = refl
default_ctl-off ibs_op false = refl
default_ctl-off ibs_fetch ext = refl

-- A session that has just begun or ended: IBS is off and the ring is empty.
pub record IsFresh (dev : IbsDev) : Type 0 where
  pub off : is_enabled dev ≡ false
  pub none_waiting : contents dev ≡ []
  pub none_lost : dev.lost ≡ 0
  pub valid : IsValid dev

defaults-IsFresh : (dev : IbsDev) → IsValid dev → IsFresh (reset_ibs_buffer (set_ibs_defaults dev))
unfolding reset_ibs_buffer set_ibs_defaults
defaults-IsFresh dev v = record {
  off = default_ctl-off dev.flavor dev.ibs_op_cnt_ext_supported;
  none_waiting = refl;
  none_lost = refl;
  valid = ground arith;
}

-- Opening a device that is free and has a valid ring succeeds, takes the device, and leaves
-- IBS off, no sample waiting or lost, and a valid ring.
pub ibs_open-IsFresh :
    (s : Sys)
    → s.dev.in_use ≡ 0
    → IsValid s.dev
    → let (ret, s') = ibs_open s in (ret ≡ ok 0) × (s'.dev.in_use ≡ 1) × IsFresh s'.dev
unfolding ibs_open reset_ibs_buffer set_ibs_defaults
ibs_open-IsFresh s free v =
    rw free (refl, refl, defaults-IsFresh (record s.dev { in_use = 1 }) (ground arith))

-- The value that the driver wrote last to a register of a CPU.
abbrev pub last_written : ℕ → ℕ → Log → Option ℕ
last_written cpu reg [] = none
last_written cpu reg (wrmsr c r v ∷ log) =
    if c == cpu && r == reg then some v else last_written cpu reg log
last_written cpu reg (_ ∷ log) = last_written cpu reg log

-- The register that controls the sampling of a flavor.
abbrev pub ctl_register : Flavor → ℕ
ctl_register ibs_op = msr_ibs_op_ctl
ctl_register ibs_fetch = msr_ibs_fetch_ctl

module _ (k : Kernel) (old : Saved) (this_cpu : ℕ) where
  stop_zn-last_written :
      (f : Flavor) (dev : IbsDev) (cpu : ℕ) (log : Log)
      → last_written cpu (ctl_register f) (stop_zn k old this_cpu dev cpu log)
        ≡ last_written cpu (ctl_register f) log
  unfolding stop_fam17h_zn_dyn_workaround disable_fam17h_zn_dyn_workaround
  stop_zn-last_written ibs_op dev cpu log = ground arith
  stop_zn-last_written ibs_fetch dev cpu log = ground arith

  -- The two ways to switch a device off end with a 0 in its control register.
  disable_op-last_written :
      (dev : IbsDev) (cpu : ℕ) (log : Log)
      → last_written cpu msr_ibs_op_ctl (disable_ibs_op_on_cpu k old this_cpu dev cpu log) ≡ some 0
  unfolding disable_ibs_op_on_cpu disable_ibs_op
  disable_op-last_written dev cpu log =
      let same : (cpu == cpu) ≡ true = ground arith in
      stop_zn-last_written ibs_op dev cpu _ ∙ simp same refl

  disable_fetch-last_written :
      (dev : IbsDev) (cpu : ℕ) (log : Log)
      → last_written cpu msr_ibs_fetch_ctl (disable_ibs_fetch_on_cpu k old this_cpu dev cpu log)
        ≡ some 0
  unfolding disable_ibs_fetch_on_cpu
  disable_fetch-last_written dev cpu log =
      let same : (cpu == cpu) ≡ true = ground arith in
      stop_zn-last_written ibs_fetch dev cpu _ ∙ simp same refl

  ibs_release-last_written :
      (flavor : Flavor) (s : Sys)
      → s.dev.flavor ≡ flavor
      → last_written s.dev.cpu (ctl_register flavor) (ibs_release k old this_cpu s).1.log ≡ some 0
  unfolding ibs_release
  ibs_release-last_written ibs_op s e = rw e (disable_op-last_written s.dev s.dev.cpu _)
  ibs_release-last_written ibs_fetch s e = rw e (disable_fetch-last_written s.dev s.dev.cpu _)

  -- A release of a device with a valid ring succeeds, writes 0 last to the control register of
  -- its flavor on its CPU, so that the hardware is off, and leaves IBS off in the device, no
  -- sample waiting or lost, and a valid ring; the next open succeeds.
  pub ibs_release-ibs_open :
      (s : Sys)
      → IsValid s.dev
      → let (ret, s') = ibs_release k old this_cpu s in
        (ret ≡ ok 0)
        × (last_written s.dev.cpu (ctl_register s.dev.flavor) s'.log ≡ some 0)
        × IsFresh s'.dev
        × ((ibs_open s').0 ≡ ok 0)
  unfolding ibs_release ibs_open reset_ibs_buffer set_ibs_defaults
  ibs_release-ibs_open s v = (
    refl,
    ibs_release-last_written s.dev.flavor s refl,
    record {
      off = default_ctl-off s.dev.flavor s.dev.ibs_op_cnt_ext_supported;
      none_waiting = refl;
      none_lost = refl;
      valid = ground arith;
    },
    refl,
  )
