-- ===== src/Driver/Locks/Keep.antt =====
-- The locks of the device across the workarounds and the switches of driver/ibs-fops.c.
use amd_ibs_toolkit.Base.{ℕ, ◌≡◌, arith}
use amd_ibs_toolkit.Driver.Device.{IbsDev, Kernel, Log}
use amd_ibs_toolkit.Driver.Workarounds.{Saved}
use amd_ibs_toolkit.Driver.Workarounds.{start_fam17h_zn_dyn_workaround}
use amd_ibs_toolkit.Driver.Workarounds.{stop_fam17h_zn_dyn_workaround, do_fam10h_workaround_420}
use amd_ibs_toolkit.Driver.Control.{enable_ibs_op_on_cpu, disable_ibs_op_on_cpu}
use amd_ibs_toolkit.Driver.Control.{enable_ibs_fetch_on_cpu, disable_ibs_fetch_on_cpu}
use amd_ibs_toolkit.Driver.Locks.{ctl_held, read_held}

-- Both locks are as they were.
pub record Keeps (before after : Log) : Type 0 where
  pub ctl : ctl_held after ≡ ctl_held before
  pub read : read_held after ≡ read_held before

module _ (k : Kernel) where
  start_zn-Keeps : (cpu : ℕ) (log : Log) → Keeps log (start_fam17h_zn_dyn_workaround k cpu log)
  unfolding start_fam17h_zn_dyn_workaround
  start_zn-Keeps cpu log = ground arith

  module _ (old : Saved) (this_cpu : ℕ) where
    stop_zn-Keeps : (cpu : ℕ) (log : Log) → Keeps log (stop_fam17h_zn_dyn_workaround k old cpu log)
    unfolding stop_fam17h_zn_dyn_workaround
    stop_zn-Keeps cpu log = ground arith

    workaround_420-Keeps :
        (cpu : ℕ) (log : Log) → Keeps log (do_fam10h_workaround_420 k this_cpu cpu log)
    unfolding do_fam10h_workaround_420
    workaround_420-Keeps cpu log = ground arith

    pub enable_op-Keeps :
        (dev : IbsDev) (cpu v : ℕ) (log : Log)
        → Keeps log (enable_ibs_op_on_cpu k old this_cpu dev cpu v log)
    unfolding enable_ibs_op_on_cpu
    enable_op-Keeps dev cpu v log = ground (arith, start_zn-Keeps cpu log)

    pub enable_fetch-Keeps :
        (dev : IbsDev) (cpu v : ℕ) (log : Log)
        → Keeps log (enable_ibs_fetch_on_cpu k old this_cpu dev cpu v log)
    unfolding enable_ibs_fetch_on_cpu
    enable_fetch-Keeps dev cpu v log = ground (arith, start_zn-Keeps cpu log)

    pub disable_op-Keeps :
        (dev : IbsDev) (cpu : ℕ) (log : Log)
        → Keeps log (disable_ibs_op_on_cpu k old this_cpu dev cpu log)
    unfolding disable_ibs_op_on_cpu
    disable_op-Keeps dev cpu log = grind (arith, stop_zn-Keeps, workaround_420-Keeps)

    pub disable_fetch-Keeps :
        (dev : IbsDev) (cpu : ℕ) (log : Log)
        → Keeps log (disable_ibs_fetch_on_cpu k old this_cpu dev cpu log)
    unfolding disable_ibs_fetch_on_cpu
    disable_fetch-Keeps dev cpu log = grind (arith, stop_zn-Keeps)
