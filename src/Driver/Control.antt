-- ===== src/Driver/Control.antt =====
-- Enabling, disabling and the defaults: the static functions at the head of driver/ibs-fops.c.
use amd_ibs_toolkit.Base.{ℕ, bit_or, ◌∷◌, Bool, true, false, if◌then◌else◌}
use amd_ibs_toolkit.Driver.Scatter.{is_set, scatter_bits}
use amd_ibs_toolkit.Driver.Registers.{Flavor, ibs_op, ibs_fetch, msr_ibs_op_ctl, msr_ibs_fetch_ctl}
use amd_ibs_toolkit.Driver.Registers.{
  ibs_op_val, ibs_op_en, ibs_fetch_en, ibs_rand_en, ibs_op_cnt_ctl,
}
use amd_ibs_toolkit.Driver.Registers.{ibs_op_cur_cnt_23, ibs_op_cur_cnt_old, ibs_fetch_cnt}
use amd_ibs_toolkit.Driver.Registers.{ibs_op_max_cnt, ibs_op_max_cnt_old, ibs_fetch_max_cnt}
use amd_ibs_toolkit.Driver.Device.{IbsDev, Kernel, Log, wrmsr, udelay}
use amd_ibs_toolkit.Driver.Workarounds.{Saved, start_fam17h_zn_dyn_workaround}
use amd_ibs_toolkit.Driver.Workarounds.{stop_fam17h_zn_dyn_workaround, do_fam10h_workaround_420}

-- `this_cpu` is the one that runs the call.
module _ (k : Kernel) (old : Saved) (this_cpu : ℕ) where
  abbrev start_zn : IbsDev → ℕ → Log → Log
  start_zn dev cpu log =
      if dev.workaround_fam17h_zn then start_fam17h_zn_dyn_workaround k cpu log else log

  abbrev pub stop_zn : IbsDev → ℕ → Log → Log
  stop_zn dev cpu log =
      if dev.workaround_fam17h_zn then stop_fam17h_zn_dyn_workaround k old cpu log else log

  unfoldable pub enable_ibs_op_on_cpu : IbsDev → ℕ → ℕ → Log → Log
  enable_ibs_op_on_cpu dev cpu op_ctl log = wrmsr cpu msr_ibs_op_ctl op_ctl ∷ start_zn dev cpu log

  -- On the target CPU: force the valid bit, wait, clear.
  unfoldable pub disable_ibs_op : ℕ → Log → Log
  disable_ibs_op cpu log =
      wrmsr cpu msr_ibs_op_ctl 0 ∷ udelay 1 ∷ wrmsr cpu msr_ibs_op_ctl ibs_op_val ∷ log

  unfoldable pub disable_ibs_op_on_cpu : IbsDev → ℕ → Log → Log
  unfolding disable_ibs_op
  disable_ibs_op_on_cpu dev cpu log =
      let log' =
        if dev.workaround_fam10h_err_420
        then do_fam10h_workaround_420 k this_cpu cpu log
        else log in
      stop_zn dev cpu (disable_ibs_op cpu log')

  unfoldable pub enable_ibs_fetch_on_cpu : IbsDev → ℕ → ℕ → Log → Log
  enable_ibs_fetch_on_cpu dev cpu fetch_ctl log =
      wrmsr cpu msr_ibs_fetch_ctl fetch_ctl ∷ start_zn dev cpu log

  unfoldable pub disable_ibs_fetch_on_cpu : IbsDev → ℕ → Log → Log
  disable_ibs_fetch_on_cpu dev cpu log = stop_zn dev cpu (wrmsr cpu msr_ibs_fetch_ctl 0 ∷ log)

abbrev pub default_ctl : Flavor → Bool → ℕ
default_ctl ibs_op true =
    bit_or (bit_or (scatter_bits 0 ibs_op_cur_cnt_23) (scatter_bits 0x4000 ibs_op_max_cnt))
      ibs_op_cnt_ctl
default_ctl ibs_op false =
    bit_or (bit_or (scatter_bits 0 ibs_op_cur_cnt_old) (scatter_bits 0x4000 ibs_op_max_cnt_old))
      ibs_op_cnt_ctl
default_ctl ibs_fetch _ =
    bit_or (bit_or ibs_rand_en (scatter_bits 0 ibs_fetch_cnt))
      (scatter_bits 0x1000 ibs_fetch_max_cnt)

unfoldable pub set_ibs_defaults : IbsDev → IbsDev
set_ibs_defaults dev = record dev {
  poll_threshold = 1;
  ctl = default_ctl dev.flavor dev.ibs_op_cnt_ext_supported;
}

-- `(dev->flavor == IBS_OP && dev->ctl & IBS_OP_EN) || (IBS_FETCH and IBS_FETCH_EN)`.
abbrev pub enable_mask : Flavor → ℕ
enable_mask ibs_op = ibs_op_en
enable_mask ibs_fetch = ibs_fetch_en

abbrev pub is_enabled : IbsDev → Bool
is_enabled dev = is_set dev.ctl (enable_mask dev.flavor)
