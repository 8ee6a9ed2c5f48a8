-- ===== src/Monitor/Settings/Driver.antt =====
-- The monitor's sample rates in the driver's counters.
use amd_ibs_toolkit.Base.{ℕ, ◌/◌, ◌^◌, ◌<◌, ◌≡◌, refl, arith, ap, ◌∙◌, false, not, ◌==◌}
use amd_ibs_toolkit.Base.{Bool-cases, inl, inr, some}
use amd_ibs_toolkit.Driver.Registers.{ibs_op, ibs_fetch}
use amd_ibs_toolkit.Driver.Device.{Kernel, Sys, ok}
use amd_ibs_toolkit.Driver.Workarounds.{Saved}
use amd_ibs_toolkit.Driver.Control.{is_enabled}
use amd_ibs_toolkit.Driver.Ioctl.{ibs_ioctl, set_max_cnt, get_max_cnt}
use amd_ibs_toolkit.Driver.Ioctl.Counters.{get_max_cnt-set_max_cnt}
use amd_ibs_toolkit.Monitor.Cpu.{Cpuid, get_deep_ibs_info, bit_at}
use amd_ibs_toolkit.Monitor.Settings.{ℤ, pos, negsuc, Settings}
use amd_ibs_toolkit.Monitor.Settings

-- What an accepted rate is.
record Accepted (rate limit count : ℕ) : Type 0 where
  low : rate < limit
  eq : count ≡ rate / 2 ^ 4

set_global_op_sample_rate-Accepted :
    (cpuid : Cpuid) (rate : ℕ) (st st' : Settings)
    → Settings.set_global_op_sample_rate cpuid (pos rate) st ≡ some st'
    → Accepted rate (Settings.max_op_sample_rate cpuid) st'.op_cnt_max_to_set
unfolding Settings.set_global_op_sample_rate
set_global_op_sample_rate-Accepted cpuid rate st st' e = record {
  low = ground arith;
  eq = ground arith;
}

set_global_fetch_sample_rate-Accepted :
    (rate : ℕ) (st st' : Settings)
    → Settings.set_global_fetch_sample_rate (pos rate) st ≡ some st'
    → Accepted rate (2 ^ 20) st'.fetch_cnt_max_to_set
unfolding Settings.set_global_fetch_sample_rate
set_global_fetch_sample_rate-Accepted rate st st' e = record {
  low = ground arith;
  eq = ground arith;
}

module _ (k : Kernel) (old : Saved) (this_cpu : ℕ) where
  -- A rate that `set_global_op_sample_rate` accepts on a processor is kept by that processor's
  -- driver: with IBS off on an op device that has the longer counter just if bit 6 of the IBS
  -- identifiers says so, `GET_MAX_CNT` after `SET_MAX_CNT` of the setting returns the rate
  -- divided by 16.
  pub set_global_op_sample_rate-kept :
      (cpuid : Cpuid) (rate a : ℕ) (st st' : Settings) (s : Sys)
      → Settings.set_global_op_sample_rate cpuid (pos rate) st ≡ some st'
      → s.dev.flavor ≡ ibs_op
      → s.dev.ibs_op_cnt_ext_supported ≡ not (bit_at (get_deep_ibs_info cpuid) 6 == 0)
      → is_enabled s.dev ≡ false
      → let s' = (ibs_ioctl k old this_cpu set_max_cnt st'.op_cnt_max_to_set s).1 in
        (ibs_ioctl k old this_cpu get_max_cnt a s').0 ≡ ok (rate / 2 ^ 4)
  set_global_op_sample_rate-kept cpuid rate a st st' s accepted op ext off =
      let p = set_global_op_sample_rate-Accepted cpuid rate st st' accepted in
      let read = (get_max_cnt-set_max_cnt k old this_cpu st'.op_cnt_max_to_set a s off).0 in
      read
      ∙ ap ok (elim (Bool-cases (bit_at (get_deep_ibs_info cpuid) 6 == 0)) [
        | inl short ↦
            let limit : Settings.max_op_sample_rate cpuid ≡ 2 ^ 20 = rw short refl in
            rw (op, ext, short) (omega (arith, p.low, p.eq, limit))
        | inr long ↦
            let limit : Settings.max_op_sample_rate cpuid ≡ 2 ^ 27 = rw long refl in
            rw (op, ext, long) (omega (arith, p.low, p.eq, limit))
      ])

  -- A rate that `set_global_fetch_sample_rate` accepts is kept by the driver: with IBS off on a
  -- fetch device, `GET_MAX_CNT` after `SET_MAX_CNT` of the setting returns the rate divided by 16.
  set_global_fetch_sample_rate-kept :
      (rate a : ℕ) (st st' : Settings) (s : Sys)
      → Settings.set_global_fetch_sample_rate (pos rate) st ≡ some st'
      → s.dev.flavor ≡ ibs_fetch
      → is_enabled s.dev ≡ false
      → let s' = (ibs_ioctl k old this_cpu set_max_cnt st'.fetch_cnt_max_to_set s).1 in
        (ibs_ioctl k old this_cpu get_max_cnt a s').0 ≡ ok (rate / 2 ^ 4)
  set_global_fetch_sample_rate-kept rate a st st' s accepted fetch off =
      let p = set_global_fetch_sample_rate-Accepted rate st st' accepted in
      let read = (get_max_cnt-set_max_cnt k old this_cpu st'.fetch_cnt_max_to_set a s off).0 in
      read ∙ ap ok (rw fetch (omega (arith, p.low, p.eq)))
