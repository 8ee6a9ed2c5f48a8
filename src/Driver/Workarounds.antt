-- ===== src/Driver/Workarounds.antt =====
-- driver/ibs-workarounds.c: the erratum workarounds, by reads and writes of registers.
use amd_ibs_toolkit.Base.{ℕ, ◌-◌, ◌+◌, ◌^◌, bit_and, bit_or, List, [], ◌∷◌, Bool, true, false, ◌||◌}
use amd_ibs_toolkit.Base.{◌==◌, if◌then◌else◌}
use amd_ibs_toolkit.Bits.Digit.{complement}
use amd_ibs_toolkit.Driver.Scatter.{is_set}
use amd_ibs_toolkit.Driver.Registers.{msr_ibs_op_ctl, msr_ibs_fetch_ctl, ibs_op_en, ibs_fetch_en}
use amd_ibs_toolkit.Driver.Registers.{ibs_op_val, ibs_op_max_cnt_old}
use amd_ibs_toolkit.Driver.Device.{Kernel, Log, wrmsr, acquire, release, workaround_lock, took}
use amd_ibs_toolkit.Driver.Device.{workaround_structs}
use amd_ibs_toolkit.Driver.Device.{cpu_offline, cpu_online}

abbrev pub fam17h_msr_wa_1 : ℕ
fam17h_msr_wa_1 = 0xc0011020

abbrev pub fam17h_msr_wa_1_bits : ℕ
fam17h_msr_wa_1_bits = 0x40000000000000

abbrev pub fam17h_msr_wa_2 : ℕ
fam17h_msr_wa_2 = 0xc0011029

abbrev pub fam17h_msr_wa_2_bits : ℕ
fam17h_msr_wa_2_bits = 0x80000

abbrev pub fam17h_msr_wa_3 : ℕ
fam17h_msr_wa_3 = 0xc0010296

abbrev pub fam17h_msr_wa_3_bits : ℕ
fam17h_msr_wa_3_bits = 0x404040

abbrev pub cpuid_ext_features : ℕ
cpuid_ext_features = 0xc0011005

-- The static `fam17h_old_1`, `fam17h_old_2` and `fam17h_old_3`.
pub record Saved : Type 0 where
  pub fam17h_old_1 : ℕ
  pub fam17h_old_2 : ℕ
  pub fam17h_old_3 : ℕ

-- `init_fam17h_zn_workaround`, on the CPU that loads the driver.
unfoldable pub init_fam17h_zn_workaround : Kernel → Log → ℕ → Saved
init_fam17h_zn_workaround k log this_cpu = record {
  fam17h_old_1 = k.rdmsr log this_cpu fam17h_msr_wa_1;
  fam17h_old_2 = k.rdmsr log this_cpu fam17h_msr_wa_2;
  fam17h_old_3 = k.rdmsr log this_cpu fam17h_msr_wa_3;
}

-- The `for_each_cpu` loop that looks for a sibling with IBS on.
unfoldable pub any_enabled : Kernel → Log → List ℕ → Bool
any_enabled k log [] = false
any_enabled k log (c ∷ cs) =
    is_set (k.rdmsr log c msr_ibs_op_ctl) ibs_op_en
    || is_set (k.rdmsr log c msr_ibs_fetch_ctl) ibs_fetch_en
    || any_enabled k log cs

unfoldable pub enable_fam17h_zn_dyn_workaround : Kernel → ℕ → Log → Log
enable_fam17h_zn_dyn_workaround k cpu log =
    let use_cpu = k.first_sibling cpu in
    let cur1 = k.rdmsr log use_cpu fam17h_msr_wa_1 in
    let cur3 = k.rdmsr log use_cpu fam17h_msr_wa_3 in
    if any_enabled k log (k.siblings cpu)
    then log
    else wrmsr use_cpu fam17h_msr_wa_3 (bit_and cur3 (complement 64 fam17h_msr_wa_3_bits))
      ∷ wrmsr use_cpu fam17h_msr_wa_1 (bit_or cur1 fam17h_msr_wa_1_bits)
      ∷ log

unfoldable pub disable_fam17h_zn_dyn_workaround : Kernel → Saved → ℕ → Log → Log
disable_fam17h_zn_dyn_workaround k old cpu log =
    let use_cpu = k.first_sibling cpu in
    let cur1 = k.rdmsr log use_cpu fam17h_msr_wa_1 in
    let cur3 = k.rdmsr log use_cpu fam17h_msr_wa_3 in
    if any_enabled k log (k.siblings cpu)
    then log
    else wrmsr use_cpu fam17h_msr_wa_3 (bit_or (bit_or cur3 fam17h_msr_wa_3_bits) old.fam17h_old_3)
      ∷ wrmsr use_cpu fam17h_msr_wa_1
          (bit_or (bit_and cur1 (complement 64 fam17h_msr_wa_1_bits)) old.fam17h_old_1)
      ∷ log

unfoldable pub start_fam17h_zn_dyn_workaround : Kernel → ℕ → Log → Log
unfolding enable_fam17h_zn_dyn_workaround
start_fam17h_zn_dyn_workaround k cpu log =
    let lock = workaround_lock (k.first_sibling cpu) in
    release lock ∷ enable_fam17h_zn_dyn_workaround k cpu (acquire lock ∷ log)

unfoldable pub stop_fam17h_zn_dyn_workaround : Kernel → Saved → ℕ → Log → Log
unfolding disable_fam17h_zn_dyn_workaround
stop_fam17h_zn_dyn_workaround k old cpu log =
    let lock = workaround_lock (k.first_sibling cpu) in
    release lock ∷ disable_fam17h_zn_dyn_workaround k old cpu (acquire lock ∷ log)

-- The loop that takes the neighbours offline, and the last CPU that it took.
unfoldable pub offline_siblings : ℕ → List ℕ → ℕ → Log → ℕ × Log
offline_siblings cpu [] last log = (last, log)
offline_siblings cpu (c ∷ cs) last log =
    let here = c == cpu in
    offline_siblings cpu cs (if here then last else c + 1)
      (if here then log else cpu_offline c ∷ log)

-- The part of `start_fam17h_zn_static_workaround` that is done once for a core. `last` is
-- `cpu_to_online + 1`, with 0 for the -1 of the source.
unfoldable pub set_static_bits : Kernel → ℕ → Log → Log
unfolding offline_siblings
set_static_bits k cpu log =
    let cur = k.rdmsr log cpu fam17h_msr_wa_2 in
    let (last, quiet) = offline_siblings cpu (k.siblings cpu) 0 log in
    let written = wrmsr cpu fam17h_msr_wa_2 (bit_or cur fam17h_msr_wa_2_bits) ∷ quiet in
    if is_set cur fam17h_msr_wa_2_bits
    then log
    else if last == 0
    then written
    else cpu_online (last - 1) ∷ written

-- `init_workaround_structs`, from the static `workarounds_started` to what it is afterwards, which
-- is also whether the function succeeds. The registers that it saves are in `Saved`.
unfoldable pub init_workaround_structs : Kernel → Bool × Log → Bool × Log
init_workaround_structs k (true, log) = (true, log)
init_workaround_structs k (false, log) =
    if k.alloc_structs log then (true, took workaround_structs ∷ log) else (false, log)

-- With `workarounds_started`. What `init_workaround_structs` returns is not looked at.
unfoldable pub start_fam17h_zn_static_workaround : Kernel → ℕ → Bool × Log → Bool × Log
unfolding set_static_bits init_workaround_structs
start_fam17h_zn_static_workaround k cpu st =
    let (started, log) = init_workaround_structs k st in
    let cur = k.rdmsr log cpu cpuid_ext_features in
    (started, set_static_bits k cpu (wrmsr cpu cpuid_ext_features (bit_or cur (2 ^ 42)) ∷ log))

-- The part of `stop_fam17h_zn_static_workaround` that is done on the first thread of a core.
unfoldable pub clear_static_bits : Kernel → Saved → ℕ → Log → Log
clear_static_bits k old cpu log =
    let cur = k.rdmsr log cpu fam17h_msr_wa_2 in
    let restored = bit_or old.fam17h_old_2 (bit_and cur (complement 64 fam17h_msr_wa_2_bits)) in
    if k.first_sibling cpu == cpu then wrmsr cpu fam17h_msr_wa_2 restored ∷ log else log

unfoldable pub stop_fam17h_zn_static_workaround : Kernel → Saved → ℕ → Log → Log
unfolding clear_static_bits
stop_fam17h_zn_static_workaround k old cpu log =
    let log' = clear_static_bits k old cpu log in
    let cur = k.rdmsr log' cpu cpuid_ext_features in
    wrmsr cpu cpuid_ext_features (bit_and cur (complement 64 (2 ^ 42))) ∷ log'

-- The read is on the CPU that runs, the write on the target.
unfoldable pub do_fam10h_workaround_420 : Kernel → ℕ → ℕ → Log → Log
do_fam10h_workaround_420 k this_cpu cpu log =
    let old_op_ctl = k.rdmsr log this_cpu msr_ibs_op_ctl in
    let new_op_ctl = bit_and (bit_or old_op_ctl ibs_op_val) (complement 64 ibs_op_max_cnt_old) in
    wrmsr cpu msr_ibs_op_ctl new_op_ctl ∷ log
