-- ===== src/Driver/Tests/Setup.antt =====
-- The theorems on the support check, the set-up, the fields and the generator at concrete values.
use amd_ibs_toolkit.Base.{ℕ, ◌%◌, ◌^◌, ◌-◌, ◌≡◌, refl, arith}
use amd_ibs_toolkit.Base.{true, false, ◌&&◌, leb, ltb, if◌then◌else◌, [], ◌∷◌, none}
use amd_ibs_toolkit.Bits.Digit.{bit}
use amd_ibs_toolkit.Driver.Registers.{ibs_op_en, ibs_op_max_cnt}
use amd_ibs_toolkit.Driver.Scatter.{gather_bits}
use amd_ibs_toolkit.Driver.Scatter.Field.{set_field, ones, gather_bits-set_field}
use amd_ibs_toolkit.Driver.Interrupt
use amd_ibs_toolkit.Driver.Interrupt.Random.{randomize_op_ctl-bits}
use amd_ibs_toolkit.Driver.Support
use amd_ibs_toolkit.Driver.Support.Decides.{verdict, check_for_ibs_support-decides}
use amd_ibs_toolkit.Driver.Cpus
use amd_ibs_toolkit.Driver.Load
use amd_ibs_toolkit.Driver.Tests.{kernel, ring}

gather_bits-set_field_example :
    gather_bits (set_field ibs_op_en ibs_op_max_cnt 0x5000) ibs_op_max_cnt
    ≡ 0x5000 % 2 ^ ones 64 ibs_op_max_cnt
gather_bits-set_field_example = gather_bits-set_field ibs_op_en ibs_op_max_cnt 0x5000 (omega arith)

-- A "Zen" processor that hides IBS.
abbrev pub zen : Support.Processor
zen = record {
  is_amd = true;
  x86 = 0x17;
  x86_model = 1;
  cpuid_ecx = 0;
  cpuid_eax = λ log. 0x3ff;
  online = 0 ∷ [];
}

abbrev pub no_support : Support.Support
no_support = record {
  ibs_fetch_supported = false;
  ibs_op_supported = false;
  ibs_brn_trgt_supported = false;
  ibs_op_cnt_ext_supported = false;
  ibs_rip_invalid_chk_supported = false;
  ibs_op_brn_fuse_supported = false;
  ibs_fetch_ctl_extd_supported = false;
  ibs_op_data4_supported = false;
  workaround_fam10h_err_420 = false;
  workaround_fam15h_err_718 = false;
  workaround_fam17h_zn = false;
}

check_for_ibs_support_example :
    (Support.check_for_ibs_support kernel zen no_support []).ret ≡ verdict true
check_for_ibs_support_example =
    check_for_ibs_support-decides kernel zen no_support [] 0x3ff refl (λ log. refl)

abbrev pub devices : Cpus.Devices
devices = record { op = λ cpu. ring; fetch = λ cpu. ring; log = [] }

abbrev pub boot : Load.Boot
boot = record {
  alloc_op = true;
  alloc_fetch = true;
  major_ok = true;
  class_error = none;
  hotplug_ok = true;
  nmi_error = none;
  cpus_down = λ log. log;
}

abbrev seed : ℕ
seed = 0xF00D

randomize_op_ctl_example :
    bit (Interrupt.randomize_op_ctl 0xb ibs_op_en) 33
    ≡ (if leb 32 33 && ltb 33 36 then bit 0xb (33 - 32) else bit ibs_op_en 33)
randomize_op_ctl_example = randomize_op_ctl-bits 0xb ibs_op_en 33 (omega arith)
