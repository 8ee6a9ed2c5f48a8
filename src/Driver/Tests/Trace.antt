-- ===== src/Driver/Tests/Trace.antt =====
-- The theorems on sequences of events and on the monitor's rates at concrete devices.
use amd_ibs_toolkit.Base.{◌/◌, ◌^◌, ◌≡◌, refl, ◌==◌, if◌then◌else◌, [], ◌∷◌}
use amd_ibs_toolkit.Driver.Device.{ok}
use amd_ibs_toolkit.Driver.Ioctl.{ibs_ioctl, set_max_cnt, get_max_cnt}
use amd_ibs_toolkit.Driver.Ring.Sequence.{
  stored, asked, run_events, queue_run, observe, run_events-refines,
}
use amd_ibs_toolkit.Monitor.Cpu.{
  Cpuid, get_deep_ibs_info, check_amd_processor, check_basic_ibs_support, check_ibs_op_support,
}
use amd_ibs_toolkit.Monitor.Settings
use amd_ibs_toolkit.Monitor.Settings.Driver.{set_global_op_sample_rate-kept}
use amd_ibs_toolkit.Driver.Tests.{sample, kernel, saved, ring, ring-IsValid, sys}

run_events-refines_example :
    observe (
      run_events kernel
        (stored (sample 42) ∷ asked 2 ∷ stored (sample 43) ∷ asked 9 ∷ [])
        (sys ring))
    ≡ queue_run 10
        (stored (sample 42) ∷ asked 2 ∷ stored (sample 43) ∷ asked 9 ∷ [])
        (observe (sys ring))
run_events-refines_example =
    run_events-refines kernel (stored (sample 42) ∷ asked 2 ∷ stored (sample 43) ∷ asked 9 ∷ [])
      (sys ring) (λ log bytes. refl) ring-IsValid

-- A processor with the longer counter.
abbrev zen : Cpuid
zen leaf =
    if leaf == 0
    then record { eax = 0xd; ebx = 0x68747541; ecx = 0x444D4163; edx = 0x69746E65 }
    else if leaf == 1
    then record { eax = 0x800f11; ebx = 0; ecx = 0; edx = 0 }
    else record { eax = 0x7ff; ebx = 0; ecx = 0x400; edx = 0 }

set_global_op_sample_rate-kept_example :
    let s' = (ibs_ioctl kernel saved 0 set_max_cnt 0x100000 (sys ring)).1 in
    (ibs_ioctl kernel saved 0 get_max_cnt 0 s').0 ≡ ok (0x1000000 / 2 ^ 4)
unfolding Settings.set_global_op_sample_rate check_amd_processor check_basic_ibs_support
    check_ibs_op_support get_deep_ibs_info
set_global_op_sample_rate-kept_example =
    set_global_op_sample_rate-kept kernel saved 0 zen 0x1000000 0 Settings.set_global_defaults
      (record Settings.set_global_defaults { op_cnt_max_to_set = 0x100000 }) (sys ring) refl refl
      refl refl
