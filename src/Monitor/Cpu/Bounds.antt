-- ===== src/Monitor/Cpu/Bounds.antt =====
-- The range of what `cpu_family` and `cpu_model` of tools/ibs_monitor/cpu_check.c return.
use amd_ibs_toolkit.Base.{◌*◌, ◌/◌, ◌%◌, ◌^◌, ◌<◌, arith, bit_and}
use amd_ibs_toolkit.Bits.Digit.{bit_and-lt_right, bit_or-lt}
use amd_ibs_toolkit.Monitor.Cpu

pub cpu_family-lt : (cpuid : Cpu.Cpuid) → Cpu.cpu_family cpuid < 2 ^ 32
unfolding Cpu.cpu_family
cpu_family-lt cpuid = omega arith

pub cpu_model-lt : (cpuid : Cpu.Cpuid) → Cpu.cpu_model cpuid < 2 ^ 32
unfolding Cpu.cpu_model
cpu_model-lt cpuid =
    let eax = (cpuid 1).eax in
    bit_or-lt 32 (bit_and eax 0xf0000 / 2 ^ 16 * 2 ^ 4 % 2 ^ 32) (bit_and eax 0xf0 / 2 ^ 4)
      (omega arith) (omega (arith, bit_and-lt_right 32 eax 0xf0 (omega arith)))
