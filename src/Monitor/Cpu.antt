-- ===== src/Monitor/Cpu.antt =====
-- tools/ibs_monitor/cpu_check.c: the processor as `cpuid` describes it. `false` stands for `exit`.
pub mod Bounds
use amd_ibs_toolkit.Base.{
  ℕ, ◌+◌, ◌*◌, ◌/◌, ◌%◌, ◌^◌, bit_and, bit_or, Bool, true, false, not, ◌&&◌, ◌||◌, ◌==◌, ltb,
  if◌then◌else◌,
}

-- The registers after `cpuid`.
pub record Registers : Type 0 where
  pub eax : ℕ
  pub ebx : ℕ
  pub ecx : ℕ
  pub edx : ℕ

-- `cpuid` by the value of `eax` before it; `ecx` is 0 before each.
abbrev pub Cpuid : Type 0
Cpuid = ℕ → Registers

unfoldable pub cpu_family : Cpuid → ℕ
cpu_family cpuid =
    let eax = (cpuid 1).eax in
    let family = bit_and eax 0xf00 / 2 ^ 8 in
    let ext_family = bit_and eax 0xff00000 / 2 ^ 20 in (family + ext_family) % 2 ^ 32

unfoldable pub cpu_model : Cpuid → ℕ
cpu_model cpuid =
    let eax = (cpuid 1).eax in
    let base_model = bit_and eax 0xf0 / 2 ^ 4 in
    let ext_model = bit_and eax 0xf0000 / 2 ^ 16 in bit_or (ext_model * 2 ^ 4 % 2 ^ 32) base_model

unfoldable pub cpu_stepping : Cpuid → ℕ
cpu_stepping cpuid = bit_and (cpuid 1).eax 0xf

unfoldable pub get_deep_ibs_info : Cpuid → ℕ
get_deep_ibs_info cpuid = (cpuid 0x8000001b).eax

-- `(word & (1 << i)) >> i`
abbrev pub bit_at : ℕ → ℕ → ℕ
bit_at word i = bit_and word (2 ^ i) / 2 ^ i

unfoldable pub check_amd_processor : Cpuid → Bool
check_amd_processor cpuid =
    let r = cpuid 0 in
    not (not (r.ebx == 0x68747541) || not (r.ecx == 0x444D4163) || not (r.edx == 0x69746E65))

unfoldable pub check_basic_ibs_support : Cpuid → Bool
unfolding check_amd_processor cpu_family get_deep_ibs_info
check_basic_ibs_support cpuid =
    let fam = cpu_family cpuid in
    if not (check_amd_processor cpuid)
    then false
    else if ltb fam 0x10 || fam == 0x11
    then false
    else if bit_at (cpuid 0x80000001).ecx 10 == 0
    then false
    else not (bit_and (get_deep_ibs_info cpuid) 1 == 0)

unfoldable pub check_ibs_op_support : Cpuid → Bool
unfolding get_deep_ibs_info
check_ibs_op_support cpuid =
    let ibs_id = get_deep_ibs_info cpuid in not (bit_at ibs_id 2 == 0 || bit_at ibs_id 4 == 0)

unfoldable pub check_ibs_fetch_support : Cpuid → Bool
unfolding get_deep_ibs_info
check_ibs_fetch_support cpuid = not (bit_at (get_deep_ibs_info cpuid) 1 == 0)
