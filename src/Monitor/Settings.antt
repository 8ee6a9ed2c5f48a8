-- ===== src/Monitor/Settings.antt =====
-- The settings of tools/ibs_monitor/ibs_monitor.c and the functions that check them. `none` stands
-- for `exit`. `buffer_size` is kept as what a negative `int` becomes where it is used, a `size_t`.
pub mod Driver
use amd_ibs_toolkit.Base.{
  ℕ, ◌*◌, ◌/◌, ◌^◌, ◌-◌, ◌+◌, ◌%◌, Bool, true, false, not, ◌&&◌, ◌||◌, ◌==◌, ltb, leb,
  if◌then◌else◌, Option, none, some,
}
use amd_ibs_toolkit.Monitor.Cpu.{Cpuid, get_deep_ibs_info, bit_at}
use amd_ibs_toolkit.Monitor.Cpu.{check_amd_processor, check_basic_ibs_support, check_ibs_op_support}

-- An `int`: `pos n`, or `negsuc n` for `-(n + 1)`.
pub data ℤ : Type 0 where
  pos negsuc : ℕ → ℤ

pub record Settings : Type 0 where
  pub op_cnt_max_to_set : ℕ
  pub fetch_cnt_max_to_set : ℕ
  pub buffer_size : ℕ
  pub poll_percent : ℕ
  pub poll_timeout : ℕ

-- `OP_MAX_CNT`, `FETCH_MAX_CNT`, `BUFFER_SIZE_B`, `POLL_SIZE_PERCENT` and `POLL_TIMEOUT`.
abbrev pub set_global_defaults : Settings
set_global_defaults = record {
  op_cnt_max_to_set = 0x4000;
  fetch_cnt_max_to_set = 0x1000;
  buffer_size = 2 ^ 20;
  poll_percent = 75;
  poll_timeout = 1000;
}

-- `max_sample_rate` of `set_global_op_sample_rate`.
abbrev pub max_op_sample_rate : Cpuid → ℕ
max_op_sample_rate cpuid = if bit_at (get_deep_ibs_info cpuid) 6 == 0 then 2 ^ 20 else 2 ^ 27

unfoldable pub set_global_op_sample_rate : Cpuid → ℤ → Settings → Option Settings
set_global_op_sample_rate cpuid (negsuc n) s = none
set_global_op_sample_rate cpuid (pos sample_rate) s =
    if not (check_amd_processor cpuid)
    then none
    else if not (check_basic_ibs_support cpuid)
    then none
    else if not (check_ibs_op_support cpuid)
    then none
    else if ltb sample_rate 0x90
    then none
    else if leb (max_op_sample_rate cpuid) sample_rate
    then none
    else some (record s { op_cnt_max_to_set = sample_rate / 2 ^ 4 })

unfoldable pub set_global_fetch_sample_rate : ℤ → Settings → Option Settings
set_global_fetch_sample_rate (negsuc n) s = none
set_global_fetch_sample_rate (pos sample_rate) s =
    if leb (2 ^ 20) sample_rate
    then none
    else some (record s { fetch_cnt_max_to_set = sample_rate / 2 ^ 4 })

-- `size * 1024` as an `int`, which wraps around, widened to 64 bits.
abbrev pub kilobytes : ℕ → ℕ
kilobytes size =
    let low = size * 1024 % 2 ^ 32 in if ltb low (2 ^ 31) then low else 2 ^ 64 - 2 ^ 32 + low

unfoldable pub set_global_buffer_size : ℤ → Settings → Option Settings
set_global_buffer_size (negsuc n) s = none
set_global_buffer_size (pos size) s =
    if ltb size 1 then none else some (record s { buffer_size = kilobytes size })

unfoldable pub set_global_poll_percent : ℤ → Settings → Option Settings
set_global_poll_percent (negsuc n) s = none
set_global_poll_percent (pos percent) s =
    if ltb 100 percent then none else some (record s { poll_percent = percent })

unfoldable pub set_global_poll_timeout : ℤ → Settings → Option Settings
set_global_poll_timeout (negsuc n) s = none
set_global_poll_timeout (pos timeout) s =
    if ltb timeout 1 then none else some (record s { poll_timeout = timeout })
