-- ===== src/Driver/Ioctl.antt =====
-- `ibs_ioctl` of driver/ibs-fops.c; the commands are those of include/ibs-uapi.h.
pub mod Counters
pub mod Locks
pub mod Buffers
pub mod Memory
use amd_ibs_toolkit.Base.{
  ℕ, zero, suc, ◌∷◌, bit_and, bit_or, Bool, true, false, not, ◌&&◌, ltb, ◌==◌, if◌then◌else◌,
}
use amd_ibs_toolkit.Bits.Digit.{complement}
use amd_ibs_toolkit.Driver.Scatter.{is_set, gather_bits}
use amd_ibs_toolkit.Driver.Scatter.Field.{set_field}
use amd_ibs_toolkit.Driver.Registers.{Flavor, ibs_op, ibs_fetch, ibs_op_cnt_ctl, ibs_rand_en}
use amd_ibs_toolkit.Driver.Registers.{ibs_op_cur_cnt_23, ibs_op_cur_cnt_old, ibs_fetch_cnt}
use amd_ibs_toolkit.Driver.Registers.{ibs_op_max_cnt, ibs_op_max_cnt_old, ibs_fetch_max_cnt}
use amd_ibs_toolkit.Driver.Device.{
  IbsDev, Kernel, Sys, Log, Ret, ok, err, ebusy, einval, enotty, emit,
}
use amd_ibs_toolkit.Driver.Device.{acquire, release, ctl_lock, pr_info, pr_warn}
use amd_ibs_toolkit.Driver.Buffer.{reset_ibs_buffer, setup_ibs_buffer, free_ibs_buffer}
use amd_ibs_toolkit.Driver.Workarounds.{Saved}
use amd_ibs_toolkit.Driver.Control.{enable_ibs_op_on_cpu, disable_ibs_op_on_cpu}
use amd_ibs_toolkit.Driver.Control.{enable_ibs_fetch_on_cpu, disable_ibs_fetch_on_cpu}
use amd_ibs_toolkit.Driver.Control.{enable_mask, is_enabled}

-- The commands, with one for every other number.
pub data Command : Type 0 where
  ibs_enable ibs_disable : Command
  set_cur_cnt get_cur_cnt set_cnt get_cnt set_max_cnt get_max_cnt : Command
  set_cnt_ctl get_cnt_ctl set_rand_en get_rand_en : Command
  set_poll_size get_poll_size set_buffer_size get_buffer_size : Command
  reset_buffer get_lost debug_buffer fionread unrecognized : Command

-- The commands that want IBS disabled.
unfoldable pub is_setter : Command → Bool
is_setter set_cur_cnt = true
is_setter set_cnt = true
is_setter set_max_cnt = true
is_setter set_cnt_ctl = true
is_setter set_rand_en = true
is_setter set_poll_size = true
is_setter set_buffer_size = true
is_setter reset_buffer = true
is_setter _ = false

-- The field that `SET_CUR_CNT` and `GET_CUR_CNT` work on: by flavor and `ibs_op_cnt_ext_supported`.
abbrev pub cur_cnt_mask : Flavor → Bool → ℕ
cur_cnt_mask ibs_op true = ibs_op_cur_cnt_23
cur_cnt_mask ibs_op false = ibs_op_cur_cnt_old
cur_cnt_mask ibs_fetch _ = ibs_fetch_cnt

abbrev pub max_cnt_mask : Flavor → Bool → ℕ
max_cnt_mask ibs_op true = ibs_op_max_cnt
max_cnt_mask ibs_op false = ibs_op_max_cnt_old
max_cnt_mask ibs_fetch _ = ibs_fetch_max_cnt

abbrev set_ctl : ℕ → Sys → Sys
set_ctl v s = record s { dev = record s.dev { ctl = v } }

-- A flag that only one flavor has: `SET_CNT_CTL` and `SET_RAND_EN`.
abbrev set_flag : ℕ → ℕ → Sys → Ret × Sys
set_flag flag arg s =
    if arg == 1
    then (ok 0, set_ctl (bit_or s.dev.ctl flag) s)
    else if arg == 0
    then (ok 0, set_ctl (bit_and s.dev.ctl (complement 64 flag)) s)
    else (err einval, s)

abbrev get_flag : ℕ → Sys → Ret × Sys
get_flag flag s = (ok (if is_set s.dev.ctl flag then 1 else 0), s)

abbrev for_flavor : Flavor → Flavor → (Sys → Ret × Sys) → Sys → Ret × Sys
for_flavor ibs_op ibs_op f s = f s
for_flavor ibs_fetch ibs_fetch f s = f s
for_flavor _ _ f s = (err einval, s)

module _ (k : Kernel) (old : Saved) (this_cpu : ℕ) where
  abbrev switch_on : Flavor → Sys → Sys
  switch_on flavor s =
      let dev = record s.dev { ctl = bit_or s.dev.ctl (enable_mask flavor) } in
      let log : Log = elim flavor [
        | ibs_op ↦ enable_ibs_op_on_cpu k old this_cpu dev dev.cpu dev.ctl s.log
        | ibs_fetch ↦ enable_ibs_fetch_on_cpu k old this_cpu dev dev.cpu dev.ctl s.log
      ] in
      record { dev = dev; log = log }

  abbrev switch_off : Flavor → Sys → Sys
  switch_off flavor s =
      let log : Log = elim flavor [
        | ibs_op ↦ disable_ibs_op_on_cpu k old this_cpu s.dev s.dev.cpu s.log
        | ibs_fetch ↦ disable_ibs_fetch_on_cpu k old this_cpu s.dev s.dev.cpu s.log
      ] in
      let ctl = bit_and s.dev.ctl (complement 64 (enable_mask flavor)) in
      record { dev = record s.dev { ctl = ctl }; log = log }

  abbrev warn_on_error : Ret × Sys → Ret × Sys
  warn_on_error (ok zero, s) = (ok zero, s)
  warn_on_error (ok (suc n), s) = (ok (suc n), emit pr_warn s)
  warn_on_error (err e, s) = (err e, emit pr_warn s)

  unfoldable pub resize_buffer : ℕ → Sys → Ret × Sys
  unfolding reset_ibs_buffer setup_ibs_buffer free_ibs_buffer
  resize_buffer arg s =
      if ltb arg s.dev.entry_size
      then (err einval, s)
      else if arg == s.dev.size
      then (ok 0, record s { dev = reset_ibs_buffer s.dev })
      else warn_on_error (setup_ibs_buffer k arg (free_ibs_buffer s))

  -- The second `switch`, under the control lock.
  unfoldable pub locked_command : Command → ℕ → Sys → Ret × Sys
  unfolding resize_buffer
  locked_command ibs_enable arg s = (ok 0, switch_on s.dev.flavor s)
  locked_command ibs_disable arg s = (ok 0, switch_off s.dev.flavor s)
  locked_command set_cur_cnt arg s = (
    ok 0,
    set_ctl (set_field s.dev.ctl (cur_cnt_mask s.dev.flavor s.dev.ibs_op_cnt_ext_supported) arg) s,
  )
  locked_command set_cnt arg s = (
    ok 0,
    set_ctl (set_field s.dev.ctl (cur_cnt_mask s.dev.flavor s.dev.ibs_op_cnt_ext_supported) arg) s,
  )
  locked_command get_cur_cnt arg s =
      (ok (gather_bits s.dev.ctl (cur_cnt_mask s.dev.flavor s.dev.ibs_op_cnt_ext_supported)), s)
  locked_command get_cnt arg s =
      (ok (gather_bits s.dev.ctl (cur_cnt_mask s.dev.flavor s.dev.ibs_op_cnt_ext_supported)), s)
  locked_command set_max_cnt arg s = (
    ok 0,
    set_ctl (set_field s.dev.ctl (max_cnt_mask s.dev.flavor s.dev.ibs_op_cnt_ext_supported) arg) s,
  )
  locked_command get_max_cnt arg s =
      (ok (gather_bits s.dev.ctl (max_cnt_mask s.dev.flavor s.dev.ibs_op_cnt_ext_supported)), s)
  locked_command set_cnt_ctl arg s = for_flavor s.dev.flavor ibs_op (set_flag ibs_op_cnt_ctl arg) s
  locked_command get_cnt_ctl arg s = for_flavor s.dev.flavor ibs_op (get_flag ibs_op_cnt_ctl) s
  locked_command set_rand_en arg s = for_flavor s.dev.flavor ibs_fetch (set_flag ibs_rand_en arg) s
  locked_command get_rand_en arg s = for_flavor s.dev.flavor ibs_fetch (get_flag ibs_rand_en) s
  locked_command set_poll_size arg s =
      if ltb 0 arg && ltb arg s.dev.capacity
      then (ok 0, record s { dev = record s.dev { poll_threshold = arg } })
      else (err einval, s)
  locked_command get_poll_size arg s = (ok s.dev.poll_threshold, s)
  locked_command set_buffer_size arg s = resize_buffer arg s
  locked_command get_buffer_size arg s = (ok s.dev.size, s)
  locked_command reset_buffer arg s = (ok 0, record s { dev = reset_ibs_buffer s.dev })
  locked_command _ arg s = (err enotty, s)

  -- What follows the first `switch`.
  abbrev under_lock : Command → ℕ → Sys → Ret × Sys
  under_lock cmd arg s =
      let held = emit (acquire ctl_lock) s in
      let (ret, after) = locked_command cmd arg held in
      if is_setter cmd && is_enabled s.dev
      then (err ebusy, emit (release ctl_lock) held)
      else (ret, emit (release ctl_lock) after)

  unfoldable pub ibs_ioctl : Command → ℕ → Sys → Ret × Sys
  unfolding is_setter locked_command
  ibs_ioctl debug_buffer arg s = (ok 0, emit pr_info s)
  ibs_ioctl get_lost arg s = (ok s.dev.lost, record s { dev = record s.dev { lost = 0 } })
  ibs_ioctl fionread arg s = (ok s.dev.entries, s)
  ibs_ioctl cmd arg s = under_lock cmd arg s
