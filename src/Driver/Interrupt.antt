-- ===== src/Driver/Interrupt.antt =====
-- driver/ibs-interrupt.c: the interrupt handler, as built for kernels from 3.2.0 on.
pub mod Random
pub mod Handler
use amd_ibs_toolkit.Base.{
  ℕ, ◌+◌, ◌*◌, ◌/◌, ◌%◌, ◌^◌, bit_and, bit_or, bit_xor, ◌∷◌, Bool, true, false, not,
}
use amd_ibs_toolkit.Base.{◌&&◌, ◌||◌, ◌==◌, leb, if◌then◌else◌}
use amd_ibs_toolkit.Bits.Digit.{complement}
use amd_ibs_toolkit.Driver.Scatter.{is_set}
use amd_ibs_toolkit.Driver.Registers.{
  msr_ibs_op_ctl, msr_ibs_op_rip, msr_ibs_op_data, msr_ibs_op_data2,
}
use amd_ibs_toolkit.Driver.Registers.{msr_ibs_op_data3, msr_ibs_op_data4, msr_ibs_dc_lin_ad}
use amd_ibs_toolkit.Driver.Registers.{msr_ibs_dc_phys_ad, msr_ibs_br_target, msr_ibs_fetch_ctl}
use amd_ibs_toolkit.Driver.Registers.{msr_ibs_extd_ctl, msr_ibs_fetch_lin_ad, msr_ibs_fetch_phys_ad}
use amd_ibs_toolkit.Driver.Registers.{ibs_op_max_cnt, ibs_op_max_cnt_old, ibs_op_val, ibs_fetch_val}
use amd_ibs_toolkit.Driver.Device.{IbsDev, IbsOp, IbsFetch, Sample, op_sample, fetch_sample, Kernel}
use amd_ibs_toolkit.Driver.Device.{Log, Effect, wrmsr, wake_readq, wake_pollq, queue_irq_work}

-- `wake_up_queues`, which the bottom half runs.
unfoldable pub wake_up_queues : IbsDev → Log → Log
wake_up_queues dev log =
    let log' = wake_readq ∷ log in
    if leb dev.poll_threshold dev.entries then wake_pollq ∷ log' else log'

-- The bit that `lfsr_random` shifts in.
unfoldable pub lfsr_bit : ℕ → ℕ
lfsr_bit v = bit_and (bit_xor (bit_xor (bit_xor v (v / 2 ^ 2)) (v / 2 ^ 3)) (v / 2 ^ 5)) 1

-- `lfsr_random`: the next value of `lfsr_value`, which it returns.
unfoldable pub lfsr_random : ℕ → ℕ
unfolding lfsr_bit
lfsr_random v = bit_or (v / 2) (lfsr_bit v * 2 ^ 15)

abbrev pub lfsr_seed : ℕ
lfsr_seed = 0xF00D

-- `randomize_op_ctl` with the value that `lfsr_random` returned.
unfoldable pub randomize_op_ctl : ℕ → ℕ → ℕ
randomize_op_ctl random op_ctl =
    bit_or (bit_and random 0xf * 2 ^ 32) (bit_and op_ctl (complement 64 (0xf * 2 ^ 32)))

-- What `collect_common_data` reads that is no register of IBS.
pub record Context : Type 0 where
  pub tsc : ℕ
  pub cr3 : ℕ
  pub tid : ℕ
  pub pid : ℕ
  pub cpu : ℕ
  pub kern_mode : ℕ

-- How the handler leaves the device, the generator and the log.
pub record Handled : Type 0 where
  pub dev : IbsDev
  pub lfsr : ℕ
  pub log : Log

-- The two devices of a CPU, the generator and the log.
pub record Core : Type 0 where
  pub op_dev : IbsDev
  pub fetch_dev : IbsDev
  pub lfsr : ℕ
  pub log : Log

-- `(old_wr + 1) % capacity`, with `old_wr` an `unsigned int`.
abbrev pub next_wr : IbsDev → ℕ
next_wr dev = (dev.wr % 2 ^ 32 + 1) % 2 ^ 32 % dev.capacity

abbrev pub is_full : IbsDev → Bool
is_full dev = next_wr dev == dev.rd

-- A write to slot `i`.
abbrev pub store : (ℕ → Sample) → ℕ → Sample → ℕ → Sample
store buf i x j = if i == j then x else buf j

-- What both handlers do to the device: the sample goes into the buffer, or is lost.
unfoldable pub put_sample : Sample → IbsDev → IbsDev
put_sample x dev = if is_full dev then record dev { lost = dev.lost + 1 } else record dev {
  buf = store dev.buf (dev.wr % 2 ^ 32) x;
  wr = next_wr dev;
  entries = dev.entries + 1;
}

abbrev queued : IbsDev → Log → Log
queued dev log = if is_full dev then log else queue_irq_work ∷ log

-- The sample is not counted when the registers show that IBS is being turned off.
abbrev pub skips : IbsDev → ℕ → Bool
skips dev op_ctl =
    dev.workaround_fam10h_err_420 && not (is_set op_ctl ibs_op_max_cnt_old)
    || not (is_set op_ctl ibs_op_max_cnt)

module _ (k : Kernel) (ctx : Context) where
  -- `enable_ibs_op`
  abbrev pub enable_ibs_op : ℕ → Log → Log
  enable_ibs_op op_ctl log = wrmsr ctx.cpu msr_ibs_op_ctl op_ctl ∷ log

  -- `enable_ibs_fetch`: the register is zeroed first.
  abbrev pub enable_ibs_fetch : ℕ → Log → Log
  enable_ibs_fetch fetch_ctl log =
      wrmsr ctx.cpu msr_ibs_fetch_ctl fetch_ctl ∷ wrmsr ctx.cpu msr_ibs_fetch_ctl 0 ∷ log

  -- `collect_op_data` and `collect_common_data`.
  unfoldable pub collect_op_data : IbsDev → ℕ → Log → IbsOp
  collect_op_data dev op_ctl log =
      let read = λ (r : ℕ). k.rdmsr log ctx.cpu r in
      record {
        op_ctl = op_ctl;
        op_rip = read msr_ibs_op_rip;
        op_data = read msr_ibs_op_data;
        op_data2 = read msr_ibs_op_data2;
        op_data3 = read msr_ibs_op_data3;
        op_data4 = if dev.ibs_op_data4_supported then read msr_ibs_op_data4 else 0;
        dc_lin_ad = read msr_ibs_dc_lin_ad;
        dc_phys_ad = read msr_ibs_dc_phys_ad;
        br_target = if dev.ibs_brn_trgt_supported then read msr_ibs_br_target else 0;
        tsc = ctx.tsc;
        cr3 = ctx.cr3;
        tid = ctx.tid;
        pid = ctx.pid;
        cpu = ctx.cpu;
        kern_mode = ctx.kern_mode;
      }

  -- `collect_fetch_data` and `collect_common_data`.
  unfoldable pub collect_fetch_data : IbsDev → Log → IbsFetch
  collect_fetch_data dev log =
      let read = λ (r : ℕ). k.rdmsr log ctx.cpu r in
      record {
        fetch_ctl = read msr_ibs_fetch_ctl;
        fetch_ctl_extd = if dev.ibs_fetch_ctl_extd_supported then read msr_ibs_extd_ctl else 0;
        fetch_lin_ad = read msr_ibs_fetch_lin_ad;
        fetch_phys_ad = read msr_ibs_fetch_phys_ad;
        tsc = ctx.tsc;
        cr3 = ctx.cr3;
        tid = ctx.tid;
        pid = ctx.pid;
        cpu = ctx.cpu;
        kern_mode = ctx.kern_mode;
      }

  unfoldable pub handle_ibs_op_event : IbsDev → ℕ → Log → Handled
  unfolding put_sample collect_op_data lfsr_random randomize_op_ctl
  handle_ibs_op_event dev lfsr log =
      let op_ctl = k.rdmsr log ctx.cpu msr_ibs_op_ctl in
      let dev' = put_sample (op_sample (collect_op_data dev op_ctl log)) dev in
      let random = lfsr_random lfsr in
      let log1 = queued dev log in
      let log2 =
        if dev.workaround_fam15h_err_718 then wrmsr ctx.cpu msr_ibs_op_data3 0 ∷ log1 else log1 in
      if skips dev op_ctl then record { dev = dev; lfsr = lfsr; log = log } else record {
        dev = dev';
        lfsr = random;
        log = enable_ibs_op (randomize_op_ctl random dev.ctl) log2;
      }

  unfoldable pub handle_ibs_fetch_event : IbsDev → Log → IbsDev × Log
  unfolding put_sample collect_fetch_data
  handle_ibs_fetch_event dev log = (
    put_sample (fetch_sample (collect_fetch_data dev log)) dev,
    enable_ibs_fetch dev.ctl (queued dev log),
  )

  -- The fetch half of `handle_ibs_event`, after `handled` samples.
  abbrev fetch_half : Core → ℕ → ℕ × Core
  fetch_half c handled =
      let (dev, log) = handle_ibs_fetch_event c.fetch_dev c.log in
      if is_set (k.rdmsr c.log ctx.cpu msr_ibs_fetch_ctl) ibs_fetch_val
      then (handled + 1, record c { fetch_dev = dev; log = log })
      else (handled, c)

  -- `handle_ibs_event`: the number counts the `NMI_HANDLED` that are added up.
  unfoldable pub handle_ibs_event : Core → ℕ × Core
  unfolding handle_ibs_op_event handle_ibs_fetch_event
  handle_ibs_event c =
      let h = handle_ibs_op_event c.op_dev c.lfsr c.log in
      let sampled = record c { op_dev = h.dev; lfsr = h.lfsr; log = h.log } in
      if is_set (k.rdmsr c.log ctx.cpu msr_ibs_op_ctl) ibs_op_val
      then fetch_half sampled 1
      else fetch_half c 0
