-- ===== src/Driver/Tests.antt =====
-- The theorems on the driver at concrete devices.
mod Setup
mod Loading
mod Trace
use amd_ibs_toolkit.Base.{ℕ, ◌+◌, ◌*◌, ◌/◌, ◌%◌, ◌^◌, ◌-◌, ◌<◌, ◌≡◌, refl, arith, inr, min}
use amd_ibs_toolkit.Base.{
  true, false, ◌&&◌, leb, ltb, if◌then◌else◌, [], ◌∷◌, ◌++◌, none, some, take, drop, length,
}
use amd_ibs_toolkit.Bits.Digit.{bit}
use amd_ibs_toolkit.Driver.Registers.{
  ibs_op, ibs_fetch, ibs_op_en, ibs_op_max_cnt, ibs_op_cur_cnt_23,
}
use amd_ibs_toolkit.Driver.Scatter.{gather_bits}
use amd_ibs_toolkit.Driver.Scatter.Field.{
  set_field, ones, gather_bits-set_field, gather_bits-set_field_other,
}
use amd_ibs_toolkit.Driver.Device.{
  IbsDev, Sample, op_sample, Kernel, Sys, ok, err, ebusy, enomem, eagain,
}
use amd_ibs_toolkit.Driver.Workarounds.{Saved}
use amd_ibs_toolkit.Driver.Control.{is_enabled}
use amd_ibs_toolkit.Driver.Ring.{IsValid, contents, delivered}
use amd_ibs_toolkit.Driver.Ring.Put.{offer, put_sample_refines}
use amd_ibs_toolkit.Driver.Ring.Read.{do_ibs_read_refines}
use amd_ibs_toolkit.Driver.Ring.Race.{late_sample-lost}
use amd_ibs_toolkit.Driver.Interrupt
use amd_ibs_toolkit.Driver.Interrupt.Handler.{handle_ibs_event-IsValid}
use amd_ibs_toolkit.Driver.Interrupt.Random.{randomize_op_ctl-bits}
use amd_ibs_toolkit.Driver.Fops
use amd_ibs_toolkit.Driver.Fops.Session.{
  last_written, ctl_register, IsFresh, ibs_open-IsFresh, ibs_release-ibs_open,
}
use amd_ibs_toolkit.Driver.Fops.Wait.{ibs_read-delivers, ibs_read-Unlocked}
use amd_ibs_toolkit.Driver.Fops.Wake.{wakes, ibs_read-wakes}
use amd_ibs_toolkit.Driver.Locks.{ctl_held, read_held}
use amd_ibs_toolkit.Driver.Ioctl
use amd_ibs_toolkit.Driver.Ioctl.Counters.{get_max_cnt-set_max_cnt}
use amd_ibs_toolkit.Driver.Ioctl.Locks.{ibs_ioctl-Unlocks}
use amd_ibs_toolkit.Driver.Ioctl.Buffers.{ibs_ioctl-IsValid}
use amd_ibs_toolkit.Driver.Ioctl.Memory.{KeepsBuffer, ibs_ioctl-KeepsBuffer}
use amd_ibs_toolkit.Driver.Support
use amd_ibs_toolkit.Driver.Support.Decides.{verdict, check_for_ibs_support-decides}
use amd_ibs_toolkit.Driver.Load
use amd_ibs_toolkit.Driver.Load.Fresh.{IsReady}

abbrev sample : ℕ → Sample
sample n = op_sample (record {
  op_ctl = n;
  op_rip = 0;
  op_data = 0;
  op_data2 = 0;
  op_data3 = 0;
  op_data4 = 0;
  dc_lin_ad = 0;
  dc_phys_ad = 0;
  br_target = 0;
  tsc = 0;
  cr3 = 0;
  tid = 0;
  pid = 0;
  cpu = 0;
  kern_mode = 0;
})

-- Every register has all its bits set, every call of the kernel succeeds.
abbrev pub kernel : Kernel
kernel = record {
  rdmsr = λ log cpu r. 2 ^ 64 - 1;
  vmalloc = λ log bytes. some sample;
  copy_fails = λ log bytes. false;
  eilvt_fails = λ log cpu offset. false;
  first_sibling = λ cpu. cpu;
  siblings = λ cpu. cpu ∷ [];
  alloc_structs = λ log. true;
}

abbrev poor_kernel : Kernel
poor_kernel = record kernel { vmalloc = λ log bytes. none }

abbrev pub saved : Saved
saved = record { fam17h_old_1 = 0; fam17h_old_2 = 0; fam17h_old_3 = 0 }

-- Three samples in a ring of ten slots, from slot 8 round to slot 1.
abbrev ring : IbsDev
ring = record {
  buf = sample;
  mapped = true;
  size = 1040;
  entry_size = 104;
  capacity = 10;
  wr = 1;
  rd = 8;
  entries = 3;
  lost = 0;
  poll_threshold = 1;
  ctl = 0;
  cpu = 0;
  flavor = ibs_op;
  in_use = 1;
  ibs_fetch_supported = true;
  ibs_op_supported = true;
  ibs_brn_trgt_supported = true;
  ibs_op_cnt_ext_supported = true;
  ibs_rip_invalid_chk_supported = true;
  ibs_op_brn_fuse_supported = true;
  ibs_fetch_ctl_extd_supported = true;
  ibs_op_data4_supported = true;
  workaround_fam10h_err_420 = false;
  workaround_fam15h_err_718 = false;
  workaround_fam17h_zn = false;
}

ring-IsValid : IsValid ring
ring-IsValid = ground arith

abbrev running : IbsDev
running = record ring { ctl = ibs_op_en }

abbrev closed : IbsDev
closed = record ring { in_use = 0 }

closed-IsValid : IsValid closed
closed-IsValid = ground arith

abbrev empty_ring : IbsDev
empty_ring = record ring { entries = 0; rd = 1 }

abbrev sys : IbsDev → Sys
sys dev = record { dev = dev; log = [] }

abbrev context : Interrupt.Context
context = record { tsc = 5; cr3 = 0; tid = 7; pid = 7; cpu = 0; kern_mode = 0 }

abbrev core : Interrupt.Core
core = record { op_dev = ring; fetch_dev = ring; lfsr = Interrupt.lfsr_seed; log = [] }

put_sample_refines_example :
    (contents (Interrupt.put_sample (sample 42) ring) ≡ offer 10 (sample 42) (contents ring))
    × ((Interrupt.put_sample (sample 42) ring).lost
          + length (contents (Interrupt.put_sample (sample 42) ring))
        ≡ 0 + length (contents ring) + 1)
put_sample_refines_example = put_sample_refines (sample 42) ring-IsValid

do_ibs_read_refines_example :
    let (ret, s') = Fops.do_ibs_read kernel (2 * 104) (sys ring) in
    (ret ≡ ok (2 * 104))
    × (delivered s'.log ≡ delivered [] ++ take 2 (contents ring))
    × (contents s'.dev ≡ drop 2 (contents ring))
    × IsValid s'.dev
do_ibs_read_refines_example =
    do_ibs_read_refines kernel 2 (sys ring) (λ log bytes. refl) ring-IsValid

handle_ibs_event_example :
    IsValid (Interrupt.handle_ibs_event kernel context core).1.op_dev
    × IsValid (Interrupt.handle_ibs_event kernel context core).1.fetch_dev
handle_ibs_event_example = handle_ibs_event-IsValid kernel context core ring-IsValid ring-IsValid

ibs_ioctl-IsValid_example :
    IsValid (Ioctl.ibs_ioctl kernel saved 0 Ioctl.Command.set_buffer_size 2080 (sys ring)).1.dev
ibs_ioctl-IsValid_example =
    ibs_ioctl-IsValid kernel saved 0 Ioctl.Command.set_buffer_size 2080 (sys ring) (omega arith)
      ring-IsValid

ibs_ioctl-Unlocks_example :
    (ctl_held (Ioctl.ibs_ioctl kernel saved 0 Ioctl.Command.ibs_enable 0 (sys ring)).1.log ≡ false)
    × (read_held (Ioctl.ibs_ioctl kernel saved 0 Ioctl.Command.ibs_enable 0 (sys ring)).1.log
        ≡ read_held [])
ibs_ioctl-Unlocks_example =
    ibs_ioctl-Unlocks kernel saved 0 Ioctl.Command.ibs_enable 0 (sys ring) refl

ibs_read-delivers_example :
    let n = min (210 / 104) 3 in
    let (out, s') = Fops.ibs_read kernel false 210 [] (sys ring) in
    (out ≡ Fops.returned (ok (n * 104)))
    × (0 < n)
    × (delivered s'.log ≡ delivered [] ++ take n (contents ring))
    × (contents s'.dev ≡ drop n (contents ring))
    × IsValid s'.dev
ibs_read-delivers_example =
    ibs_read-delivers kernel false 210 [] (sys ring) (λ log bytes. refl) ring-IsValid (omega arith)
      (omega arith) (omega arith)

-- Woken to an empty ring once, then to three samples.
ibs_read-wakes_example :
    let n = min (210 / 104) 3 in
    let s = sys (record empty_ring { ctl = ibs_op_en }) in
    let idle = record empty_ring { ctl = ibs_op_en } in
    let (out, s') = Fops.ibs_read kernel false 210 (wakes (idle ∷ []) ring) s in
    (out ≡ Fops.returned (ok (n * 104)))
    × (0 < n)
    × (delivered s'.log ≡ delivered [] ++ take n (contents ring))
    × (contents s'.dev ≡ drop n (contents ring))
    × IsValid s'.dev
ibs_read-wakes_example =
    ibs_read-wakes kernel 210 (record empty_ring { ctl = ibs_op_en } ∷ []) ring
      (sys (record empty_ring { ctl = ibs_op_en })) (λ log bytes. refl) refl refl ring-IsValid refl
      (omega arith) (omega arith) (omega arith)

get_max_cnt_example :
    let s' = (Ioctl.ibs_ioctl kernel saved 0 Ioctl.set_max_cnt 0x12345 (sys ring)).1 in
    ((Ioctl.ibs_ioctl kernel saved 0 Ioctl.get_max_cnt 0 s').0 ≡ ok (0x12345 % 2 ^ 23))
    × ((Ioctl.ibs_ioctl kernel saved 0 Ioctl.get_cur_cnt 0 s').0
        ≡ (Ioctl.ibs_ioctl kernel saved 0 Ioctl.get_cur_cnt 0 (sys ring)).0)
get_max_cnt_example = get_max_cnt-set_max_cnt kernel saved 0 0x12345 0 (sys ring) refl

ibs_read-Unlocked_example :
    let out = (Fops.ibs_read kernel false 104 (Fops.signal ∷ []) (sys running)).1 in
    (read_held out.log ≡ false) × (ctl_held out.log ≡ false)
ibs_read-Unlocked_example =
    ibs_read-Unlocked kernel false 104 (Fops.signal ∷ []) (sys running) refl refl

ibs_open-IsFresh_example :
    let (ret, s') = Fops.ibs_open (sys closed) in
    (ret ≡ ok 0) × (s'.dev.in_use ≡ 1) × IsFresh s'.dev
ibs_open-IsFresh_example = ibs_open-IsFresh (sys closed) refl closed-IsValid

ibs_release_example :
    let (ret, s') = Fops.ibs_release kernel saved 0 (sys ring) in
    (ret ≡ ok 0)
    × (last_written ring.cpu (ctl_register ring.flavor) s'.log ≡ some 0)
    × IsFresh s'.dev
    × ((Fops.ibs_open s').0 ≡ ok 0)
ibs_release_example = ibs_release-ibs_open kernel saved 0 (sys ring) ring-IsValid

late_sample-lost_example :
    let late = record (sys ring) { dev = Interrupt.put_sample (sample 42) ring } in
    let (ret, s') = Fops.do_ibs_read_at kernel 8 1 late.dev.entries (4 * 104) late in
    (ret ≡ ok (4 * 104))
    × (delivered s'.log ≡ delivered [] ++ contents ring)
    × (contents s'.dev ≡ [])
late_sample-lost_example =
    late_sample-lost kernel (λ log bytes. refl) (sample 42) (sys ring) ring-IsValid (omega arith)
      (omega arith)

ibs_ioctl-KeepsBuffer_example :
    KeepsBuffer ring
      (Ioctl.ibs_ioctl poor_kernel saved 0 Ioctl.Command.set_buffer_size 2080 (sys ring))
ibs_ioctl-KeepsBuffer_example =
    ibs_ioctl-KeepsBuffer poor_kernel saved 0 Ioctl.Command.set_buffer_size 2080 (sys ring)
      (omega arith) refl
