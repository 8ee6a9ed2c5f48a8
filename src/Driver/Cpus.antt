-- ===== src/Driver/Cpus.antt =====
-- The devices of each CPU, their buffers, and CPUs that come and go: driver/ibs-core.c as built for
-- kernels from 4.10 on.
use amd_ibs_toolkit.Base.{
  ℕ, bit_and, ◌*◌, ◌^◌, List, [], ◌∷◌, Bool, true, false, not, ◌&&◌, ◌==◌, if◌then◌else◌,
}
use amd_ibs_toolkit.Driver.Scatter.{is_set}
use amd_ibs_toolkit.Driver.Registers.{Flavor, ibs_op, ibs_fetch}
use amd_ibs_toolkit.Driver.Registers.{msr_ibs_control, ibs_lvt_offset, ibs_lvt_offset_val}
use amd_ibs_toolkit.Driver.Device.{IbsDev, Kernel, Log, Ret, ok, err, gave_back}
use amd_ibs_toolkit.Driver.Device.{op_devs, fetch_devs, workaround_structs}
use amd_ibs_toolkit.Driver.Device.{
  device_create, device_destroy, setup_apic_eilvt, pr_info, pr_warn, pr_err,
}
use amd_ibs_toolkit.Driver.Buffer.{setup_ibs_buffer, free_ibs_buffer}
use amd_ibs_toolkit.Driver.Workarounds.{
  Saved, start_fam17h_zn_static_workaround, stop_fam17h_zn_static_workaround,
}
use amd_ibs_toolkit.Driver.Control.{disable_ibs_op_on_cpu, disable_ibs_fetch_on_cpu}
use amd_ibs_toolkit.Driver.Support.{Support}

-- `PAGE_SIZE << 8` with pages of 4 KiB.
abbrev pub ibs_buffer_size : ℕ
ibs_buffer_size = 4096 * 2 ^ 8

abbrev pub size_of_ibs_op : ℕ
size_of_ibs_op = 104

abbrev pub size_of_ibs_fetch : ℕ
size_of_ibs_fetch = 64

-- `init_ibs_dev`
unfoldable pub init_ibs_dev : Support → IbsDev → ℕ → IbsDev
init_ibs_dev s dev cpu = record dev {
  cpu = cpu;
  in_use = 0;
  ibs_fetch_supported = s.ibs_fetch_supported;
  ibs_op_supported = s.ibs_op_supported;
  ibs_brn_trgt_supported = s.ibs_brn_trgt_supported;
  ibs_op_cnt_ext_supported = s.ibs_op_cnt_ext_supported;
  ibs_rip_invalid_chk_supported = s.ibs_rip_invalid_chk_supported;
  ibs_op_brn_fuse_supported = s.ibs_op_brn_fuse_supported;
  ibs_fetch_ctl_extd_supported = s.ibs_fetch_ctl_extd_supported;
  ibs_op_data4_supported = s.ibs_op_data4_supported;
  workaround_fam10h_err_420 = s.workaround_fam10h_err_420;
  workaround_fam15h_err_718 = s.workaround_fam15h_err_718;
  workaround_fam17h_zn = s.workaround_fam17h_zn;
}

unfoldable pub init_ibs_op_dev : Support → IbsDev → ℕ → IbsDev
unfolding init_ibs_dev
init_ibs_op_dev s dev cpu = record (init_ibs_dev s dev cpu) {
  flavor = ibs_op;
  entry_size = size_of_ibs_op;
}

unfoldable pub init_ibs_fetch_dev : Support → IbsDev → ℕ → IbsDev
unfolding init_ibs_dev
init_ibs_fetch_dev s dev cpu = record (init_ibs_dev s dev cpu) {
  flavor = ibs_fetch;
  entry_size = size_of_ibs_fetch;
}

unfoldable pub ibs_setup_lvt : Kernel → ℕ → Log → Log
ibs_setup_lvt k cpu log =
    let ibs_control = k.rdmsr log cpu msr_ibs_control in
    let offset = bit_and ibs_control ibs_lvt_offset in
    let asked = setup_apic_eilvt cpu offset ∷ log in
    if not (is_set ibs_control ibs_lvt_offset_val)
    then pr_warn ∷ log
    else if k.eilvt_fails log cpu offset
    then pr_warn ∷ asked
    else asked

-- `on_each_cpu(ibs_setup_lvt, NULL, 1)`
unfoldable pub setup_lvt_on_each : Kernel → List ℕ → Log → Log
unfolding ibs_setup_lvt
setup_lvt_on_each k [] log = log
setup_lvt_on_each k (cpu ∷ cpus) log = setup_lvt_on_each k cpus (ibs_setup_lvt k cpu log)

-- The per-CPU devices and the log.
pub record Devices : Type 0 where
  pub op : ℕ → IbsDev
  pub fetch : ℕ → IbsDev
  pub log : Log

abbrev pub put_dev : (ℕ → IbsDev) → ℕ → IbsDev → ℕ → IbsDev
put_dev devs cpu dev c = if cpu == c then dev else devs c

abbrev pub failed : Ret → Bool
failed (ok _) = false
failed (err _) = true

module _ (k : Kernel) (s : Support) where
  -- One round of the loop of `ibs_init` over the possible CPUs.
  unfoldable pub init_cpu : ℕ → Devices → Ret × Devices
  unfolding init_ibs_op_dev init_ibs_fetch_dev setup_ibs_buffer
  init_cpu cpu d =
      let (r, x) =
        setup_ibs_buffer k ibs_buffer_size
          (record { dev = init_ibs_op_dev s (d.op cpu) cpu; log = d.log }) in
      let half = record d { op = put_dev d.op cpu x.dev; log = x.log } in
      let (r', y) =
        setup_ibs_buffer k ibs_buffer_size
          (record { dev = init_ibs_fetch_dev s (d.fetch cpu) cpu; log = x.log }) in
      if failed r
      then (r, half)
      else (r', record half { fetch = put_dev d.fetch cpu y.dev; log = y.log })

  unfoldable pub init_cpus : List ℕ → Devices → Ret × Devices
  unfolding init_cpu
  init_cpus [] d = (ok 0, d)
  init_cpus (cpu ∷ cpus) d =
      let (r, d') = init_cpu cpu d in
      let rest = init_cpus cpus d' in
      if failed r then (r, record d' { log = pr_err ∷ d'.log }) else rest

  -- `ibs_prepare_up`: `refuses` says for which device `device_create` fails.
  unfoldable pub ibs_prepare_up : (Flavor → ℕ → Bool) → ℕ → Log → Bool × Log
  ibs_prepare_up refuses cpu log =
      let start = pr_info ∷ log in
      let with_op = if s.ibs_op_supported then device_create ibs_op cpu ∷ start else start in
      if s.ibs_op_supported && refuses ibs_op cpu
      then (false, start)
      else if not s.ibs_fetch_supported
      then (true, with_op)
      else if refuses ibs_fetch cpu
      then (false, if s.ibs_op_supported then device_destroy ibs_op cpu ∷ with_op else with_op)
      else (true, device_create ibs_fetch cpu ∷ with_op)

  -- With `workarounds_started`.
  unfoldable pub ibs_online_up : (Flavor → ℕ → Bool) → ℕ → Bool × Log → Bool × Log
  unfolding ibs_prepare_up ibs_setup_lvt
  ibs_online_up refuses cpu (started, log) =
      let ready = ibs_setup_lvt k cpu (pr_info ∷ (ibs_prepare_up refuses cpu log).1) in
      if s.workaround_fam17h_zn
      then start_fam17h_zn_static_workaround k cpu (started, ready)
      else (started, ready)

  unfoldable pub ibs_down : ℕ → Log → Log
  ibs_down cpu log =
      let start = pr_info ∷ log in
      let log' = if s.ibs_op_supported then device_destroy ibs_op cpu ∷ start else start in
      if s.ibs_fetch_supported then device_destroy ibs_fetch cpu ∷ log' else log'

  unfoldable pub ibs_prepare_down : Saved → ℕ → Devices → ℕ → Log → Log
  unfolding ibs_down
  ibs_prepare_down old this_cpu d cpu log =
      let log1 = disable_ibs_op_on_cpu k old this_cpu (d.op cpu) cpu (pr_info ∷ log) in
      let log2 = disable_ibs_fetch_on_cpu k old this_cpu (d.fetch cpu) cpu log1 in
      ibs_down cpu
        (if s.workaround_fam17h_zn then stop_fam17h_zn_static_workaround k old cpu log2 else log2)

  -- `destroy_ibs_cpu_structs`: the loop, and the blocks.
  unfoldable pub free_cpus : Saved → List ℕ → Devices → Devices
  free_cpus old [] d = d
  free_cpus old (cpu ∷ cpus) d =
      let f = free_ibs_buffer (record { dev = d.fetch cpu; log = d.log }) in
      let o = free_ibs_buffer (record { dev = d.op cpu; log = f.log }) in
      let log' =
        if s.workaround_fam17h_zn
        then stop_fam17h_zn_static_workaround k old cpu o.log
        else o.log in
      free_cpus old cpus
        (record { op = put_dev d.op cpu o.dev; fetch = put_dev d.fetch cpu f.dev; log = log' })

  -- `workarounds_started` is set wherever this is called, so `free_workaround_structs` frees.
  unfoldable pub destroy_ibs_cpu_structs : Saved → List ℕ → Devices → Devices
  unfolding free_cpus
  destroy_ibs_cpu_structs old cpus d =
      let d' = free_cpus old cpus d in
      record d' {
        log = gave_back workaround_structs ∷ gave_back op_devs ∷ gave_back fetch_devs ∷ d'.log;
      }
