-- ===== src/Driver/Load.antt =====
-- Loading and unloading the driver: `ibs_init` and `ibs_exit` of driver/ibs-core.c as built for
-- kernels after 4.10.0.
pub mod Fresh
pub mod Failure
pub mod Custody
pub mod Paths
pub mod Balance
use amd_ibs_toolkit.Base.{
  ℕ, bit_and, Option, none, some, ◌*◌, ◌^◌, List, [], ◌∷◌, Bool, true, false, not, ◌&&◌, ◌==◌,
  if◌then◌else◌,
}
use amd_ibs_toolkit.Driver.Scatter.{is_set}
use amd_ibs_toolkit.Driver.Registers.{Flavor, ibs_op, ibs_fetch}
use amd_ibs_toolkit.Driver.Registers.{msr_ibs_control, ibs_lvt_offset, ibs_lvt_offset_val}
use amd_ibs_toolkit.Driver.Device.{
  IbsDev, Kernel, Log, Effect, Sys, Ret, ok, err, Errno, enomem, Resource, took, gave_back,
}
use amd_ibs_toolkit.Driver.Device.{
  op_devs, fetch_devs, workaround_structs, chrdev, ibs_class, hotplug, nmi_handler, online_cpus,
}
use amd_ibs_toolkit.Driver.Device.{
  device_create, device_destroy, setup_apic_eilvt, pr_info, pr_warn, pr_err,
}
use amd_ibs_toolkit.Driver.Buffer.{setup_ibs_buffer, free_ibs_buffer}
use amd_ibs_toolkit.Driver.Workarounds.{
  Saved, init_workaround_structs, start_fam17h_zn_static_workaround,
  stop_fam17h_zn_static_workaround,
}
use amd_ibs_toolkit.Driver.Control.{disable_ibs_op_on_cpu, disable_ibs_fetch_on_cpu}
use amd_ibs_toolkit.Driver.Support.{Support, Processor, check_for_ibs_support}
use amd_ibs_toolkit.Driver.Cpus.{
  Devices, failed, init_cpus, destroy_ibs_cpu_structs, setup_lvt_on_each,
}

-- The answers of the kernel that `ibs_init` depends on: whether each allocation succeeds, and what
-- the registrations return.
pub record Boot : Type 0 where
  pub alloc_op : Bool
  pub alloc_fetch : Bool
  pub major_ok : Bool
  pub class_error : Option Errno
  pub hotplug_ok : Bool
  pub nmi_error : Option Errno
  -- what `cpuhp_remove_state` does with the CPUs
  pub cpus_down : Log → Log

-- `err_metadata`
abbrev no_memory : Devices → Log → Ret × Devices
no_memory d log = (err enomem, record d { log = pr_err ∷ log })

module _ (k : Kernel) (b : Boot) (old : Saved) (online cpus : List ℕ) where
  -- `out_buffers` with the value of `err`.
  abbrev out_buffers : Support → Ret → Devices → Ret × Devices
  out_buffers s r d = (r, destroy_ibs_cpu_structs k s old cpus d)

  -- `out_chrdev`
  abbrev out_chrdev : Support → Ret → Devices → Ret × Devices
  out_chrdev s r d = out_buffers s r (record d { log = gave_back chrdev ∷ d.log })

  -- `destroy_ibs_devices`
  unfoldable pub destroy_ibs_devices : Support → List ℕ → Log → Log
  destroy_ibs_devices s [] log = log
  destroy_ibs_devices s (cpu ∷ more) log =
      let log' = if s.ibs_op_supported then device_destroy ibs_op cpu ∷ log else log in
      destroy_ibs_devices s more
        (if s.ibs_fetch_supported then device_destroy ibs_fetch cpu ∷ log' else log')

  unfoldable pub destroy_ibs_hotplug : Log → Log
  destroy_ibs_hotplug log =
      gave_back online_cpus ∷ gave_back hotplug ∷ b.cpus_down (took online_cpus ∷ log)

  -- From the creation of the class on, with the value of `err`; `up` is what `cpuhp_setup_state`
  -- does with the CPUs.
  unfoldable pub register_nmi : Support → Ret → (Log → Log) → Devices → Ret × Devices
  unfolding destroy_ibs_devices destroy_ibs_hotplug setup_lvt_on_each
  register_nmi s r up d =
      let ready = setup_lvt_on_each k online (took online_cpus ∷ d.log) in
      let raised = gave_back online_cpus ∷ took hotplug ∷ up ready in
      let out_device = λ (e : Errno).
        out_chrdev s (err e) (record d {
          log = destroy_ibs_hotplug (destroy_ibs_devices s online (pr_err ∷ raised));
        }) in
      if not b.hotplug_ok then out_chrdev s r (record d { log = ready }) else elim b.nmi_error [
        | none ↦ (ok 0, record d { log = took nmi_handler ∷ raised })
        | some e ↦ out_device e
      ]

  -- `ibs_exit` as built for kernels after 4.10.0, which take the CPUs down by themselves.
  unfoldable pub ibs_exit : Support → Devices → Devices
  unfolding destroy_ibs_hotplug
  ibs_exit s d =
      let unplugged = destroy_ibs_hotplug (gave_back nmi_handler ∷ d.log) in
      let freed_all =
        destroy_ibs_cpu_structs k s old cpus (record d { log = gave_back chrdev ∷ unplugged }) in
      record freed_all { log = pr_info ∷ gave_back ibs_class ∷ freed_all.log }

  -- From `__register_chrdev` on, with the value of `err`.
  unfoldable pub register_devices : Support → Ret → (Log → Log) → Devices → Ret × Devices
  unfolding register_nmi
  register_devices s r up d =
      let numbered = record d { log = took chrdev ∷ d.log } in
      let classed = record d { log = took ibs_class ∷ took chrdev ∷ d.log } in
      if not b.major_ok
      then out_buffers s r (record d { log = pr_err ∷ d.log })
      else elim b.class_error [
        | none ↦ register_nmi s r up classed
        | some e ↦ out_chrdev s (err e) (record numbered { log = pr_err ∷ numbered.log })
      ]

  -- `ibs_init` after `check_for_ibs_support`, with the `workarounds_started` that it leaves.
  unfoldable pub allocate : Support → Bool → (Log → Log) → Devices → Ret × Devices
  unfolding register_devices
  allocate s started up d =
      let with_op = took op_devs ∷ pr_info ∷ d.log in
      let with_both = took fetch_devs ∷ with_op in
      let (ready, log) = init_workaround_structs k (started, with_both) in
      let (r, d') = init_cpus k s cpus (record d { log = log }) in
      if not b.alloc_op
      then no_memory d (pr_info ∷ d.log)
      else if not b.alloc_fetch
      then no_memory d (gave_back op_devs ∷ with_op)
      else if not ready
      then no_memory d (gave_back fetch_devs ∷ gave_back op_devs ∷ log)
      else if failed r
      then out_buffers s r d'
      else register_devices s r up d'

  unfoldable pub ibs_init : Processor → Support → (Support → Log → Log) → Devices → Ret × Devices
  unfolding allocate
  ibs_init p s up d =
      let checked = check_for_ibs_support k p s d.log in
      let found = record d { log = checked.log } in
      if failed checked.ret
      then (checked.ret, found)
      else allocate checked.support checked.started (up checked.support) found
