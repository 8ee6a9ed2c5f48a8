-- ===== src/Driver/Load/Failure.antt =====
-- The error paths of `ibs_init` of driver/ibs-core.c.
use amd_ibs_toolkit.Base.{
  ℕ, List, [], ◌∷◌, Bool, true, false, not, ◌&&◌, ◌||◌, ◌==◌, ◌⊎◌, ◌≡◌, refl, arith, ap, ◌∙◌, none,
  some, Bool-cases, Option-cases, inl, inr,
}
use amd_ibs_toolkit.Driver.Device.{Kernel, Log, Sys, Ret, ok, err, Errno, gave_back}
use amd_ibs_toolkit.Driver.Device.{
  op_devs, fetch_devs, workaround_structs, chrdev, hotplug, nmi_handler,
}
use amd_ibs_toolkit.Driver.Buffer.{setup_ibs_buffer}
use amd_ibs_toolkit.Driver.Workarounds.{Saved}
use amd_ibs_toolkit.Driver.Support.{Support, Processor, check_for_ibs_support}
use amd_ibs_toolkit.Driver.Cpus
use amd_ibs_toolkit.Driver.Load
use amd_ibs_toolkit.Driver.Load.Custody.{custody, is_bare}
use amd_ibs_toolkit.Driver.Load.Paths.{
  IsFree, KeepsCustody, held_registered, is_none, grants_all, structs_ready, with_structs,
  buffers_ready, leaves_bare,
}
use amd_ibs_toolkit.Driver.Load.Balance.{ibs_init-custody}

-- The two refusals after which `err` is still 0.
abbrev pub refuses_quietly : Load.Boot → Bool
refuses_quietly b = not b.major_ok || (is_none b.class_error && not b.hotplug_ok)

not_loaded :
    (b : Load.Boot)
    → refuses_quietly b ≡ true
    → (held_registered b chrdev ≡ false)
      × (held_registered b hotplug ≡ false)
      × (held_registered b nmi_handler ≡ false)
      × (grants_all b ≡ false)
not_loaded b h = (ground (arith, h), ground (arith, h), ground (arith, h), ground (arith, h))

-- The last things that were given back are the workaround structures and the devices.
abbrev pub TornDown : Log → Type 0
TornDown log =
    (rest : Log) × (log
      ≡ gave_back workaround_structs ∷ gave_back op_devs ∷ gave_back fetch_devs ∷ rest)

-- Where the device number or the hotplug state is refused, and the class is created, the value of
-- `err` is returned as it is.
refused_keeps_err :
    (k : Kernel) (b : Load.Boot) (old : Saved) (online cpus : List ℕ) (s : Support) (r : Ret)
    (up : Log → Log) (d : Cpus.Devices)
    → refuses_quietly b ≡ true
    → (Load.register_devices k b old online cpus s r up d).0 ≡ r
unfolding Load.register_devices Load.register_nmi
refused_keeps_err k b old online cpus s r up d refused = elim (Bool-cases b.major_ok) [
  | inl numbered ↦
      let created : is_none b.class_error ≡ true = ground (arith, refused) in
      let unplugged : b.hotplug_ok ≡ false = ground (arith, refused) in
      elim (Option-cases b.class_error) [
        | inl classed ↦ simp (numbered, classed, unplugged) refl
        | inr (e, classless) ↦ absurd (cc (simp classless at created))
      ]
  | inr unnumbered ↦ simp unnumbered refl
]

setup_ibs_buffer-answer :
    (k : Kernel) (bytes : ℕ) (x : Sys)
    → Cpus.failed (setup_ibs_buffer k bytes x).0 ≡ false
    → (setup_ibs_buffer k bytes x).0 ≡ ok 0
unfolding setup_ibs_buffer
setup_ibs_buffer-answer k bytes x good = elim (Bool-cases (bytes == 0)) [
  | inl nothing ↦ absurd (cc (simp nothing at good))
  | inr some_bytes ↦ elim (Option-cases (k.vmalloc x.log bytes)) [
    | inl full ↦ absurd (cc (simp (some_bytes, full) at good))
    | inr (memory, found) ↦ simp (some_bytes, found) refl
  ]
]

init_cpu-answer :
    (k : Kernel) (s : Support) (cpu : ℕ) (d : Cpus.Devices)
    → Cpus.failed (Cpus.init_cpu k s cpu d).0 ≡ false
    → (Cpus.init_cpu k s cpu d).0 ≡ ok 0
unfolding Cpus.init_cpu
init_cpu-answer k s cpu d good =
    let x : Sys = record { dev = Cpus.init_ibs_op_dev s (d.op cpu) cpu; log = d.log } in
    let (r, y) = setup_ibs_buffer k Cpus.ibs_buffer_size x in
    elim (Bool-cases (Cpus.failed r)) [
      | inl full ↦ absurd (cc (simp full at good))
      | inr room ↦ rw room (setup_ibs_buffer-answer k Cpus.ibs_buffer_size _ (simp room at good))
    ]

-- The loop over the CPUs leaves 0 in `err` when it does not fail.
init_cpus-answer :
    (k : Kernel) (s : Support) (cpus : List ℕ) (d : Cpus.Devices)
    → Cpus.failed (Cpus.init_cpus k s cpus d).0 ≡ false
    → (Cpus.init_cpus k s cpus d).0 ≡ ok 0
unfolding Cpus.init_cpus
init_cpus-answer k s [] d good = refl
init_cpus-answer k s (cpu ∷ cpus) d good =
    elim (Bool-cases (Cpus.failed (Cpus.init_cpu k s cpu d).0)) [
      | inl full ↦ absurd (cc (simp full at good))
      | inr room ↦ rw room (init_cpus-answer k s cpus _ (simp room at good))
    ]

-- Where the processor offers IBS and there is memory, but the kernel refuses the device number, or
-- creates the class and refuses the hotplug state, `ibs_init` answers 0 as if the driver were
-- loaded, although then neither the device number nor the hotplug state nor the interrupt handler
-- is held, and no possible CPU has a buffer, if nothing was held and there was no buffer before.
-- Bringing CPUs up or down is assumed to take and give back nothing else.
pub refused-answers_0 :
    (k : Kernel) (b : Load.Boot) (old : Saved) (online cpus : List ℕ) (p : Processor) (s : Support)
    (up : Support → Log → Log) (d : Cpus.Devices)
    → ((s : Support) → KeepsCustody (up s))
    → KeepsCustody b.cpus_down
    → IsFree d.log
    → ((cpu : ℕ) → is_bare d cpu ≡ true)
    → let c = check_for_ibs_support k p s d.log in
      let found = record d { log = c.log } in
      not (Cpus.failed c.ret) ≡ true
      → (b.alloc_op && b.alloc_fetch && structs_ready k c.started found) ≡ true
      → buffers_ready k c.support c.started cpus found ≡ true
      → refuses_quietly b ≡ true
      → let (ret, left) = Load.ibs_init k b old online cpus p s up d in
        (ret ≡ ok 0)
        × (custody chrdev left.log ≡ some false)
        × (custody hotplug left.log ≡ some false)
        × (custody nmi_handler left.log ≡ some false)
        × ((cpu : ℕ) → leaves_bare cpus left cpu ≡ true)
unfolding Load.ibs_init Load.allocate
refused-answers_0 k b old online cpus p s up d up-keeps down-keeps h bare fine room ready refused =
    let c = check_for_ibs_support k p s d.log in
    let found = record d { log = c.log } in
    let (held, freed_all) =
      ibs_init-custody k b old online cpus p s up d up-keeps down-keeps h bare in
    let some_op : b.alloc_op ≡ true = ground (arith, room) in
    let some_fetch : b.alloc_fetch ≡ true = ground (arith, room) in
    let some_structs : structs_ready k c.started found ≡ true = ground (arith, room) in
    let accepted : Cpus.failed c.ret ≡ false = ground (arith, fine) in
    let good : Cpus.failed (Cpus.init_cpus k c.support cpus (with_structs k c.started found)).0
        ≡ false =
      ground (arith, ready) in
    let quiet = not_loaded b refused in
    (
      rw (accepted, some_op, some_fetch, some_structs, good)
          (refused_keeps_err k b old online cpus c.support _ (up c.support) _ refused
            ∙ init_cpus-answer k c.support cpus _ good),
      held chrdev ∙ rw (accepted, some_op, some_fetch, some_structs, ready) (ap some quiet.0),
      held hotplug ∙ rw (accepted, some_op, some_fetch, some_structs, ready) (ap some quiet.1),
      held nmi_handler ∙ rw (accepted, some_op, some_fetch, some_structs, ready) (ap some quiet.2),
      λ cpu. ground (arith, freed_all cpu, quiet.3),
    )

-- With the device number and the hotplug state granted, where the class is refused, or else
-- the interrupt handler, `ibs_init` tears the devices down and returns the error.
failed_later-TornDown :
    (k : Kernel) (b : Load.Boot) (old : Saved) (online cpus : List ℕ) (s : Support) (r : Ret)
    (up : Log → Log) (d : Cpus.Devices) (e : Errno)
    → b.major_ok ≡ true
    → b.hotplug_ok ≡ true
    → (b.class_error ≡ some e) ⊎ ((b.class_error ≡ none) × (b.nmi_error ≡ some e))
    → ((Load.register_devices k b old online cpus s r up d).0 ≡ err e)
      × TornDown (Load.register_devices k b old online cpus s r up d).1.log
unfolding Load.register_devices Load.register_nmi Cpus.destroy_ibs_cpu_structs
failed_later-TornDown k b old online cpus s r up d e numbered plugged (inl classless) =
    simp (numbered, classless) (refl, (_, refl))
failed_later-TornDown k b old online cpus s r up d e numbered plugged (inr (classed, unhandled)) =
    simp (numbered, plugged, classed, unhandled) (refl, (_, refl))
