-- ===== src/Driver/Load/Custody.antt =====
-- What loading the driver takes from the kernel in driver/ibs-core.c, and what it gives back.
use amd_ibs_toolkit.Base.{
  ℕ, List, [], ◌∷◌, ◌≡◌, refl, arith, Bool, true, false, not, ◌&&◌, ◌||◌, ◌==◌, ltb, ◌^◌, ap, sym,
  if◌then◌else◌, none, some, Option, Bool-cases, Option-cases, inl, inr, ◌∙◌,
}
use amd_ibs_toolkit.Driver.Scatter.{is_set}
use amd_ibs_toolkit.Driver.Registers.{Flavor, msr_ibs_fetch_ctl}
use amd_ibs_toolkit.Driver.Control
use amd_ibs_toolkit.Driver.Device.{Kernel, Log, Sys, Effect, Resource}
use amd_ibs_toolkit.Driver.Device.{took, gave_back, freed, pr_info, wrmsr, IbsDev}
use amd_ibs_toolkit.Driver.Device.{
  op_devs, fetch_devs, workaround_structs, chrdev, ibs_class, hotplug, nmi_handler, online_cpus,
}
use amd_ibs_toolkit.Driver.Buffer.{setup_ibs_buffer, free_ibs_buffer}
use amd_ibs_toolkit.Driver.Workarounds.{Saved}
use amd_ibs_toolkit.Driver.Workarounds
use amd_ibs_toolkit.Driver.Support.{Support, Processor}
use amd_ibs_toolkit.Driver.Support
use amd_ibs_toolkit.Driver.Cpus

abbrev tag : Resource → ℕ
tag op_devs = 0
tag fetch_devs = 1
tag workaround_structs = 2
tag chrdev = 3
tag ibs_class = 4
tag hotplug = 5
tag nmi_handler = 6
tag online_cpus = 7

-- Whether a resource is held; `none` after it was taken twice or given back without being held.
abbrev acquired : Option Bool → Option Bool
acquired (some false) = some true
acquired (some true) = none
acquired none = none

abbrev released : Option Bool → Option Bool
released (some true) = some false
released (some false) = none
released none = none

abbrev pub change : Resource → Effect → Option Bool → Option Bool
change r (took r') held = if tag r == tag r' then acquired held else held
change r (gave_back r') held = if tag r == tag r' then released held else held
change r _ held = held

abbrev pub custody : Resource → Log → Option Bool
custody r [] = some false
custody r (e ∷ log) = change r e (custody r log)

-- Neither device of a CPU has a buffer.
abbrev pub is_bare : Cpus.Devices → ℕ → Bool
is_bare d cpu = not (d.op cpu).mapped && not (d.fetch cpu).mapped

abbrev pub lists : List ℕ → ℕ → Bool
lists [] cpu = false
lists (c ∷ cs) cpu = c == cpu || lists cs cpu

-- The custody after the structures of the workarounds may have been set up.
abbrev pub set_up : Resource → Bool → Option Bool → Option Bool
set_up r true held = change r (took workaround_structs) held
set_up r false held = held

-- The custody of a resource after each part of the driver that neither takes nor gives back.
module _ (k : Kernel) (r : Resource) where
  offline_siblings-custody :
      (cpu : ℕ) (cs : List ℕ) (last : ℕ) (log : Log)
      → custody r (Workarounds.offline_siblings cpu cs last log).1 ≡ custody r log
  unfolding Workarounds.offline_siblings
  offline_siblings-custody cpu [] last log = refl
  offline_siblings-custody cpu (c ∷ cs) last log =
      offline_siblings-custody cpu cs _ _ ∙ ground arith

  set_static_bits-custody :
      (cpu : ℕ) (log : Log) → custody r (Workarounds.set_static_bits k cpu log) ≡ custody r log
  unfolding Workarounds.set_static_bits
  set_static_bits-custody cpu log =
      ground (arith, offline_siblings-custody cpu (k.siblings cpu) 0 log)

  slow_notes-custody :
      (s : Support) (log : Log) → custody r (Support.slow_notes s log) ≡ custody r log
  slow_notes-custody s log = ground arith

  family_notes-custody :
      (p : Processor) (log : Log) → custody r (Support.family_notes p log) ≡ custody r log
  family_notes-custody p log = ground arith

  -- Where the structures of the workarounds are set up.
  started-custody :
      (cpu : ℕ) (log : Log)
      → let (started, log') = Workarounds.start_fam17h_zn_static_workaround k cpu (true, log) in
        (started ≡ true) × (custody r log' ≡ custody r log)
  unfolding Workarounds.start_fam17h_zn_static_workaround Workarounds.init_workaround_structs
  started-custody cpu log = (refl, set_static_bits-custody cpu _)

  -- Where they are not, the first call sets them up if it can.
  start-custody :
      (cpu : ℕ) (log : Log)
      → let (started, log') = Workarounds.start_fam17h_zn_static_workaround k cpu (false, log) in
        custody r log' ≡ set_up r started (custody r log)
  unfolding Workarounds.start_fam17h_zn_static_workaround Workarounds.init_workaround_structs
  start-custody cpu log = elim (Bool-cases (k.alloc_structs log)) [
    | inl room ↦ rw room (set_static_bits-custody cpu _)
    | inr full ↦ rw full (set_static_bits-custody cpu _)
  ]

  -- From a first state of the loop that `set_up` describes to its last.
  start_on_each-custody :
      (cpus : List ℕ) (st : Bool × Log) (log : Log)
      → custody r st.1 ≡ set_up r st.0 (custody r log)
      → let (started, log') = Support.start_on_each k cpus st in
        custody r log' ≡ set_up r started (custody r log)
  unfolding Support.start_on_each
  start_on_each-custody [] st log h = h
  start_on_each-custody (cpu ∷ cpus) (true, log') log h =
      let (on, same) = started-custody cpu log' in
      start_on_each-custody cpus _ log (same ∙ h ∙ ap (λ b. set_up r b (custody r log)) (sym on))
  start_on_each-custody (cpu ∷ cpus) (false, log') log h =
      start_on_each-custody cpus _ log (start-custody cpu log' ∙ ap (set_up r _) h)

  check_flags-custody :
      (p : Processor) (s : Support) (started : Bool) (log : Log)
      → let c = Support.check_flags p s (started, log) in
        (c.started ≡ started) × (custody r c.log ≡ custody r log)
  unfolding Support.check_flags
  check_flags-custody p s started log = (ground arith, ground arith)

  check_cpuid-custody :
      (p : Processor) (s : Support) (log : Log)
      → let c = Support.check_cpuid k p s log in
        custody r c.log ≡ set_up r c.started (custody r log)
  unfolding Support.check_cpuid
  check_cpuid-custody p s log =
      let zn : Support = record s { workaround_fam17h_zn = true } in
      let (started, log') = Support.start_on_each k p.online (false, pr_info ∷ log) in
      elim (Bool-cases (is_set p.cpuid_ecx (2 ^ 10) || s.workaround_fam17h_zn)) [
        | inl shows ↦
            let (off, same) = check_flags-custody p s false (Support.slow_notes s log) in
            rw (shows, off) (same ∙ slow_notes-custody s log)
        | inr hidden ↦ elim (Bool-cases (Support.is_zen p)) [
          | inl zen ↦
              let (on, same) = check_flags-custody p zn started (Support.slow_notes zn log') in
              rw (hidden, zen, on)
                (same ∙ start_on_each-custody p.online (false, pr_info ∷ log) log refl)
          | inr other ↦ rw (hidden, other) refl
        ]
      ]

  pub check-custody :
      (p : Processor) (s : Support) (log : Log)
      → let c = Support.check_for_ibs_support k p s log in
        custody r c.log ≡ set_up r c.started (custody r log)
  unfolding Support.check_for_ibs_support
  check-custody p s log = elim (Bool-cases p.is_amd) [
    | inr foreign ↦ rw foreign refl
    | inl amd ↦ elim (Bool-cases (ltb p.x86 0x10 || p.x86 == 0x11)) [
      | inl too_old ↦ rw (amd, too_old) refl
      | inr recent ↦
          rw (amd, recent)
            (check_cpuid-custody p (Support.family_errata p s) (Support.family_notes p log)
              ∙ ap (set_up r _) (family_notes-custody p log))
    ]
  ]

  pub stop-custody :
      (old : Saved) (cpu : ℕ) (log : Log)
      → custody r (Workarounds.stop_fam17h_zn_static_workaround k old cpu log) ≡ custody r log
  unfolding Workarounds.stop_fam17h_zn_static_workaround Workarounds.clear_static_bits
  stop-custody old cpu log = ground arith

  ibs_setup_lvt-custody :
      (cpu : ℕ) (log : Log) → custody r (Cpus.ibs_setup_lvt k cpu log) ≡ custody r log
  unfolding Cpus.ibs_setup_lvt
  ibs_setup_lvt-custody cpu log = ground arith

  pub setup_lvt_on_each-custody :
      (cpus : List ℕ) (log : Log) → custody r (Cpus.setup_lvt_on_each k cpus log) ≡ custody r log
  unfolding Cpus.setup_lvt_on_each
  setup_lvt_on_each-custody [] log = refl
  setup_lvt_on_each-custody (cpu ∷ cpus) log =
      setup_lvt_on_each-custody cpus _ ∙ ibs_setup_lvt-custody cpu log

  setup_ibs_buffer-log : (bytes : ℕ) (x : Sys) → (setup_ibs_buffer k bytes x).1.log ≡ x.log
  unfolding setup_ibs_buffer
  setup_ibs_buffer-log bytes x = elim (Option-cases (k.vmalloc x.log bytes)) [
    | inl full ↦ simp full (ground arith)
    | inr (memory, found) ↦ simp found (ground arith)
  ]

  init_cpu-custody :
      (s : Support) (cpu : ℕ) (d : Cpus.Devices)
      → custody r (Cpus.init_cpu k s cpu d).1.log ≡ custody r d.log
  unfolding Cpus.init_cpu
  init_cpu-custody s cpu d =
      let x : Sys = record { dev = Cpus.init_ibs_op_dev s (d.op cpu) cpu; log = d.log } in
      let (r', y) = setup_ibs_buffer k Cpus.ibs_buffer_size x in
      let z : Sys = record { dev = Cpus.init_ibs_fetch_dev s (d.fetch cpu) cpu; log = y.log } in
      ground (
        arith,
        setup_ibs_buffer-log Cpus.ibs_buffer_size x,
        setup_ibs_buffer-log Cpus.ibs_buffer_size z,
      )

  pub init_cpus-custody :
      (s : Support) (cpus : List ℕ) (d : Cpus.Devices)
      → custody r (Cpus.init_cpus k s cpus d).1.log ≡ custody r d.log
  unfolding Cpus.init_cpus
  init_cpus-custody s [] d = refl
  init_cpus-custody s (cpu ∷ cpus) d = elim (Bool-cases (Cpus.failed (Cpus.init_cpu k s cpu d).0)) [
    | inl stop ↦ rw stop (init_cpu-custody s cpu d)
    | inr go ↦ rw go (init_cpus-custody s cpus _ ∙ init_cpu-custody s cpu d)
  ]

  -- A device without a buffer is left without one.
  free_cpus_unmapped :
      (s : Support) (old : Saved) (cpus : List ℕ) (d : Cpus.Devices) (cpu : ℕ)
      → is_bare d cpu ≡ true
      → is_bare (Cpus.free_cpus k s old cpus d) cpu ≡ true
  unfolding Cpus.free_cpus free_ibs_buffer
  free_cpus_unmapped s old [] d cpu h = h
  free_cpus_unmapped s old (c ∷ cpus) d cpu h =
      free_cpus_unmapped s old cpus _ cpu (ground (arith, h))

  -- The buffers of the CPUs that are listed are freed.
  pub free_cpus-frees :
      (s : Support) (old : Saved) (cpus : List ℕ) (d : Cpus.Devices) (cpu : ℕ)
      → lists cpus cpu ≡ true
      → is_bare (Cpus.free_cpus k s old cpus d) cpu ≡ true
  unfolding Cpus.free_cpus free_ibs_buffer
  free_cpus-frees s old [] d cpu h = absurd (cc h)
  free_cpus-frees s old (c ∷ cpus) d cpu h = elim (Bool-cases (c == cpu)) [
    | inl here ↦ free_cpus_unmapped s old cpus _ cpu (rw here refl)
    | inr there ↦ free_cpus-frees s old cpus _ cpu (ground (arith, h, there))
  ]

  pub free_cpus-custody :
      (s : Support) (old : Saved) (cpus : List ℕ) (d : Cpus.Devices)
      → custody r (Cpus.free_cpus k s old cpus d).log ≡ custody r d.log
  unfolding Cpus.free_cpus free_ibs_buffer
  free_cpus-custody s old [] d = refl
  free_cpus-custody s old (cpu ∷ cpus) d =
      free_cpus-custody s old cpus _ ∙ ground (arith, stop-custody old cpu (freed ∷ freed ∷ d.log))

  device_up-custody :
      (s : Support) (refuses : Flavor → ℕ → Bool) (cpu : ℕ) (log : Log)
      → custody r (Cpus.ibs_prepare_up k s refuses cpu log).1 ≡ custody r log
  unfolding Cpus.ibs_prepare_up
  device_up-custody s refuses cpu log = ground arith

  -- With the structures of the workarounds set up.
  pub ibs_online_up-custody :
      (s : Support) (refuses : Flavor → ℕ → Bool) (cpu : ℕ) (log : Log)
      → custody r (Cpus.ibs_online_up k s refuses cpu (true, log)).1 ≡ custody r log
  unfolding Cpus.ibs_online_up
  ibs_online_up-custody s refuses cpu log =
      let made = (Cpus.ibs_prepare_up k s refuses cpu log).1 in
      let ready = Cpus.ibs_setup_lvt k cpu (pr_info ∷ made) in
      let before =
        ibs_setup_lvt-custody cpu (pr_info ∷ made) ∙ device_up-custody s refuses cpu log in
      elim (Bool-cases s.workaround_fam17h_zn) [
        | inl zn ↦ rw zn ((started-custody cpu ready).1 ∙ before)
        | inr plain ↦ rw plain before
      ]

  stop_dyn-custody :
      (old : Saved) (cpu : ℕ) (log : Log)
      → custody r (Workarounds.stop_fam17h_zn_dyn_workaround k old cpu log) ≡ custody r log
  unfolding Workarounds.stop_fam17h_zn_dyn_workaround Workarounds.disable_fam17h_zn_dyn_workaround
  stop_dyn-custody old cpu log = ground arith

  disable_op-custody :
      (old : Saved) (this_cpu : ℕ) (dev : IbsDev) (cpu : ℕ) (log : Log)
      → custody r (Control.disable_ibs_op_on_cpu k old this_cpu dev cpu log) ≡ custody r log
  unfolding Control.disable_ibs_op_on_cpu Control.disable_ibs_op
      Workarounds.do_fam10h_workaround_420
  disable_op-custody old this_cpu dev cpu log =
      let quiet =
        if dev.workaround_fam10h_err_420
        then Workarounds.do_fam10h_workaround_420 k this_cpu cpu log
        else log in
      ground (arith, stop_dyn-custody old cpu (Control.disable_ibs_op k old this_cpu cpu quiet))

  disable_fetch-custody :
      (old : Saved) (this_cpu : ℕ) (dev : IbsDev) (cpu : ℕ) (log : Log)
      → custody r (Control.disable_ibs_fetch_on_cpu k old this_cpu dev cpu log) ≡ custody r log
  unfolding Control.disable_ibs_fetch_on_cpu
  disable_fetch-custody old this_cpu dev cpu log =
      ground (arith, stop_dyn-custody old cpu (wrmsr cpu msr_ibs_fetch_ctl 0 ∷ log))

  ibs_down-custody :
      (s : Support) (cpu : ℕ) (log : Log) → custody r (Cpus.ibs_down k s cpu log) ≡ custody r log
  unfolding Cpus.ibs_down
  ibs_down-custody s cpu log = ground arith

  pub ibs_prepare_down-custody :
      (s : Support) (old : Saved) (this_cpu : ℕ) (d : Cpus.Devices) (cpu : ℕ) (log : Log)
      → custody r (Cpus.ibs_prepare_down k s old this_cpu d cpu log) ≡ custody r log
  unfolding Cpus.ibs_prepare_down
  ibs_prepare_down-custody s old this_cpu d cpu log =
      let one = Control.disable_ibs_op_on_cpu k old this_cpu (d.op cpu) cpu (pr_info ∷ log) in
      let two = Control.disable_ibs_fetch_on_cpu k old this_cpu (d.fetch cpu) cpu one in
      ibs_down-custody s cpu _
      ∙ ground (
        arith,
        stop-custody old cpu two,
        disable_fetch-custody old this_cpu (d.fetch cpu) cpu one,
        disable_op-custody old this_cpu (d.op cpu) cpu (pr_info ∷ log),
      )
