-- ===== src/Driver/Load/Balance.antt =====
-- Loading and unloading the driver in driver/ibs-core.c: what is held after `ibs_init` on each of
-- its paths, and after `ibs_exit`.
use amd_ibs_toolkit.Base.{
  ℕ, List, [], ◌∷◌, ◌≡◌, refl, arith, sym, Bool, true, false, not, ◌&&◌, ◌||◌, if◌then◌else◌, none,
  some, Bool-cases, Option-cases, inl, inr, ◌∙◌, ap,
}
use amd_ibs_toolkit.Driver.Device.{Kernel, Log, Ret, Resource, took, gave_back, pr_info}
use amd_ibs_toolkit.Driver.Device.{
  op_devs, fetch_devs, chrdev, ibs_class, hotplug, nmi_handler, online_cpus,
}
use amd_ibs_toolkit.Driver.Workarounds.{Saved, init_workaround_structs}
use amd_ibs_toolkit.Driver.Support.{Support, Processor, check_for_ibs_support}
use amd_ibs_toolkit.Driver.Cpus
use amd_ibs_toolkit.Driver.Load
use amd_ibs_toolkit.Driver.Load.Custody.{
  custody, set_up, lists, is_bare, free_cpus-frees, check-custody, free_cpus-custody,
  init_cpus-custody, setup_lvt_on_each-custody,
}
use amd_ibs_toolkit.Driver.Load.Paths.{
  IsFree, KeepsCustody, is_class, is_cpu_lock, held_registered, held_after, after, teardown, unplug,
  is_structs, set_up_again, set_up_first, not_set_up, structs_ready, leaves_bare, is_none,
  is_loaded, setup, loaded, with_structs, buffers_ready, grants_all, no_buffers, no_fetch_devs,
  no_structs, no_class, no_hotplug, no_nmi, all_loaded, all_unloaded,
}

granted_held :
    (b : Load.Boot) (started : Bool) (r : Resource)
    → grants_all b ≡ true
    → held_after true started true true b r ≡ not (is_cpu_lock r)
granted_held b started r h = ground (arith, h)

module _ (k : Kernel) (b : Load.Boot) (old : Saved) (online cpus : List ℕ) (s : Support) where
  destroy-custody :
      (d : Cpus.Devices) (r : Resource)
      → custody r (Cpus.destroy_ibs_cpu_structs k s old cpus d).log
        ≡ after r (teardown []) (custody r d.log)
  unfolding Cpus.destroy_ibs_cpu_structs
  destroy-custody d r = ap (after r (teardown [])) (free_cpus-custody k r s old cpus d)

  destroy-frees :
      (d : Cpus.Devices) (cpu : ℕ)
      → lists cpus cpu ≡ true
      → is_bare (Cpus.destroy_ibs_cpu_structs k s old cpus d) cpu ≡ true
  unfolding Cpus.destroy_ibs_cpu_structs
  destroy-frees d cpu h = free_cpus-frees k (op_devs) s old cpus d cpu h

  destroy_ibs_devices-custody :
      (cs : List ℕ) (log : Log) (r : Resource)
      → custody r (Load.destroy_ibs_devices k b old online cpus s cs log) ≡ custody r log
  unfolding Load.destroy_ibs_devices
  destroy_ibs_devices-custody [] log r = refl
  destroy_ibs_devices-custody (cpu ∷ cs) log r = destroy_ibs_devices-custody cs _ r ∙ ground arith

  destroy_ibs_hotplug-custody :
      KeepsCustody b.cpus_down
      → (log : Log) (r : Resource)
      → custody r (Load.destroy_ibs_hotplug k b old online cpus log)
        ≡ after r (unplug []) (custody r log)
  unfolding Load.destroy_ibs_hotplug
  destroy_ibs_hotplug-custody down log r =
      ap (after r (gave_back online_cpus ∷ gave_back hotplug ∷ []))
        (down r (took online_cpus ∷ log))

  structs-custody :
      (started : Bool) (d : Cpus.Devices)
      → ((r : Resource) → custody r d.log ≡ some (is_structs r && started))
      → structs_ready k started d ≡ true
      → (r : Resource) → custody r (with_structs k started d).log ≡ after r setup (some false)
  unfolding init_workaround_structs
  structs-custody true d h room r =
      ap (after r (took fetch_devs ∷ took op_devs ∷ [])) (h r) ∙ set_up_again r
  structs-custody false d h room r =
      let none_held : custody r d.log ≡ some false = h r ∙ ap some (not_set_up r) in
      let both = took fetch_devs ∷ took op_devs ∷ pr_info ∷ d.log in
      elim (Bool-cases (k.alloc_structs both)) [
        | inl some_structs ↦ rw some_structs (ap (after r setup) none_held)
        | inr full ↦
            let none : structs_ready k false d ≡ false = rw (structs_ready, full) refl in
            absurd (cc (none, room))
      ]

  structs_refused-custody :
      (started : Bool) (d : Cpus.Devices)
      → ((r : Resource) → custody r d.log ≡ some (is_structs r && started))
      → structs_ready k started d ≡ false
      → (r : Resource)
      → after r
          (gave_back fetch_devs ∷ gave_back op_devs ∷ [])
          (custody r (with_structs k started d).log)
        ≡ some (is_structs r && started)
  unfolding init_workaround_structs
  structs_refused-custody true d h full r = absurd (cc full)
  structs_refused-custody false d h full r =
      let none_held : custody r d.log ≡ some false = h r ∙ ap some (not_set_up r) in
      let both = took fetch_devs ∷ took op_devs ∷ pr_info ∷ d.log in
      let path = gave_back fetch_devs ∷ gave_back op_devs ∷ took fetch_devs ∷ took op_devs ∷ [] in
      elim (Bool-cases (k.alloc_structs both)) [
        | inl room ↦
            let some_room : structs_ready k false d ≡ true = rw (structs_ready, room) refl in
            absurd (cc (some_room, full))
        | inr refused ↦
            rw refused (ap (after r path) none_held ∙ no_structs r ∙ ap some (sym (not_set_up r)))
      ]

  module _ (up : Log → Log) (up-keeps : KeepsCustody up)
      (down-keeps : KeepsCustody b.cpus_down) where
    ready-custody :
        (d : Cpus.Devices) (r : Resource)
        → custody r (up (Cpus.setup_lvt_on_each k online (took online_cpus ∷ d.log)))
          ≡ after r (took online_cpus ∷ []) (custody r d.log)
    ready-custody d r = up-keeps r _ ∙ setup_lvt_on_each-custody k r online _

    register_nmi-custody :
        (e : Ret) (d : Cpus.Devices) (r : Resource)
        → custody r d.log ≡ after r (took ibs_class ∷ took chrdev ∷ setup) (some false)
        → custody r (Load.register_nmi k b old online cpus s e up d).1.log
          ≡ some (
              if not b.hotplug_ok
              then is_class r || is_cpu_lock r
              else elim b.nmi_error [ some e ↦ is_class r | none ↦ not (is_cpu_lock r) ])
    unfolding Load.register_nmi
    register_nmi-custody ret d r h =
        let ready = ready-custody d r ∙ ap (after r (took online_cpus ∷ [])) h in
        elim (Bool-cases b.hotplug_ok) [
          | inr unplugged ↦ rw unplugged (
              destroy-custody _ r
              ∙ ap (after r (teardown (gave_back chrdev ∷ [])))
                  (setup_lvt_on_each-custody k r online _ ∙ ap (after r (took online_cpus ∷ [])) h)
              ∙ no_hotplug r)
          | inl plugged ↦ elim (Option-cases b.nmi_error) [
            | inl handled ↦
                rw (plugged, handled)
                  (ap (after r (took nmi_handler ∷ gave_back online_cpus ∷ took hotplug ∷ [])) ready
                    ∙ all_loaded r)
            | inr (e, refused) ↦
                rw (plugged, refused)
                  (destroy-custody _ r
                    ∙ ap (after r (teardown (gave_back chrdev ∷ []))) (
                        destroy_ibs_hotplug-custody down-keeps _ r
                        ∙ ap (after r (unplug [])) (
                            destroy_ibs_devices-custody online _ r
                            ∙ ap (after r (gave_back online_cpus ∷ took hotplug ∷ [])) ready))
                    ∙ no_nmi r)
          ]
        ]

    register_devices-custody :
        (e : Ret) (d : Cpus.Devices) (r : Resource)
        → custody r d.log ≡ after r setup (some false)
        → custody r (Load.register_devices k b old online cpus s e up d).1.log
          ≡ some (held_registered b r)
    unfolding Load.register_devices
    register_devices-custody ret d r h = elim (Bool-cases b.major_ok) [
      | inr unnumbered ↦
          rw unnumbered (destroy-custody _ r ∙ ap (after r (teardown [])) h ∙ no_buffers r)
      | inl numbered ↦ elim (Option-cases b.class_error) [
        | inr (e, refused) ↦
            rw (numbered, refused)
              (destroy-custody _ r
                ∙ ap (after r (teardown (gave_back chrdev ∷ took chrdev ∷ []))) h
                ∙ no_class r)
        | inl created ↦
            rw (numbered, created)
              (register_nmi-custody ret _ r (ap (after r (took ibs_class ∷ took chrdev ∷ [])) h))
      ]
    ]

    allocate-custody :
        (started : Bool) (d : Cpus.Devices)
        → ((r : Resource) → custody r d.log ≡ some (is_structs r && started))
        → (r : Resource)
        → custody r (Load.allocate k b old online cpus s started up d).1.log
          ≡ some (
              held_after true started
                (structs_ready k started d)
                (buffers_ready k s started cpus d)
                b
                r)
    unfolding Load.allocate
    allocate-custody started d h r =
        let start = with_structs k started d in
        let tried = Cpus.init_cpus k s cpus start in
        elim (Bool-cases b.alloc_op) [
          | inr none_op ↦ rw none_op (h r)
          | inl some_op ↦ elim (Bool-cases b.alloc_fetch) [
            | inr none_fetch ↦
                rw (some_op, none_fetch)
                  (ap (after r (gave_back op_devs ∷ took op_devs ∷ [])) (h r)
                    ∙ no_fetch_devs started r)
            | inl some_fetch ↦ elim (Bool-cases (structs_ready k started d)) [
              | inr full ↦
                  rw (some_op, some_fetch, full) (structs_refused-custody started d h full r)
              | inl room ↦
                  let held : custody r tried.1.log ≡ after r setup (some false) =
                    init_cpus-custody k r s cpus start ∙ structs-custody started d h room r in
                  elim (Bool-cases (Cpus.failed tried.0)) [
                    | inl full ↦
                        rw (some_op, some_fetch, room, full)
                          (destroy-custody _ r ∙ ap (after r (teardown [])) held ∙ no_buffers r)
                    | inr ready ↦
                        rw (some_op, some_fetch, room, ready)
                          (register_devices-custody tried.0 _ r held)
                  ]
            ]
          ]
        ]

  -- No path but the one that loads the driver leaves a possible CPU with a buffer.
  register_devices-frees :
      (e : Ret) (up : Log → Log) (d : Cpus.Devices) (cpu : ℕ)
      → lists cpus cpu ≡ true
      → ((b.major_ok && is_none b.class_error && b.hotplug_ok && is_none b.nmi_error)
          || is_bare (Load.register_devices k b old online cpus s e up d).1 cpu)
        ≡ true
  unfolding Load.register_devices Load.register_nmi
  register_devices-frees ret up d cpu h = elim (Bool-cases b.major_ok) [
    | inr unnumbered ↦ rw unnumbered (destroy-frees _ cpu h)
    | inl numbered ↦ elim (Option-cases b.class_error) [
      | inr (e, refused) ↦ rw (numbered, refused) (destroy-frees _ cpu h)
      | inl created ↦ elim (Bool-cases b.hotplug_ok) [
        | inr unplugged ↦ rw (numbered, created, unplugged) (destroy-frees _ cpu h)
        | inl plugged ↦ elim (Option-cases b.nmi_error) [
          | inr (e, unhandled) ↦ rw (numbered, created, plugged, unhandled) (destroy-frees _ cpu h)
          | inl handled ↦ rw (numbered, created, plugged, handled) refl
        ]
      ]
    ]
  ]

  allocate-frees :
      (started : Bool) (up : Log → Log) (d : Cpus.Devices) (cpu : ℕ)
      → is_bare d cpu ≡ true
      → lists cpus cpu ≡ true
      → (is_loaded true (structs_ready k started d) (buffers_ready k s started cpus d) b
          || is_bare (Load.allocate k b old online cpus s started up d).1 cpu)
        ≡ true
  unfolding Load.allocate
  allocate-frees started up d cpu bare h =
      let tried = Cpus.init_cpus k s cpus (with_structs k started d) in
      elim (Bool-cases b.alloc_op) [
        | inr none_op ↦ rw none_op (ground (arith, bare))
        | inl some_op ↦ elim (Bool-cases b.alloc_fetch) [
          | inr none_fetch ↦ rw (some_op, none_fetch) (ground (arith, bare))
          | inl some_fetch ↦ elim (Bool-cases (structs_ready k started d)) [
            | inr full ↦ rw (some_op, some_fetch, full) bare
            | inl room ↦ elim (Bool-cases (Cpus.failed tried.0)) [
              | inl full ↦ rw (some_op, some_fetch, room, full) (destroy-frees _ cpu h)
              | inr ready ↦
                  rw (some_op, some_fetch, room, ready)
                    (register_devices-frees tried.0 up tried.1 cpu h)
            ]
          ]
        ]
      ]

  ibs_exit-custody :
      KeepsCustody b.cpus_down
      → (d : Cpus.Devices) (r : Resource) → custody r d.log ≡ some (not (is_cpu_lock r))
      → custody r (Load.ibs_exit k b old online cpus s d).log ≡ some false
  unfolding Load.ibs_exit
  ibs_exit-custody down-keeps d r loaded =
      ap (after r (gave_back ibs_class ∷ [])) (
        destroy-custody _ r
        ∙ ap (after r (teardown (gave_back chrdev ∷ []))) (
            destroy_ibs_hotplug-custody down-keeps _ r
            ∙ ap (after r (unplug (gave_back nmi_handler ∷ []))) loaded))
      ∙ all_unloaded r

  ibs_exit-frees :
      (d : Cpus.Devices) (cpu : ℕ)
      → lists cpus cpu ≡ true
      → is_bare (Load.ibs_exit k b old online cpus s d) cpu ≡ true
  unfolding Load.ibs_exit
  ibs_exit-frees d cpu h = destroy-frees _ cpu h

module _ (k : Kernel) (b : Load.Boot) (old : Saved) (online cpus : List ℕ) where
  init-custody :
      (p : Processor) (s : Support) (up : Support → Log → Log) (d : Cpus.Devices)
      → ((s : Support) → KeepsCustody (up s))
      → KeepsCustody b.cpus_down
      → IsFree d.log
      → (r : Resource)
      → let c = check_for_ibs_support k p s d.log in
        let found = record d { log = c.log } in
        custody r (Load.ibs_init k b old online cpus p s up d).1.log
        ≡ some (
            held_after
              (not (Cpus.failed c.ret))
              c.started
              (structs_ready k c.started found)
              (buffers_ready k c.support c.started cpus found)
              b
              r)
  unfolding Load.ibs_init
  init-custody p s up d up-keeps down-keeps h r =
      let c = check_for_ibs_support k p s d.log in
      let checked : (r : Resource) → custody r c.log ≡ some (is_structs r && c.started) = λ r.
        check-custody k r p s d.log ∙ ap (set_up r c.started) (h r) ∙ set_up_first c.started r in
      elim (Bool-cases (Cpus.failed c.ret)) [
        | inl refused ↦ rw refused (checked r)
        | inr fine ↦ rw fine (
            allocate-custody k b old online cpus c.support (up c.support) (up-keeps c.support)
              down-keeps c.started (record d { log = c.log }) checked r)
      ]

  init-frees :
      (p : Processor) (s : Support) (up : Support → Log → Log) (d : Cpus.Devices) (cpu : ℕ)
      → is_bare d cpu ≡ true
      → lists cpus cpu ≡ true
      → let c = check_for_ibs_support k p s d.log in
        let found = record d { log = c.log } in
        (is_loaded
            (not (Cpus.failed c.ret))
            (structs_ready k c.started found)
            (buffers_ready k c.support c.started cpus found)
            b
          || is_bare (Load.ibs_init k b old online cpus p s up d).1 cpu)
        ≡ true
  unfolding Load.ibs_init
  init-frees p s up d cpu bare h =
      let c = check_for_ibs_support k p s d.log in
      elim (Bool-cases (Cpus.failed c.ret)) [
        | inl refused ↦ rw refused bare
        | inr fine ↦ rw fine (
            allocate-frees k b old online cpus c.support c.started (up c.support)
              (record d { log = c.log }) cpu bare h)
      ]

  -- Where nothing is held before, `ibs_init` gives back on its error paths all that it took, but
  -- for three: the structures of the workarounds, where the check of the processor sets them up
  -- and either fails or finds no memory for the devices; the class, once it is created; and the
  -- lock on the CPUs, where the hotplug state is refused. Where nothing is refused, all but that
  -- lock stays held. No error path leaves a possible CPU with a sample buffer, if there was none
  -- before. Bringing CPUs up or down is assumed to take and give back nothing else.
  pub ibs_init-custody :
      (p : Processor) (s : Support) (up : Support → Log → Log) (d : Cpus.Devices)
      → ((s : Support) → KeepsCustody (up s))
      → KeepsCustody b.cpus_down
      → IsFree d.log
      → ((cpu : ℕ) → is_bare d cpu ≡ true)
      → let c = check_for_ibs_support k p s d.log in
        let found = record d { log = c.log } in
        let accepted = not (Cpus.failed c.ret) in
        let structs = structs_ready k c.started found in
        let buffers = buffers_ready k c.support c.started cpus found in
        let left = (Load.ibs_init k b old online cpus p s up d).1 in
        ((r : Resource)
          → custody r left.log ≡ some (held_after accepted c.started structs buffers b r))
        × ((cpu : ℕ) → (is_loaded accepted structs buffers b || leaves_bare cpus left cpu) ≡ true)
  ibs_init-custody p s up d up-keeps down-keeps h bare = (
    λ r. init-custody p s up d up-keeps down-keeps h r,
    λ cpu. elim (Bool-cases (lists cpus cpu)) [
      | inl possible ↦ rw possible (init-frees p s up d cpu (bare cpu) possible)
      | inr other ↦ rw other (ground arith)
    ],
  )

  -- Where nothing is held before, the processor offers IBS, there is memory and the kernel refuses
  -- nothing, `ibs_exit` gives back all that `ibs_init` took, each once, and leaves no device of a
  -- possible CPU with a buffer. Bringing CPUs up or down is assumed to take and give back nothing
  -- else.
  pub ibs_exit-IsFree :
      (p : Processor) (s : Support) (up : Support → Log → Log) (d : Cpus.Devices)
      → ((s : Support) → KeepsCustody (up s))
      → KeepsCustody b.cpus_down
      → IsFree d.log
      → let c = check_for_ibs_support k p s d.log in
        let found = record d { log = c.log } in
        not (Cpus.failed c.ret) ≡ true
        → structs_ready k c.started found ≡ true
        → buffers_ready k c.support c.started cpus found ≡ true
        → grants_all b ≡ true
        → let left =
            Load.ibs_exit k b old online cpus c.support
              (Load.ibs_init k b old online cpus p s up d).1 in
          IsFree left.log × ((cpu : ℕ) → leaves_bare cpus left cpu ≡ true)
  ibs_exit-IsFree p s up d up-keeps down-keeps h fine structs ready granted =
      let c = check_for_ibs_support k p s d.log in
      let found = record d { log = c.log } in
      let loaded = (Load.ibs_init k b old online cpus p s up d).1 in
      let held : (r : Resource)
          → held_after (not (Cpus.failed c.ret)) c.started (structs_ready k c.started found)
              (buffers_ready k c.support c.started cpus found) b r
            ≡ not (is_cpu_lock r) =
        λ r. rw (fine, structs, ready) (granted_held b c.started r granted) in
      (
        λ r.
            ibs_exit-custody k b old online cpus c.support down-keeps _ r
              (init-custody p s up d up-keeps down-keeps h r ∙ ap some (held r)),
        λ cpu. elim (Bool-cases (lists cpus cpu)) [
          | inl possible ↦
              rw (possible, ibs_exit-frees k b old online cpus c.support loaded cpu possible) refl
          | inr other ↦ rw other refl
        ],
      )
