-- ===== src/Driver/Load/Paths.antt =====
-- The paths through `ibs_init` and `ibs_exit` of driver/ibs-core.c as what they take and give back.
use amd_ibs_toolkit.Base.{
  ℕ, List, [], ◌∷◌, ◌≡◌, refl, arith, Bool, true, false, not, ◌&&◌, ◌||◌, if◌then◌else◌, none, some,
  Option,
}
use amd_ibs_toolkit.Driver.Device.{Kernel, Log, Effect, Resource, took, gave_back, pr_info}
use amd_ibs_toolkit.Driver.Device.{
  op_devs, fetch_devs, workaround_structs, chrdev, ibs_class, hotplug, nmi_handler, online_cpus,
}
use amd_ibs_toolkit.Driver.Support.{Support}
use amd_ibs_toolkit.Driver.Cpus
use amd_ibs_toolkit.Driver.Load
use amd_ibs_toolkit.Driver.Load.Custody.{custody, change, set_up, lists, is_bare}
use amd_ibs_toolkit.Driver.Workarounds.{init_workaround_structs}

-- Nothing is held, and nothing was given back twice.
abbrev pub IsFree : Log → Type 0
IsFree log = (r : Resource) → custody r log ≡ some false

-- A step that neither takes nor gives back.
abbrev pub KeepsCustody : (Log → Log) → Type 0
KeepsCustody step = (r : Resource) (log : Log) → custody r (step log) ≡ custody r log

abbrev pub is_class : Resource → Bool
is_class ibs_class = true
is_class _ = false

abbrev pub is_structs : Resource → Bool
is_structs workaround_structs = true
is_structs _ = false

abbrev pub is_cpu_lock : Resource → Bool
is_cpu_lock online_cpus = true
is_cpu_lock _ = false

abbrev pub is_none {ℓ} : {A : Type ℓ} → Option A → Bool
is_none none = true
is_none (some a) = false

-- What stays held after `register_devices`, by the answers of the kernel.
abbrev pub held_registered : Load.Boot → Resource → Bool
held_registered b r = if not b.major_ok then false else elim b.class_error [
  | some e ↦ false
  | none ↦
      if not b.hotplug_ok
      then is_class r || is_cpu_lock r
      else elim b.nmi_error [ some e ↦ is_class r | none ↦ not (is_cpu_lock r) ]
]

-- The same for `ibs_init`: whether the processor offers IBS, whether `workarounds_started` is set by
-- the check of that, and whether there is memory for the structures and for the buffers.
abbrev pub held_after : Bool → Bool → Bool → Bool → Load.Boot → Resource → Bool
held_after accepted started structs buffers b r =
    if not (accepted && b.alloc_op && b.alloc_fetch && structs)
    then is_structs r && started
    else if buffers
    then held_registered b r
    else false

-- The custody after some effects, newest first.
abbrev pub after : Resource → List Effect → Option Bool → Option Bool
after r [] held = held
after r (e ∷ es) held = change r e (after r es held)

abbrev pub teardown : List Effect → List Effect
teardown es = gave_back workaround_structs ∷ gave_back op_devs ∷ gave_back fetch_devs ∷ es

abbrev pub unplug : List Effect → List Effect
unplug es = gave_back online_cpus ∷ gave_back hotplug ∷ took online_cpus ∷ es

abbrev pub setup : List Effect
setup = took workaround_structs ∷ took fetch_devs ∷ took op_devs ∷ []

abbrev pub classed : List Effect
classed = took online_cpus ∷ took ibs_class ∷ took chrdev ∷ setup

abbrev pub loaded : List Effect
loaded = took nmi_handler ∷ gave_back online_cpus ∷ took hotplug ∷ classed

-- Whether `ibs_init` finds memory for the structures of the workarounds, the devices then, and
-- whether it finds memory for the buffers.
abbrev set_up_structs : Kernel → Bool → Cpus.Devices → Bool × Log
set_up_structs k started d =
    init_workaround_structs k (started, took fetch_devs ∷ took op_devs ∷ pr_info ∷ d.log)

abbrev pub structs_ready : Kernel → Bool → Cpus.Devices → Bool
structs_ready k started d = (set_up_structs k started d).0

abbrev pub with_structs : Kernel → Bool → Cpus.Devices → Cpus.Devices
with_structs k started d = record d { log = (set_up_structs k started d).1 }

abbrev pub buffers_ready : Kernel → Support → Bool → List ℕ → Cpus.Devices → Bool
buffers_ready k s started cpus d =
    not (Cpus.failed (Cpus.init_cpus k s cpus (with_structs k started d)).0)

-- The kernel refuses nothing that `ibs_init` asks for.
abbrev pub grants_all : Load.Boot → Bool
grants_all b =
    b.alloc_op
    && b.alloc_fetch
    && b.major_ok
    && is_none b.class_error
    && b.hotplug_ok
    && is_none b.nmi_error

-- `ibs_init` comes to its end without an error.
abbrev pub is_loaded : Bool → Bool → Bool → Load.Boot → Bool
is_loaded accepted structs buffers b = accepted && structs && buffers && grants_all b

-- A CPU that is listed has no buffer.
abbrev pub leaves_bare : List ℕ → Cpus.Devices → ℕ → Bool
leaves_bare cpus d cpu = not (lists cpus cpu) || is_bare d cpu

-- Two values that agree at each resource.
abbrev pub Agree : (Resource → Option Bool) → (Resource → Option Bool) → Type 0
Agree f g =
    (f op_devs ≡ g op_devs)
    × (f fetch_devs ≡ g fetch_devs)
    × (f workaround_structs ≡ g workaround_structs)
    × (f chrdev ≡ g chrdev)
    × (f ibs_class ≡ g ibs_class)
    × (f hotplug ≡ g hotplug)
    × (f nmi_handler ≡ g nmi_handler)
    × (f online_cpus ≡ g online_cpus)

Agree-all : (f g : Resource → Option Bool) → Agree f g → (r : Resource) → f r ≡ g r
Agree-all f g h op_devs = h.0
Agree-all f g h fetch_devs = h.1
Agree-all f g h workaround_structs = h.2
Agree-all f g h chrdev = h.3
Agree-all f g h ibs_class = h.4
Agree-all f g h hotplug = h.5
Agree-all f g h nmi_handler = h.6
Agree-all f g h online_cpus = h.7

-- The paths of the driver as what they take and give back. The structures of the workarounds may
-- be held from the start.
pub set_up_again :
    (r : Resource)
    → after r (took fetch_devs ∷ took op_devs ∷ []) (some (is_structs r && true))
      ≡ after r setup (some false)
set_up_again = Agree-all _ _ (refl, refl, refl, refl, refl, refl, refl, refl)

pub not_set_up : (r : Resource) → (is_structs r && false) ≡ false
not_set_up r = ground arith

pub set_up_first :
    (started : Bool) (r : Resource) → set_up r started (some false) ≡ some (is_structs r && started)
set_up_first true = Agree-all _ _ (refl, refl, refl, refl, refl, refl, refl, refl)
set_up_first false = Agree-all _ _ (refl, refl, refl, refl, refl, refl, refl, refl)

pub no_fetch_devs :
    (started : Bool) (r : Resource)
    → after r (gave_back op_devs ∷ took op_devs ∷ []) (some (is_structs r && started))
      ≡ some (is_structs r && started)
no_fetch_devs true = Agree-all _ _ (refl, refl, refl, refl, refl, refl, refl, refl)
no_fetch_devs false = Agree-all _ _ (refl, refl, refl, refl, refl, refl, refl, refl)

pub no_buffers : (r : Resource) → after r (teardown setup) (some false) ≡ some false
no_buffers = Agree-all _ _ (refl, refl, refl, refl, refl, refl, refl, refl)

pub no_structs :
    (r : Resource)
    → after r
        (gave_back fetch_devs ∷ gave_back op_devs ∷ took fetch_devs ∷ took op_devs ∷ [])
        (some false)
      ≡ some false
no_structs = Agree-all _ _ (refl, refl, refl, refl, refl, refl, refl, refl)

pub no_class :
    (r : Resource)
    → after r (teardown (gave_back chrdev ∷ took chrdev ∷ setup)) (some false) ≡ some false
no_class = Agree-all _ _ (refl, refl, refl, refl, refl, refl, refl, refl)

pub no_hotplug :
    (r : Resource)
    → after r (teardown (gave_back chrdev ∷ classed)) (some false)
      ≡ some (is_class r || is_cpu_lock r)
no_hotplug = Agree-all _ _ (refl, refl, refl, refl, refl, refl, refl, refl)

pub no_nmi :
    (r : Resource)
    → after r
        (teardown (gave_back chrdev ∷ unplug (gave_back online_cpus ∷ took hotplug ∷ classed)))
        (some false)
      ≡ some (is_class r)
no_nmi = Agree-all _ _ (refl, refl, refl, refl, refl, refl, refl, refl)

pub all_loaded : (r : Resource) → after r loaded (some false) ≡ some (not (is_cpu_lock r))
all_loaded = Agree-all _ _ (refl, refl, refl, refl, refl, refl, refl, refl)

pub all_unloaded :
    (r : Resource)
    → after r
        (gave_back ibs_class ∷ teardown (gave_back chrdev ∷ unplug (gave_back nmi_handler ∷ [])))
        (some (not (is_cpu_lock r)))
      ≡ some false
all_unloaded = Agree-all _ _ (refl, refl, refl, refl, refl, refl, refl, refl)
