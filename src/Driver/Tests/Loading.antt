-- ===== src/Driver/Tests/Loading.antt =====
-- The theorems on loading and unloading the driver at a concrete processor.
use amd_ibs_toolkit.Base.{ℕ, ◌≡◌, refl, arith, ◌++◌, true, false, not, ◌||◌, [], ◌∷◌, some}
use amd_ibs_toolkit.Driver.Device.{Log, Resource, enomem, ok, chrdev, hotplug, nmi_handler}
use amd_ibs_toolkit.Text.{codes}
use amd_ibs_toolkit.Driver.Registers.{ibs_fetch, ibs_minor}
use amd_ibs_toolkit.Driver.Devnode.{ibs_dev_path, ibs_devnode, ibs_dev_path-ibs_devnode}
use amd_ibs_toolkit.Driver.Cpus
use amd_ibs_toolkit.Driver.Load
use amd_ibs_toolkit.Driver.Support.{Support, check_for_ibs_support}
use amd_ibs_toolkit.Driver.Load.Custody.{custody, ibs_online_up-custody, ibs_prepare_down-custody}
use amd_ibs_toolkit.Driver.Load.Paths.{
  IsFree, KeepsCustody, held_after, structs_ready, buffers_ready, leaves_bare, is_loaded,
}
use amd_ibs_toolkit.Driver.Load.Failure.{refused-answers_0}
use amd_ibs_toolkit.Driver.Workarounds.{init_workaround_structs, start_fam17h_zn_static_workaround}
use amd_ibs_toolkit.Driver.Load.Balance.{ibs_init-custody, ibs_exit-IsFree}
use amd_ibs_toolkit.Driver.Tests.{kernel, saved, ring}
use amd_ibs_toolkit.Driver.Tests.Setup.{zen, no_support, devices, boot}

-- CPU 0 goes up and down with the callbacks of the driver.
abbrev up : Support → Log → Log
up s log = (Cpus.ibs_online_up kernel s (λ f cpu. false) 0 (true, log)).1

abbrev down : Log → Log
down = Cpus.ibs_prepare_down kernel no_support saved 0 devices 0

up-KeepsCustody : (s : Support) → KeepsCustody (up s)
up-KeepsCustody s r log = ibs_online_up-custody kernel r s (λ f cpu. false) 0 log

down-KeepsCustody : KeepsCustody down
down-KeepsCustody r log = ibs_prepare_down-custody kernel r no_support saved 0 devices 0 log

empty-IsFree : IsFree []
empty-IsFree r = refl

abbrev granted : Load.Boot
granted = record boot { cpus_down = down }

-- As `alloc_percpu` clears them.
abbrev fresh_devices : Cpus.Devices
fresh_devices = record {
  op = λ cpu. record ring { mapped = false };
  fetch = λ cpu. record ring { mapped = false };
  log = [];
}

-- The kernel refuses the interrupt handler.
abbrev refused : Load.Boot
refused = record granted { nmi_error = some enomem }

-- The kernel refuses the hotplug state.
abbrev unplugged : Load.Boot
unplugged = record granted { hotplug_ok = false }

ibs_init-custody_example :
    let c = check_for_ibs_support kernel zen no_support [] in
    let found = record fresh_devices { log = c.log } in
    let accepted = not (Cpus.failed c.ret) in
    let structs = structs_ready kernel c.started found in
    let buffers = buffers_ready kernel c.support c.started (0 ∷ []) found in
    let left =
      (Load.ibs_init kernel refused saved (0 ∷ []) (0 ∷ []) zen no_support up fresh_devices).1 in
    ((r : Resource)
      → custody r left.log ≡ some (held_after accepted c.started structs buffers refused r))
    × ((cpu : ℕ)
        → (is_loaded accepted structs buffers refused || leaves_bare (0 ∷ []) left cpu) ≡ true)
ibs_init-custody_example =
    ibs_init-custody kernel refused saved (0 ∷ []) (0 ∷ []) zen no_support up fresh_devices
      up-KeepsCustody down-KeepsCustody empty-IsFree (λ cpu. refl)

ibs_exit-IsFree_example :
    let c = check_for_ibs_support kernel zen no_support [] in
    let left =
      Load.ibs_exit kernel granted saved
        (0 ∷ [])
        (0 ∷ [])
        c.support
        (Load.ibs_init kernel granted saved (0 ∷ []) (0 ∷ []) zen no_support up fresh_devices).1 in
    IsFree left.log × ((cpu : ℕ) → leaves_bare (0 ∷ []) left cpu ≡ true)
unfolding check_for_ibs_support Cpus.init_cpus init_workaround_structs
    start_fam17h_zn_static_workaround
ibs_exit-IsFree_example =
    ibs_exit-IsFree kernel granted saved (0 ∷ []) (0 ∷ []) zen no_support up fresh_devices
      up-KeepsCustody down-KeepsCustody empty-IsFree refl refl refl refl

refused-answers_0_example :
    let (ret, left) =
      Load.ibs_init kernel unplugged saved (0 ∷ []) (0 ∷ []) zen no_support up fresh_devices in
    (ret ≡ ok 0)
    × (custody chrdev left.log ≡ some false)
    × (custody hotplug left.log ≡ some false)
    × (custody nmi_handler left.log ≡ some false)
    × ((cpu : ℕ) → leaves_bare (0 ∷ []) left cpu ≡ true)
unfolding check_for_ibs_support Cpus.init_cpus init_workaround_structs
    start_fam17h_zn_static_workaround
refused-answers_0_example =
    refused-answers_0 kernel unplugged saved (0 ∷ []) (0 ∷ []) zen no_support up fresh_devices
      up-KeepsCustody down-KeepsCustody empty-IsFree (λ cpu. refl) refl refl refl refl

ibs_dev_path-ibs_devnode_example :
    ibs_dev_path ibs_fetch 12 32 ≡ codes "/dev/" ++ ibs_devnode (ibs_minor ibs_fetch 12)
ibs_dev_path-ibs_devnode_example = ibs_dev_path-ibs_devnode ibs_fetch 12 (omega arith)
