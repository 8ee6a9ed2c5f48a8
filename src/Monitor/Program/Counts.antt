-- ===== src/Monitor/Program/Counts.antt =====
-- The numbers that a whole run of tools/ibs_monitor/ibs_monitor.c prints.
use amd_ibs_toolkit.Base.{ℕ, zero, suc, ◌+◌, ◌≡◌, refl, Bool, true, false, if◌then◌else◌}
use amd_ibs_toolkit.Base.{Option, none, some, List, [], ◌∷◌, ◌++◌}
use amd_ibs_toolkit.Driver.Registers.{Flavor, ibs_op, ibs_fetch}
use amd_ibs_toolkit.Driver.Device.{IbsOp, IbsFetch}
use amd_ibs_toolkit.Driver.Ioctl.{set_buffer_size, set_max_cnt, set_poll_size, ibs_enable}
use amd_ibs_toolkit.Library.State.{System, opened}
use amd_ibs_toolkit.Monitor.Arguments.{Argument, Arguments, parse_args}
use amd_ibs_toolkit.Monitor.Sampling
use amd_ibs_toolkit.Monitor.Sampling.Statistics.{Counted, Matches, sample-Counted}
use amd_ibs_toolkit.Monitor.Sampling.Descriptors.{occurs, never_fails, sample-ends}
use amd_ibs_toolkit.Library.Initialize.Descriptors.{closes}
use amd_ibs_toolkit.Monitor.Program

pair_if-Counted :
    (b : Bool) (x y : List ℕ × Sampling.Sampler)
    → Counted x.1
    → Counted y.1
    → Counted (if b then x else y).1
pair_if-Counted true x y p q = p
pair_if-Counted false x y p q = q

-- `enable_ibs_flavors` leaves the files and clears the counters, so both match.
module _ (sys : System) where
  enable_device-Counted :
      (u : Sampling.Setup) (flavor : Flavor) (cpu : ℕ) (fd : Option ℕ) (fds : List ℕ)
      (st : Sampling.Sampler)
      → Counted st
      → Counted (Sampling.enable_device sys u flavor cpu fd (fds, st)).1
  unfolding Sampling.enable_device Sampling.ask
  enable_device-Counted u flavor cpu none fds st c = c
  enable_device-Counted u flavor cpu (some fd) fds st c =
      let s1 =
        Sampling.ask sys set_buffer_size u.buffer_size fd
          (Sampling.call (opened flavor cpu fd) st) in
      let s2 =
        Sampling.ask sys set_max_cnt u.max_cnt fd
          (Sampling.ask sys set_poll_size u.poll_entries fd s1) in
      let s3 = Sampling.ask sys ibs_enable 0 fd s2 in
      pair_if-Counted (Sampling.is_zero sys (sys.ioctl s2.calls fd ibs_enable 0))
        (fds ++ (fd ∷ []), s3) (fds, s3) c c

  enable_flavor-Counted :
      (u : Sampling.Setup) (flavor : Flavor) (cpu_list : ℕ → Bool) (left cpu : ℕ) (fds : List ℕ)
      (st : Sampling.Sampler)
      → Counted st
      → Counted (Sampling.enable_flavor sys u flavor cpu_list left cpu (fds, st)).1
  unfolding Sampling.enable_flavor Sampling.enable_online
  enable_flavor-Counted u flavor cpu_list zero cpu fds st c = c
  enable_flavor-Counted u flavor cpu_list (suc left) cpu fds st c =
      let tried =
        Sampling.enable_device sys u flavor cpu (sys.open_device st.calls flavor cpu) (fds, st) in
      let next = if cpu_list cpu then tried else (fds, st) in
      enable_flavor-Counted u flavor cpu_list left (cpu + 1) next.0 next.1 (
        pair_if-Counted (cpu_list cpu) tried (fds, st)
          (enable_device-Counted u flavor cpu _ fds st c) c)

  enable_ibs_flavors-Counted :
      (op fetch : Sampling.Setup) (want_op want_fetch : Bool) (cpu_list : ℕ → Bool) (num_cpus : ℕ)
      (st : Sampling.Sampler)
      → Counted (Sampling.cleared st)
      → Counted (Sampling.enable_ibs_flavors sys op fetch want_op want_fetch cpu_list num_cpus st).1
  unfolding Sampling.enable_ibs_flavors
  enable_ibs_flavors-Counted op fetch want_op want_fetch cpu_list num_cpus st c =
      let start : List ℕ × Sampling.Sampler = ([], Sampling.cleared st) in
      let ran = Sampling.enable_flavor sys op ibs_op cpu_list num_cpus 0 start in
      let ops = if want_op then ran else start in
      let second : List ℕ × Sampling.Sampler = ([], ops.1) in
      let ops-Counted =
        pair_if-Counted want_op ran start
          (enable_flavor-Counted op ibs_op cpu_list num_cpus 0 [] (Sampling.cleared st) c) c in
      pair_if-Counted want_fetch
        (Sampling.enable_flavor sys fetch ibs_fetch cpu_list num_cpus 0 second) second
        (enable_flavor-Counted fetch ibs_fetch cpu_list num_cpus 0 [] ops.1 ops-Counted) ops-Counted

empty-Matches {ℓ κ} :
    {A : Type ℓ} (B : Type κ) (file : Option A)
    → Matches 0 (Program.empty_file {A = A} {B = B} file)
empty-Matches B none = tt
empty-Matches B (some name) = refl

new_sampler-Counted : (a : Arguments) → Counted (Sampling.cleared (Program.new_sampler a))
new_sampler-Counted a = (empty-Matches IbsOp a.opf, empty-Matches IbsFetch a.fetchf)

enable_all-Counted : (w : Program.Surroundings) (a : Arguments) → Counted (Program.enable_all w a).1
unfolding Program.enable_all
enable_all-Counted w a =
    enable_ibs_flavors-Counted w.system _ _ a.wants_op a.wants_fetch _ w.num_cpus
      (Program.new_sampler a) (new_sampler-Counted a)

monitor-Counted :
    (w : Program.Surroundings) (a : Arguments) (st : Sampling.Sampler)
    → Program.monitor w a ≡ some st
    → Counted st
unfolding Program.monitor
monitor-Counted w a st e =
    let enabled = Program.enable_all w a in
    sample-Counted w.system a.settings.buffer_size enabled.0.0 enabled.0.1 w.polls enabled.1 st
      (enable_all-Counted w a) e

-- Where the options are accepted, the headers can be written and `poll` never fails, the monitor
-- comes to its end. Each number of samples that it prints is then the number of samples in the
-- file, modulo 2 ^ 64, if that file was asked for, and each descriptor was passed to `close` as
-- often as `enable_ibs_flavors` put it into `fds`, and no more.
pub main-ends :
    (w : Program.Surroundings) (args : List Argument) (a : Arguments) (headers : Program.Headers)
    → parse_args w.cpuid w.opens args Program.no_arguments ≡ some a
    → Program.output_headers w.cpuid w.op_machine w.fetch_machine a.opf a.fetchf ≡ some headers
    → never_fails w.polls ≡ true
    → let enabled = Program.enable_all w a in
      (run : Program.Run) × (Program.main w args ≡ some run)
      × Counted run.sampler
      × ((fd : ℕ)
          → closes fd run.sampler.calls
            ≡ closes fd enabled.1.calls + occurs fd (enabled.0.0 ++ enabled.0.1))
unfolding Program.main Program.monitor Program.end_of_run
main-ends w args a headers parsed written works =
    let enabled = Program.enable_all w a in
    let size = a.settings.buffer_size in
    let ends =
      λ (fd : ℕ). sample-ends w.system fd size enabled.0.0 enabled.0.1 w.polls enabled.1 works in
    let (st, sampled, closed) = ends 0 in
    (
      Program.end_of_run w a headers st,
      simp (parsed, written, sampled) refl,
      monitor-Counted w a st sampled,
      λ fd.
          let (st', sampled', closed') = ends fd in
          let same : st' ≡ st = cc (sampled, sampled') in rw (← same) closed',
    )
