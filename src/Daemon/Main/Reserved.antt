-- ===== src/Daemon/Main/Reserved.antt =====
-- The core that tools/ibs_daemon/ibs_daemon.c reserves for the daemon.
use amd_ibs_toolkit.Base.{
  ℕ, ◌+◌, ◌-◌, ◌<◌, ◌≡◌, refl, arith, Bool, true, false, not, ◌&&◌, ◌==◌, ltb, if◌then◌else◌, none,
  some, Option, Bool-cases, inl, inr, List, ◌∷◌,
}
use amd_ibs_toolkit.Library.State.{System, Call, kill_call}
use amd_ibs_toolkit.Library.Initialize.{
  Library, Outcome, returns, runs_daemon, daemonized, do_ibs_initialize, is_success, start_of,
  save_options, ibs_initialize, ibs_finalize,
}
use amd_ibs_toolkit.Library.Options.{ibs_set_option, Setting}
use amd_ibs_toolkit.Daemon.Cores.{fill_out_online_cores}
use amd_ibs_toolkit.Daemon.Cores.Ranges.{Range, print_ranges, listed, count, last_of, all_small}
use amd_ibs_toolkit.Daemon.Cores.Listed.{fill_out_online_cores-listed}
use amd_ibs_toolkit.Daemon.Main.{
  Files, Machine, Plan, child_done, reserve_last, daemon_options, clean_exit, run_child,
  sample_child, main,
}

-- On a line as the kernel prints it, with numbers of one digit, of which the tool is told how many
-- CPUs it lists, the CPUs on which the child may run are those that the line lists but for the
-- last, the same are those that the library is told to sample, and `daemon_cpu_list`, which the
-- library keeps but never reads, marks just the last.
pub reserve_last-listed :
    (m : Machine) (file : ℕ) (l : Library) (r : Range) (rest : List Range) (cpu : ℕ)
    → all_small m.num_cpus r rest ≡ true
    → m.num_online_cpus ≡ count r rest
    → m.online ≡ print_ranges r rest
    → cpu < m.num_cpus
    → let plan = reserve_last (fill_out_online_cores m.num_cpus m.num_online_cpus m.online) in
      let told = (start_of m.num_cpus (daemon_options m plan file) l).options in
      let shared = not (cpu == last_of r rest) && listed r rest cpu in
      (plan.procs cpu ≡ shared)
      × (not (told.ibs_cpu_list cpu == 0) ≡ shared)
      × (plan.daemon_cpu_list cpu ≡ (cpu == last_of r rest))
unfolding reserve_last start_of save_options ibs_set_option daemon_options
reserve_last-listed m file l r rest cpu small online line there =
    let (last, lists) = fill_out_online_cores-listed m.num_cpus r rest small in
    let (set, free) = lists cpu in
    let in_range : ltb cpu m.num_cpus ≡ true = ground (arith, there) in
    let ends : last_of r rest + 1 - 1 ≡ last_of r rest = omega arith in
    simp (online, line, last, set, free, in_range, ends) (refl, ground arith, refl)

not_zero : (ret : Option ℕ) → is_success ret ≡ false → ¬ (returns ret ≡ returns (some 0))
not_zero none bad same = cc same
not_zero (some n) bad same = let zero : n ≡ 0 = cc same in ground (arith, bad, zero)

-- The end of `ibs_initialize` with `daemonize` set.
abbrev conclude : Option ℕ → Library → Option ℕ → Library → Outcome × Library
conclude forked l ret l1 =
    if l.ibs_initialized
    then (returns none, l)
    else if not (is_success ret)
    then (returns ret, l1)
    else daemonized forked l1

conclude-daemon :
    (forked : Option ℕ) (pid : ℕ) (l : Library) (ret : Option ℕ) (l1 : Library)
    → forked ≡ some pid
    → 0 < pid
    → (conclude forked l ret l1).0 ≡ returns (some 0)
    → (conclude forked l ret l1).1.ibs_daemon ≡ pid
unfolding daemonized
conclude-daemon forked pid l ret l1 known positive zero =
    let child : pid == 0 ≡ false = ground (arith, positive) in
    elim (Bool-cases l.ibs_initialized) [
      | inl again ↦ cc (simp again at zero)
      | inr first ↦ elim (Bool-cases (is_success ret)) [
        | inl good ↦ simp (first, good, known, child) refl
        | inr bad ↦ absurd (not_zero ret bad (simp (first, bad) at zero))
      ]
    ]

-- `ibs_initialize` answers 0 only with a daemon that is the process of `fork`.
initialized-daemon :
    (sys : System) (nprocs : ℕ) (settings : List Setting) (forked : Option ℕ) (pid : ℕ)
    (l : Library)
    → forked ≡ some pid
    → 0 < pid
    → let (outcome, l') = ibs_initialize sys nprocs settings true forked l in
      outcome ≡ returns (some 0) → l'.ibs_daemon ≡ pid
unfolding ibs_initialize daemonized
initialized-daemon sys nprocs settings forked pid l known positive zero =
    let tried = do_ibs_initialize sys nprocs settings l in
    conclude-daemon forked pid l tried.0 tried.1 known positive zero

run_child-finalizes :
    (sys : System) (plan : Plan) (file : ℕ) (outcome : Outcome) (l : Library) (procs : ℕ → Bool)
    → (run_child sys plan file outcome l).0 ≡ child_done procs
    → (outcome ≡ returns (some 0)) × ((run_child sys plan file outcome l).1 ≡ ibs_finalize sys l)
unfolding run_child clean_exit
run_child-finalizes sys plan file runs_daemon l procs h = cc h
run_child-finalizes sys plan file (returns none) l procs h = cc h
run_child-finalizes sys plan file (returns (some status)) l procs h =
    elim (Bool-cases (status == 0)) [
      | inl zero ↦ let same : status ≡ 0 = ground (arith, zero) in simp (zero, same) (refl, refl)
      | inr bad ↦ cc (simp bad at h)
    ]

-- The library forgets the daemon and sends it a signal.
abbrev pub Stopped : ℕ → Library → Type 0
Stopped pid l =
    (l.ibs_daemon ≡ 0) × ((before : List Call) × (l.files.calls ≡ kill_call pid ∷ before))

ibs_finalize-Stopped :
    (sys : System) (pid : ℕ) (l : Library)
    → 0 < pid
    → l.ibs_daemon ≡ pid
    → Stopped pid (ibs_finalize sys l)
unfolding ibs_finalize
ibs_finalize-Stopped sys pid l positive same =
    let some_daemon : pid == 0 ≡ false = ground (arith, positive) in
    simp (same, some_daemon) (refl, (_, refl))

sample_child-Stopped :
    (sys : System) (m : Machine) (plan : Plan) (file pid : ℕ) (l : Library) (procs : ℕ → Bool)
    → m.forked ≡ some pid
    → 0 < pid
    → (sample_child sys m plan (some file) l).0 ≡ child_done procs
    → Stopped pid (sample_child sys m plan (some file) l).1
unfolding sample_child
sample_child-Stopped sys m plan file pid l procs forked positive done =
    let settings = daemon_options m plan file in
    let tried = ibs_initialize sys m.num_cpus settings true m.forked l in
    let (zero, ended) = run_child-finalizes sys plan file tried.0 tried.1 procs done in
    rw ended (
      ibs_finalize-Stopped sys pid tried.1 positive
        (initialized-daemon sys m.num_cpus settings m.forked pid l forked positive zero))

-- Where the child ran while IBS sampled, `main` ends with the library's daemon told to stop: the
-- process that `fork` returned gets the signal, and the library forgets it.
pub main-stops_daemon :
    (sys : System) (m : Machine) (f : Files) (l : Library) (file pid : ℕ) (procs : ℕ → Bool)
    → f.global_op_file ≡ some file
    → m.forked ≡ some pid
    → 0 < pid
    → (main sys m f l).0 ≡ child_done procs
    → Stopped pid (main sys m f l).1
unfolding main
main-stops_daemon sys m f l file pid procs named forked positive done =
    let c = fill_out_online_cores m.num_cpus m.num_online_cpus m.online in
    elim (Bool-cases (ltb m.num_online_cpus 2)) [
      | inl few ↦ cc (simp few at done)
      | inr enough ↦ elim (Bool-cases (ltb c.after_previous 2)) [
        | inl none_good ↦ cc (simp (enough, none_good) at done)
        | inr good ↦
            rw (enough, good, named)
              (sample_child-Stopped sys m (reserve_last c) file pid l procs forked positive
                (rw (enough, good, named) at done))
      ]
    ]
