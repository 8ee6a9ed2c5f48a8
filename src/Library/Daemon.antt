-- ===== src/Library/Daemon.antt =====
-- `ibs_sample` and `start_ibs_daemon` of lib/ibs.c. Memory is taken to be there. What the functions
-- for writing a sample write is the list of samples that they were given.
pub mod Writes
pub mod Statistics
use amd_ibs_toolkit.Base.{
  ℕ, zero, suc, ◌+◌, ◌%◌, ◌^◌, Bool, true, false, not, ◌&&◌, ◌||◌, ◌==◌, if◌then◌else◌,
}
use amd_ibs_toolkit.Base.{Option, none, some, List, [], ◌∷◌, ◌++◌}
use amd_ibs_toolkit.Text.{Bytes, codes, print_dec}
use amd_ibs_toolkit.Driver.Device.{Sample}
use amd_ibs_toolkit.Library.State.{System, Files}
use amd_ibs_toolkit.Library.Options.{Options}
use amd_ibs_toolkit.Library.Enable.{ibs_enable_all}
use amd_ibs_toolkit.Library.Sample.{Batch, SampleType, op_type, fetch_type, do_ibs_sample}
use amd_ibs_toolkit.Library.Initialize.{Library, ibs_finalize}

-- The local variables of `start_ibs_daemon` in its loop, and the two files.
pub record Daemon : Type 0 where
  pub batch : Batch
  pub num_ops : ℕ
  pub num_fetches : ℕ
  pub num_samples : ℕ
  pub op_file : List Sample
  pub fetch_file : List Sample
  -- the lines at the end of each file
  pub op_stats : List Bytes
  pub fetch_stats : List Bytes

-- The body of the loop over the new samples; `none` stands for an `assert` that fails.
unfoldable pub write_sample : Bool → Bool → SampleType → Sample → Daemon → Option Daemon
write_sample want_op want_fetch op_type x d =
    if want_op
    then some (record d { op_file = d.op_file ++ (x ∷ []); num_ops = (d.num_ops + 1) % 2 ^ 64 })
    else none
write_sample want_op want_fetch fetch_type x d =
    if want_fetch
    then some (record d {
      fetch_file = d.fetch_file ++ (x ∷ []);
      num_fetches = (d.num_fetches + 1) % 2 ^ 64;
    })
    else none

abbrev write_next : Bool → Bool → ℕ → Option Daemon → Option Daemon
write_next want_op want_fetch i none = none
write_next want_op want_fetch i (some d) =
    write_sample want_op want_fetch (d.batch.sample_types i) (d.batch.samples i) d

-- The loop over the first `n` samples.
unfoldable pub write_samples : Bool → Bool → ℕ → Daemon → Option Daemon
unfolding write_sample
write_samples want_op want_fetch zero d = some d
write_samples want_op want_fetch (suc i) d =
    write_next want_op want_fetch i (write_samples want_op want_fetch i d)

abbrev write_new : Bool → Bool → Option ℕ → Daemon → Option Daemon
write_new want_op want_fetch none d = some d
write_new want_op want_fetch (some n) d =
    write_samples want_op want_fetch n (record d { num_samples = (d.num_samples + n) % 2 ^ 64 })

abbrev enabled : ℕ → Bool
enabled flag = not (flag == 0)

-- The two lines at the end of a file, where it is open: its own samples and all.
abbrev stats : Bool → Bytes → ℕ → ℕ → List Bytes
stats false title n total = []
stats true title n total =
    (title ++ print_dec n ++ 10 ∷ [])
    ∷ (codes "IBS total samples: " ++ print_dec total ++ 10 ∷ [])
    ∷ []

unfoldable pub print_stats : Options → Daemon → Daemon
unfolding print_dec
print_stats o d = record d {
  op_stats = stats (enabled o.ibs_op) (codes "IBS OP    samples: ") d.num_ops d.num_samples;
  fetch_stats =
      stats (enabled o.ibs_fetch) (codes "IBS FETCH samples: ") d.num_fetches d.num_samples;
}

module _ (sys : System) (o : Options) (num_cpus : ℕ) where
  abbrev listed : ℕ → Bool
  listed cpu = enabled (o.ibs_cpu_list cpu)

  unfoldable pub ibs_sample : ℕ → Bool → Bool → Batch → Option ℕ × Batch
  unfolding do_ibs_sample
  ibs_sample max_samples want_op want_fetch b =
      do_ibs_sample sys o max_samples want_op want_fetch listed num_cpus b

  -- A round of the loop.
  unfoldable pub daemon_round : Daemon → Option Daemon
  unfolding ibs_sample write_samples
  daemon_round d =
      let want_op = enabled o.ibs_op in
      let want_fetch = enabled o.ibs_fetch in
      let (new_samples, b) = ibs_sample o.ibs_daemon_max_samples want_op want_fetch d.batch in
      write_new want_op want_fetch new_samples (record d { batch = b })

  -- The loop, for as many rounds as there are before a signal sets `die`.
  unfoldable pub daemon_rounds : ℕ → Daemon → Option Daemon
  unfolding daemon_round
  daemon_rounds zero d = some d
  daemon_rounds (suc left) d =
      let first = daemon_round d in elim first [ none ↦ none | some d' ↦ daemon_rounds left d' ]

  -- The library after the loop and `ibs_finalize`, with what the loop left.
  abbrev pub finish : Library → Option Daemon → Option (Library × Daemon)
  unfolding print_stats
  finish l none = none
  finish l (some d) = some (ibs_finalize sys (record l { files = d.batch.files }), print_stats o d)

-- The variables before the loop: what `malloc` left in the arrays, and nothing written.
abbrev pub fresh : (ℕ → Sample) → (ℕ → SampleType) → Library → Daemon
fresh samples types l = record {
  batch = record {
    samples = samples;
    sample_types = types;
    total_new_samples = 0;
    files = l.files;
  };
  num_ops = 0;
  num_fetches = 0;
  num_samples = 0;
  op_file = [];
  fetch_file = [];
  op_stats = [];
  fetch_stats = [];
}

-- `opens` says whether `fopen` opens the files that are asked for. The status is `true` for 0;
-- `none` is an `assert` that fails.
unfoldable pub start_ibs_daemon :
    System → Bool → ℕ → (ℕ → Sample) → (ℕ → SampleType) → Library → Bool × Option (Library × Daemon)
unfolding ibs_enable_all daemon_rounds ibs_finalize
start_ibs_daemon sys opens rounds samples types l =
    let o = l.options in
    let (on, st) = ibs_enable_all sys (listed sys o l.num_cpus) l.num_cpus l.files in
    let ready = record l { files = st } in
    let start = fresh samples types ready in
    let idle = fresh samples types l in
    let looped = daemon_rounds sys o l.num_cpus rounds start in
    if not (enabled o.ibs_fetch) && not (enabled o.ibs_op)
    then (true, some (l, idle))
    else if not opens
    then (false, some (l, idle))
    else if not on
    then (false, some (ready, start))
    else (true, finish sys o l.num_cpus ready looped)
