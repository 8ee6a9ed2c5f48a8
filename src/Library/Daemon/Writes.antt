-- ===== src/Library/Daemon/Writes.antt =====
-- What a round of the loop of `start_ibs_daemon` of lib/ibs.c writes.
use amd_ibs_toolkit.Base.{ℕ, zero, suc, ◌+◌, ◌%◌, ◌^◌, ◌<◌, ◌≡◌, refl, arith, ap, ◌∙◌, Bool, true}
use amd_ibs_toolkit.Base.{Option, none, some, [], ◌∷◌, ◌++◌, length, length-append}
use amd_ibs_toolkit.Driver.Device.{Sample}
use amd_ibs_toolkit.Library.State.{System}
use amd_ibs_toolkit.Library.Options.{Options}
use amd_ibs_toolkit.Library.Sample.{SampleType, op_type, fetch_type}
use amd_ibs_toolkit.Library.Sample.Bounds.{wants, do_ibs_sample-typed}
use amd_ibs_toolkit.Library.Daemon

-- The number of samples in both files.
abbrev pub written : Daemon.Daemon → ℕ
written d = length d.op_file + length d.fetch_file

-- The number of samples that a return value of `ibs_sample` stands for.
abbrev pub count_of : Option ℕ → ℕ
count_of none = 0
count_of (some n) = n

-- Both counters are the lengths of their files, modulo 2 ^ 64.
abbrev pub Matched : Daemon.Daemon → Type 0
Matched d = (d.num_ops ≡ length d.op_file % 2 ^ 64) × (d.num_fetches ≡ length d.fetch_file % 2 ^ 64)

-- So is the number of all samples.
abbrev pub Counted : Daemon.Daemon → Type 0
Counted d = Matched d × (d.num_samples ≡ written d % 2 ^ 64)

-- What writing `n` samples does, when no `assert` fails.
record Wrote (n : ℕ) (d : Daemon.Daemon) (out : Option Daemon.Daemon) : Type 0 where
  after : Daemon.Daemon
  returns : out ≡ some after
  more : written after ≡ written d + n
  batch : after.batch ≡ d.batch
  matched : Matched d → Matched after
  total : after.num_samples ≡ d.num_samples

-- What a round does that is told of `n` new samples.
pub record Rounded (n : ℕ) (d : Daemon.Daemon) (out : Option Daemon.Daemon) : Type 0 where
  pub after : Daemon.Daemon
  pub returns : out ≡ some after
  pub more : written after ≡ written d + n
  pub counted : Counted d → Counted after

write_sample-Wrote :
    (want_op want_fetch : Bool) (type : SampleType) (x : Sample) (d : Daemon.Daemon)
    → wants want_op want_fetch type ≡ true
    → Wrote 1 d (Daemon.write_sample want_op want_fetch type x d)
unfolding Daemon.write_sample
write_sample-Wrote want_op want_fetch op_type x d on = record {
  after = record d { op_file = d.op_file ++ (x ∷ []); num_ops = (d.num_ops + 1) % 2 ^ 64 };
  returns = rw on refl;
  more = omega (arith, length-append d.op_file (x ∷ []));
  batch = refl;
  matched = λ (o, f). (omega (arith, o, length-append d.op_file (x ∷ [])), f);
  total = refl;
}
write_sample-Wrote want_op want_fetch fetch_type x d on = record {
  after = record d {
    fetch_file = d.fetch_file ++ (x ∷ []);
    num_fetches = (d.num_fetches + 1) % 2 ^ 64;
  };
  returns = rw on refl;
  more = omega (arith, length-append d.fetch_file (x ∷ []));
  batch = refl;
  matched = λ (o, f). (o, omega (arith, f, length-append d.fetch_file (x ∷ [])));
  total = refl;
}

write_samples-Wrote :
    (want_op want_fetch : Bool) (n : ℕ) (d : Daemon.Daemon)
    → ((i : ℕ) → i < n → wants want_op want_fetch (d.batch.sample_types i) ≡ true)
    → Wrote n d (Daemon.write_samples want_op want_fetch n d)
unfolding Daemon.write_samples
write_samples-Wrote want_op want_fetch zero d on = record {
  after = d;
  returns = refl;
  more = omega arith;
  batch = refl;
  matched = λ m. m;
  total = refl;
}
write_samples-Wrote want_op want_fetch (suc n) d on =
    let first = write_samples-Wrote want_op want_fetch n d (λ i h. on i (omega (arith, h))) in
    let mid = first.after in
    let next =
      write_sample-Wrote want_op want_fetch (mid.batch.sample_types n) (mid.batch.samples n) mid
        (ap (λ b. wants want_op want_fetch (b.sample_types n)) first.batch ∙ on n (omega arith)) in
    record {
      after = next.after;
      returns = ap (Daemon.write_next want_op want_fetch n) first.returns ∙ next.returns;
      more = omega (arith, first.more, next.more);
      batch = next.batch ∙ first.batch;
      matched = λ m. next.matched (first.matched m);
      total = next.total ∙ first.total;
    }

write_new-Rounded :
    (want_op want_fetch : Bool) (answer : Option ℕ) (d : Daemon.Daemon)
    → ((n i : ℕ)
        → answer ≡ some n
        → i < n
        → wants want_op want_fetch (d.batch.sample_types i) ≡ true)
    → Rounded (count_of answer) d (Daemon.write_new want_op want_fetch answer d)
write_new-Rounded want_op want_fetch none d on = record {
  after = d;
  returns = refl;
  more = omega arith;
  counted = λ c. c;
}
write_new-Rounded want_op want_fetch (some n) d on =
    let counted = record d { num_samples = (d.num_samples + n) % 2 ^ 64 } in
    let w = write_samples-Wrote want_op want_fetch n counted (λ i h. on n i refl h) in
    record {
      after = w.after;
      returns = w.returns;
      more = w.more;
      counted = λ (m, c). (w.matched m, omega (arith, c, w.more, w.total));
    }

module _ (sys : System) (o : Options) (num_cpus : ℕ) where
  -- In a round of the daemon's loop no `assert` fails, as many samples as `ibs_sample` returned are
  -- added to the two files, and the counters keep up with the files.
  pub daemon_round-Rounded :
      (d : Daemon.Daemon)
      → let answer =
          (Daemon.ibs_sample sys o num_cpus o.ibs_daemon_max_samples
            (Daemon.enabled o.ibs_op)
            (Daemon.enabled o.ibs_fetch)
            d.batch).0 in
        Rounded (count_of answer) d (Daemon.daemon_round sys o num_cpus d)
  unfolding Daemon.daemon_round Daemon.ibs_sample
  daemon_round-Rounded d =
      let want_op = Daemon.enabled o.ibs_op in
      let want_fetch = Daemon.enabled o.ibs_fetch in
      let list = Daemon.listed sys o num_cpus in
      let max = o.ibs_daemon_max_samples in
      let sampled = Daemon.ibs_sample sys o num_cpus max want_op want_fetch d.batch in
      let w =
        write_new-Rounded want_op want_fetch sampled.0 (record d { batch = sampled.1 })
          (λ n i e h.
            (do_ibs_sample-typed sys o max want_op want_fetch list num_cpus d.batch n i e h).2) in
      record { after = w.after; returns = w.returns; more = w.more; counted = w.counted }

  -- In a round of the daemon's loop no `assert` fails, and as many samples as `ibs_sample` returned
  -- are added to the two files.
  daemon_round-writes :
      (d : Daemon.Daemon)
      → let answer =
          (Daemon.ibs_sample sys o num_cpus o.ibs_daemon_max_samples
            (Daemon.enabled o.ibs_op)
            (Daemon.enabled o.ibs_fetch)
            d.batch).0 in
        (d' : Daemon.Daemon) × (Daemon.daemon_round sys o num_cpus d ≡ some d')
        × (written d' ≡ written d + count_of answer)
  daemon_round-writes d = let w = daemon_round-Rounded d in (w.after, w.returns, w.more)
