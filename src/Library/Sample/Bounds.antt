-- ===== src/Library/Sample/Bounds.antt =====
-- What `do_ibs_sample` of lib/ibs.c puts into the caller's arrays.
use amd_ibs_toolkit.Base.{
  ℕ, zero, suc, ◌+◌, ◌-◌, ◌≤◌, ◌<◌, ◌≡◌, refl, arith, Bool, true, false, not, ◌&&◌, ◌||◌, ◌==◌, ltb,
}
use amd_ibs_toolkit.Base.{Bool-cases, inl, inr, if◌then◌else◌, Option, none, some}
use amd_ibs_toolkit.Library.Options.{Options}
use amd_ibs_toolkit.Driver.Ioctl.{fionread}
use amd_ibs_toolkit.Library.State.{
  Selected, select_error, interrupted, timed_out, some_ready, select_call,
}
use amd_ibs_toolkit.Library.State.{System, call, ioctl_call}
use amd_ibs_toolkit.Library.Sample
use amd_ibs_toolkit.Library.Sample.Answers.{
  tag, Answered, copy_in_before, copy_in_new, read_samples-Answered,
}

not_lt_zero : (i : ℕ) → ¬ (i < 0)
not_lt_zero i h = omega (arith, h)

-- There are at most `max` new samples, and each has the type that stands beside it, one of those
-- that are wanted.
record Typed (ok : Sample.SampleType → Bool) (max : ℕ) (b : Sample.Batch) : Type 0 where
  bound : b.total_new_samples ≤ max
  typed : (i : ℕ) → i < b.total_new_samples → b.sample_types i ≡ tag (b.samples i)
  wanted : (i : ℕ) → i < b.total_new_samples → ok (b.sample_types i) ≡ true

-- The types that `sample_flags` asks for.
abbrev pub wants : Bool → Bool → Sample.SampleType → Bool
wants want_op want_fetch Sample.op_type = want_op
wants want_op want_fetch Sample.fetch_type = want_fetch

module _ (sys : System) (o : Options) (ok : Sample.SampleType → Bool) where
  Typed-count_samples :
      (type : Sample.SampleType) (max : ℕ) (b : Sample.Batch) (out : Option ℕ × Sample.Batch)
      → ok type ≡ true
      → Typed ok max b
      → Answered type b.total_new_samples (max - b.total_new_samples) b out
      → Typed ok max (Sample.count_samples type b.total_new_samples max out).1
  unfolding Sample.count_samples
  Typed-count_samples type max b (none, b') on t missed = record {
    bound = rw missed.total t.bound;
    typed = λ i h. rw (missed.types, missed.samples) (t.typed i (omega (arith, h, missed.total)));
    wanted = λ i h. rw missed.types (t.wanted i (omega (arith, h, missed.total)));
  }
  Typed-count_samples type max b (some n, b') on t got = record {
    bound = omega (arith, t.bound, got.bound);
    typed = λ i h. elim (Bool-cases (ltb i b.total_new_samples)) [
      | inl old ↦
          let p : i < b.total_new_samples = ground arith in
          rw
            (
              got.types,
              copy_in_before b.total_new_samples n (λ j. type) b.sample_types i p,
              got.before i p,
            )
            (t.typed i p)
      | inr new ↦
          let p : b.total_new_samples ≤ i = ground arith in
          rw
            (
              got.types,
              copy_in_new b.total_new_samples n (λ j. type) b.sample_types i p h,
              got.new i p h,
            )
            refl
    ];
    wanted = λ i h. elim (Bool-cases (ltb i b.total_new_samples)) [
      | inl old ↦
          let p : i < b.total_new_samples = ground arith in
          rw (got.types, copy_in_before b.total_new_samples n (λ j. type) b.sample_types i p)
            (t.wanted i p)
      | inr new ↦
          let p : b.total_new_samples ≤ i = ground arith in
          rw (got.types, copy_in_new b.total_new_samples n (λ j. type) b.sample_types i p h) on
    ];
  }

  get_from-Typed :
      (type : Sample.SampleType) (fd max : ℕ) (b : Sample.Batch)
      → ok type ≡ true
      → Typed ok max b
      → Typed ok max (Sample.get_from sys o type fd max b).1
  unfolding Sample.get_from Sample.do_ibs_get_sample
  get_from-Typed type fd max b on t =
      let off = b.total_new_samples in
      let asked = call (ioctl_call fd fionread 0) b.files in
      let answer = sys.ioctl b.files.calls fd fionread 0 in
      Typed-count_samples type max b
        (Sample.read_samples sys o type fd off (max - off) (record b { files = asked }) answer) on t
        (read_samples-Answered sys o type fd off (max - off) b asked answer)

  module _ (want_op want_fetch : Bool) (ready : ℕ → Bool) (max : ℕ)
      (op_ok : want_op ≡ true → ok Sample.op_type ≡ true)
      (fetch_ok : want_fetch ≡ true → ok Sample.fetch_type ≡ true) where
    half-Typed :
        (want : Bool) (type : Sample.SampleType) (fd : ℕ) (b : Sample.Batch)
        → (want ≡ true → ok type ≡ true)
        → Typed ok max b
        → Typed ok max (Sample.half sys o want_op want_fetch ready max want type fd b).1
    half-Typed want type fd b on t =
        elim (Bool-cases (want && ltb 0 fd && (not (o.ibs_aggressive_read == 0) || ready fd))) [
          | inl go ↦ rw go (get_from-Typed type fd max b (on (ground arith)) t)
          | inr skip ↦ rw skip t
        ]

    get_from_cpu-Typed :
        (cpu : ℕ) (b : Sample.Batch)
        → Typed ok max b
        → Typed ok max (Sample.get_from_cpu sys o want_op want_fetch ready max cpu b).1
    unfolding Sample.get_from_cpu
    get_from_cpu-Typed cpu b t =
        let first =
          Sample.half sys o want_op want_fetch ready max want_op Sample.op_type
            (b.files.cpus cpu).op_fd b in
        let t1 = half-Typed want_op Sample.op_type (b.files.cpus cpu).op_fd b op_ok t in
        elim (Bool-cases first.0) [
          | inl stop ↦ rw stop t1
          | inr go ↦ rw go (
              half-Typed want_fetch Sample.fetch_type (first.1.files.cpus cpu).fetch_fd first.1
                fetch_ok t1)
        ]

    get_all_from-Typed :
        (list : ℕ → Bool) (left cpu : ℕ) (b : Sample.Batch)
        → Typed ok max b
        → Typed ok max (Sample.get_all_from sys o want_op want_fetch ready max list left cpu b)
    unfolding Sample.get_all_from
    get_all_from-Typed list zero cpu b t = t
    get_all_from-Typed list (suc left) cpu b t =
        let got = Sample.get_from_cpu sys o want_op want_fetch ready max cpu b in
        let t1 = get_from_cpu-Typed cpu b t in
        elim (Bool-cases (list cpu)) [
          | inl listed ↦ elim (Bool-cases got.0) [
            | inl stop ↦ rw (listed, stop) t1
            | inr go ↦ rw (listed, go) (get_all_from-Typed list left (cpu + 1) got.1 t1)
          ]
          | inr skip ↦ rw skip (get_all_from-Typed list left (cpu + 1) b t)
        ]

    do_ibs_get_all_samples-Typed :
        (list : ℕ → Bool) (num_cpus : ℕ) (b : Sample.Batch)
        → Typed ok max
            (Sample.do_ibs_get_all_samples sys o want_op want_fetch ready max list num_cpus b)
    unfolding Sample.do_ibs_get_all_samples
    do_ibs_get_all_samples-Typed list num_cpus b =
        get_all_from-Typed list num_cpus 0 (record b { total_new_samples = 0 })
          (record {
            bound = omega arith;
            typed = λ i h. absurd (not_lt_zero i h);
            wanted = λ i h. absurd (not_lt_zero i h);
          })

some_injective : (m n : ℕ) → some m ≡ some n → m ≡ n
some_injective m n e = cc e

module _ (ok : Sample.SampleType → Bool) where
  -- What a return value of `do_ibs_sample` says.
  abbrev Filled : ℕ → Option ℕ × Sample.Batch → Type 0
  Filled max (none, b) = Unit
  Filled max (some n, b) =
      (i : ℕ)
      → i < n
      → (n ≤ max) × (b.sample_types i ≡ tag (b.samples i)) × (ok (b.sample_types i) ≡ true)

  Typed-Filled :
      (max : ℕ) (b : Sample.Batch) → Typed ok max b → Filled max (some b.total_new_samples, b)
  Typed-Filled max b t i h = (t.bound, t.typed i h, t.wanted i h)

  idle-Filled :
      (max : ℕ) (skip : Bool) (b all : Sample.Batch)
      → Typed ok max all
      → Filled max (if skip then (some 0, b) else (some all.total_new_samples, all))
  idle-Filled max true b all t = λ i h. absurd (not_lt_zero i h)
  idle-Filled max false b all t = Typed-Filled max all t

  answer_of-Filled :
      (max : ℕ) (answer : Selected) (b : Sample.Batch) (idle : Option ℕ × Sample.Batch)
      (all : Sample.Batch)
      → Filled max idle
      → Typed ok max all
      → Filled max (Sample.answer_of answer b idle all)
  unfolding Sample.answer_of
  answer_of-Filled max select_error b idle all f t = tt
  answer_of-Filled max interrupted b idle all f t = f
  answer_of-Filled max timed_out b idle all f t = f
  answer_of-Filled max some_ready b idle all f t = Typed-Filled max all t

  Filled-some :
      (max : ℕ) (out : Option ℕ × Sample.Batch) (n i : ℕ)
      → Filled max out
      → out.0 ≡ some n
      → i < n
      → (n ≤ max)
        × (out.1.sample_types i ≡ tag (out.1.samples i))
        × (ok (out.1.sample_types i) ≡ true)
  Filled-some max (none, b) n i f e h = absurd (cc e)
  Filled-some max (some m, b) n i f e h =
      rw (← some_injective m n e) (f i (rw (some_injective m n e) h))

module _ (sys : System) (o : Options) where
  do_ibs_sample-Filled :
      (max : ℕ) (want_op want_fetch : Bool) (list : ℕ → Bool) (num_cpus : ℕ) (b : Sample.Batch)
      → Filled
          (wants want_op want_fetch)
          max
          (Sample.do_ibs_sample sys o max want_op want_fetch list num_cpus b)
  unfolding Sample.do_ibs_sample
  do_ibs_sample-Filled max want_op want_fetch list num_cpus b =
      let fds = Sample.watch_from want_op want_fetch list b.files.cpus num_cpus 0 in
      let timeout = o.ibs_poll_timeout in
      let asked = record b { files = call (select_call fds timeout) b.files } in
      let ready = sys.fd_isset asked.files.calls in
      let skip = o.ibs_read_on_timeout == 0 in
      let all =
        Sample.do_ibs_get_all_samples sys o want_op want_fetch ready max list num_cpus asked in
      let t =
        do_ibs_get_all_samples-Typed sys o (wants want_op want_fetch) want_op want_fetch ready max
          (λ e. e) (λ e. e) list num_cpus asked in
      elim (Bool-cases (max == 0)) [
        | inl none_wanted ↦ rw none_wanted tt
        | inr some_wanted ↦ elim (Bool-cases (not want_op && not want_fetch)) [
          | inl no_flag ↦ rw (some_wanted, no_flag) tt
          | inr flag ↦
              rw (some_wanted, flag)
                (answer_of-Filled (wants want_op want_fetch) max
                  (sys.select b.files.calls fds timeout) asked
                  (if skip then (some 0, asked) else (some all.total_new_samples, all)) all
                  (idle-Filled (wants want_op want_fetch) max skip asked all t) t)
        ]
      ]

  -- When `do_ibs_sample` returns a number of samples, that number is at most `max_samples`, and
  -- each of that many entries of the caller's two arrays is a sample beside its own type, which
  -- is one that `sample_flags` asks for.
  pub do_ibs_sample-typed :
      (max : ℕ) (want_op want_fetch : Bool) (list : ℕ → Bool) (num_cpus : ℕ) (b : Sample.Batch)
      (n i : ℕ)
      → (Sample.do_ibs_sample sys o max want_op want_fetch list num_cpus b).0 ≡ some n
      → i < n
      → let filled = (Sample.do_ibs_sample sys o max want_op want_fetch list num_cpus b).1 in
        (n ≤ max)
        × (filled.sample_types i ≡ tag (filled.samples i))
        × (wants want_op want_fetch (filled.sample_types i) ≡ true)
  do_ibs_sample-typed max want_op want_fetch list num_cpus b n i =
      Filled-some (wants want_op want_fetch) max
        (Sample.do_ibs_sample sys o max want_op want_fetch list num_cpus b) n i
        (do_ibs_sample-Filled max want_op want_fetch list num_cpus b)
