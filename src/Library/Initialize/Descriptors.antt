-- ===== src/Library/Initialize/Descriptors.antt =====
-- What `do_ibs_initialize` and `ibs_finalize` of lib/ibs.c do with file descriptors.
use amd_ibs_toolkit.Base.{
  ℕ, zero, suc, ◌+◌, ◌<◌, ◌≡◌, ◌≢◌, refl, arith, ap, ◌∙◌, Bool, true, false, ◌==◌, ltb,
}
use amd_ibs_toolkit.Base.{Bool-cases, inl, inr, Option, none, some, List, [], ◌∷◌}
use amd_ibs_toolkit.Driver.Ioctl.{Command, set_max_cnt, set_poll_size}
use amd_ibs_toolkit.Driver.Registers.{ibs_op, ibs_fetch}
use amd_ibs_toolkit.Library.Options.{Options}
use amd_ibs_toolkit.Library.State.{IbsCpu, System, Files, Call, opened, close_call}
use amd_ibs_toolkit.Library.Initialize

abbrev pub one : Bool → ℕ
one true = 1
one false = 0

abbrev opens_of : ℕ → Call → ℕ
opens_of fd (opened _ _ n) = one (n == fd)
opens_of fd _ = 0

abbrev closes_of : ℕ → Call → ℕ
closes_of fd (close_call n) = one (n == fd)
closes_of fd _ = 0

-- How often a descriptor was returned by `open`, and how often it was passed to `close`.
abbrev pub opens : ℕ → List Call → ℕ
opens fd [] = 0
opens fd (c ∷ cs) = opens_of fd c + opens fd cs

abbrev pub closes : ℕ → List Call → ℕ
closes fd [] = 0
closes fd (c ∷ cs) = closes_of fd c + closes fd cs

-- How often a CPU, or the CPUs below `n`, have a descriptor in `ibs_cpus`.
abbrev pub holds : ℕ → IbsCpu → ℕ
holds fd c = one (c.op_fd == fd) + one (c.fetch_fd == fd)

abbrev pub held : ℕ → (ℕ → IbsCpu) → ℕ → ℕ
held fd cpus zero = 0
held fd cpus (suc n) = holds fd (cpus n) + held fd cpus n

-- Neither device is open.
pub record Free (c : IbsCpu) : Type 0 where
  pub op : c.op_fd ≡ 0
  pub fetch : c.fetch_fd ≡ 0

-- A step for one CPU: each descriptor opened is closed or held.
pub record Step (fd cpu : ℕ) (st st' : Files) : Type 0 where
  pub others : (c : ℕ) → cpu ≢ c → st'.cpus c ≡ st.cpus c
  pub count :
      opens fd st'.calls + closes fd st.calls + holds fd (st.cpus cpu)
      ≡ opens fd st.calls + closes fd st'.calls + holds fd (st'.cpus cpu)

Step-refl : (fd cpu : ℕ) (st : Files) → Step fd cpu st st
Step-refl fd cpu st = record { others = λ c n. refl; count = refl }

Step-trans : (fd cpu : ℕ) (s t u : Files) → Step fd cpu s t → Step fd cpu t u → Step fd cpu s u
Step-trans fd cpu s t u p q = record {
  others = λ c n. q.others c n ∙ p.others c n;
  count = omega (arith, p.count, q.count);
}

module _ (fd : ℕ) (positive : 0 < fd) where
  store_op-Step :
      (cpu : ℕ) (answer : Option ℕ) (l : Initialize.Library)
      → (l.files.cpus cpu).op_fd ≡ 0
      → Step fd cpu l.files (Initialize.store_op cpu answer l).1.files
  unfolding Initialize.store_op
  store_op-Step cpu none l z = record { others = λ c n. refl; count = omega arith }
  store_op-Step cpu (some n) l z = record { others = λ c n. ground arith; count = ground arith }

  store_fetch-Step :
      (cpu : ℕ) (answer : Option ℕ) (l : Initialize.Library)
      → (l.files.cpus cpu).fetch_fd ≡ 0
      → Step fd cpu l.files (Initialize.store_fetch cpu answer l).1.files
  unfolding Initialize.store_fetch
  store_fetch-Step cpu none l z = record { others = λ c n. refl; count = omega arith }
  store_fetch-Step cpu (some n) l z = record { others = λ c n. ground arith; count = ground arith }

  store_op_fetch :
      (cpu : ℕ) (answer : Option ℕ) (l : Initialize.Library)
      → ((Initialize.store_op cpu answer l).1.files.cpus cpu).fetch_fd ≡ (l.files.cpus cpu).fetch_fd
  unfolding Initialize.store_op
  store_op_fetch cpu none l = refl
  store_op_fetch cpu (some n) l = ground arith

  pub close_cpu-Step : (cpu : ℕ) (st : Files) → Step fd cpu st (Initialize.close_cpu cpu st)
  unfolding Initialize.close_cpu
  close_cpu-Step cpu st = record { others = λ c n. ground arith; count = ground arith }

  pub close_cpu-Free : (cpu : ℕ) (st : Files) → Free ((Initialize.close_cpu cpu st).cpus cpu)
  unfolding Initialize.close_cpu
  close_cpu-Free cpu st = record { op = ground arith; fetch = ground arith }

-- A step that leaves `ibs_cpus` and the counts of a descriptor as they are.
record Still (fd : ℕ) (st st' : Files) : Type 0 where
  cpus : st'.cpus ≡ st.cpus
  opens : opens fd st'.calls ≡ opens fd st.calls
  closes : closes fd st'.calls ≡ closes fd st.calls

Still-trans : (fd : ℕ) (s t u : Files) → Still fd s t → Still fd t u → Still fd s u
Still-trans fd s t u p q = record {
  cpus = q.cpus ∙ p.cpus;
  opens = q.opens ∙ p.opens;
  closes = q.closes ∙ p.closes;
}

Still-Step : (fd cpu : ℕ) (st st' : Files) → Still fd st st' → Step fd cpu st st'
Still-Step fd cpu st st' p = record {
  others = λ c n. ap (λ f. f c) p.cpus;
  count = rw (p.cpus, p.opens, p.closes) refl;
}

module _ (sys : System) (fd : ℕ) where
  ioctl_on_fd-Still :
      (cmd : Command) (arg n : ℕ) (st : Files)
      → Still fd st (Initialize.ioctl_on_fd sys cmd arg n st).1
  unfolding Initialize.ioctl_on_fd
  ioctl_on_fd-Still cmd arg n st = elim (Bool-cases (ltb 0 n)) [
    | inl open_now ↦ rw open_now (record { cpus = refl; opens = omega arith; closes = omega arith })
    | inr shut ↦ rw shut (record { cpus = refl; opens = refl; closes = refl })
  ]

  ibs_apply_ioctl_on_cpu-Still :
      (cmd : Command) (arg cpu : ℕ) (st : Files)
      → Still fd st (Initialize.ibs_apply_ioctl_on_cpu sys cmd arg cpu st).1
  unfolding Initialize.ibs_apply_ioctl_on_cpu
  ibs_apply_ioctl_on_cpu-Still cmd arg cpu st =
      let first = Initialize.ioctl_on_fd sys cmd arg (st.cpus cpu).op_fd st in
      let p = ioctl_on_fd-Still cmd arg (st.cpus cpu).op_fd st in
      let n = (first.1.cpus cpu).fetch_fd in
      elim (Bool-cases first.0) [
        | inl ok ↦ rw ok (
            Still-trans fd st first.1 (Initialize.ioctl_on_fd sys cmd arg n first.1).1 p
              (ioctl_on_fd-Still cmd arg n first.1))
        | inr failed ↦ rw failed p
      ]

  ibs_apply_options_on_cpu-Still :
      (o : Options) (cpu : ℕ) (st : Files)
      → Still fd st (Initialize.ibs_apply_options_on_cpu sys o cpu st).1
  unfolding Initialize.ibs_apply_options_on_cpu
  ibs_apply_options_on_cpu-Still o cpu st =
      let first = Initialize.ibs_apply_ioctl_on_cpu sys set_max_cnt o.ibs_max_cnt cpu st in
      let p = ibs_apply_ioctl_on_cpu-Still set_max_cnt o.ibs_max_cnt cpu st in
      let second =
        Initialize.ibs_apply_ioctl_on_cpu sys set_poll_size o.ibs_poll_num_samples cpu first.1 in
      elim (Bool-cases first.0) [
        | inl ok ↦ rw ok (
            Still-trans fd st first.1 second.1 p
              (ibs_apply_ioctl_on_cpu-Still set_poll_size o.ibs_poll_num_samples cpu first.1))
        | inr failed ↦ rw failed p
      ]

  set_up_cpu-Step :
      (cpu : ℕ) (l : Initialize.Library)
      → Step fd cpu l.files (Initialize.set_up_cpu sys cpu l).1.files
  unfolding Initialize.set_up_cpu
  set_up_cpu-Step cpu l =
      Still-Step fd cpu l.files (Initialize.ibs_apply_options_on_cpu sys l.options cpu l.files).1
        (ibs_apply_options_on_cpu-Still l.options cpu l.files)

  module _ (positive : 0 < fd) where
    open_op-Step :
        (cpu : ℕ) (l : Initialize.Library)
        → (l.files.cpus cpu).op_fd ≡ 0
        → Step fd cpu l.files (Initialize.open_op sys cpu l).1.files
    unfolding Initialize.open_op
    open_op-Step cpu l z = elim (Bool-cases (l.options.ibs_op == 0)) [
      | inl off ↦ rw off (Step-refl fd cpu l.files)
      | inr on ↦
          rw on (store_op-Step fd positive cpu (sys.open_device l.files.calls ibs_op cpu) l z)
    ]

    open_op_fetch :
        (cpu : ℕ) (l : Initialize.Library)
        → ((Initialize.open_op sys cpu l).1.files.cpus cpu).fetch_fd ≡ (l.files.cpus cpu).fetch_fd
    unfolding Initialize.open_op
    open_op_fetch cpu l = elim (Bool-cases (l.options.ibs_op == 0)) [
      | inl off ↦ rw off refl
      | inr on ↦ rw on (store_op_fetch fd positive cpu (sys.open_device l.files.calls ibs_op cpu) l)
    ]

    open_fetch-Step :
        (cpu : ℕ) (l : Initialize.Library)
        → (l.files.cpus cpu).fetch_fd ≡ 0
        → Step fd cpu l.files (Initialize.open_fetch sys cpu l).1.files
    unfolding Initialize.open_fetch
    open_fetch-Step cpu l z = elim (Bool-cases (l.options.ibs_fetch == 0)) [
      | inl off ↦ rw off (Step-refl fd cpu l.files)
      | inr on ↦
          rw on (store_fetch-Step fd positive cpu (sys.open_device l.files.calls ibs_fetch cpu) l z)
    ]

    open_cpu-Step :
        (cpu : ℕ) (l : Initialize.Library)
        → Free (l.files.cpus cpu)
        → Step fd cpu l.files (Initialize.open_cpu sys cpu l).1.files
    unfolding Initialize.open_cpu
    open_cpu-Step cpu l free =
        let first = Initialize.open_op sys cpu l in
        let second = Initialize.open_fetch sys cpu first.1 in
        let p = open_op-Step cpu l free.op in
        let q =
          Step-trans fd cpu l.files first.1.files second.1.files p
            (open_fetch-Step cpu first.1 (open_op_fetch cpu l ∙ free.fetch)) in
        elim (Bool-cases first.0) [
          | inl op_ok ↦ elim (Bool-cases second.0) [
            | inl fetch_ok ↦
                rw (op_ok, fetch_ok)
                  (Step-trans fd cpu l.files second.1.files
                    (Initialize.set_up_cpu sys cpu second.1).1.files q
                    (set_up_cpu-Step cpu second.1))
            | inr fetch_bad ↦ rw (op_ok, fetch_bad) q
          ]
          | inr op_bad ↦ rw op_bad p
        ]

    pub open_online-Step :
        (cpu : ℕ) (l : Initialize.Library)
        → Free (l.files.cpus cpu)
        → Step fd cpu l.files (Initialize.open_online sys cpu l).1.files
    unfolding Initialize.open_online
    open_online-Step cpu l free = elim (Bool-cases (sys.is_cpu_online cpu)) [
      | inl on ↦ rw on (open_cpu-Step cpu l free)
      | inr off ↦ rw off (Step-refl fd cpu l.files)
    ]
