-- ===== src/Library/Enable/Quiet.antt =====
-- `ibs_enable_all` of lib/ibs.c: which devices its calls leave sampling.
use amd_ibs_toolkit.Base.{
  ℕ, zero, suc, ◌+◌, ◌≤◌, ◌<◌, ◌≡◌, ◌≢◌, refl, arith, ap, ◌∙◌, sym, Bool, true, false, not, ◌&&◌,
  ◌||◌, ◌==◌, ltb, List, [], ◌∷◌, Bool-cases, inl, inr, ◌⊎◌,
}
use mathlib.Core.Bool.{true≢false}
use amd_ibs_toolkit.Driver.Ioctl.{ibs_enable, ibs_disable}
use amd_ibs_toolkit.Library.State.{IbsCpu, System, Files, Call, ioctl_call}
use amd_ibs_toolkit.Library.Enable
use amd_ibs_toolkit.Library.Enable.Rollback.{
  disable_listed_other, enable_listed_other, enable_from_end, enable_from_on, enable_from_stop,
}

-- A descriptor was passed to IBS_ENABLE with success, and not to IBS_DISABLE since.
abbrev pub is_sampling : System → ℕ → List Call → Bool
is_sampling sys fd [] = false
is_sampling sys fd (ioctl_call fd' ibs_enable arg ∷ calls) =
    (fd' == fd && Enable.succeeded (sys.ioctl calls fd' ibs_enable arg)) || is_sampling sys fd calls
is_sampling sys fd (ioctl_call fd' ibs_disable arg ∷ calls) =
    not (fd' == fd) && is_sampling sys fd calls
is_sampling sys fd (_ ∷ calls) = is_sampling sys fd calls

-- Neither device of a CPU is enabled or samples.
pub record IsQuiet (sys : System) (c : IbsCpu) (calls : List Call) : Type 0 where
  pub op : c.op_enabled ≡ false
  pub fetch : c.fetch_enabled ≡ false
  pub op_quiet : is_sampling sys c.op_fd calls ≡ false
  pub fetch_quiet : is_sampling sys c.fetch_fd calls ≡ false

-- A device of a CPU that samples is marked as enabled.
record IsCoupled (sys : System) (c : IbsCpu) (calls : List Call) : Type 0 where
  op : (not c.op_enabled && is_sampling sys c.op_fd calls) ≡ false
  fetch : (not c.fetch_enabled && is_sampling sys c.fetch_fd calls) ≡ false

-- The open devices of a CPU have other descriptors than those of another.
abbrev pub are_apart : IbsCpu → IbsCpu → Bool
are_apart e c =
    not (ltb 0 e.op_fd && (e.op_fd == c.op_fd || e.op_fd == c.fetch_fd))
    && not (ltb 0 e.fetch_fd && (e.fetch_fd == c.op_fd || e.fetch_fd == c.fetch_fd))

abbrev pub has_two : IbsCpu → Bool
has_two c = not (ltb 0 c.op_fd && c.op_fd == c.fetch_fd)

module _ (sys : System) (list : ℕ → Bool) where
  enable_listed-fds :
      (cpu i : ℕ) (st : Files)
      → let st' = (Enable.enable_listed sys list cpu st).1 in
        ((st'.cpus i).op_fd ≡ (st.cpus i).op_fd) × ((st'.cpus i).fetch_fd ≡ (st.cpus i).fetch_fd)
  unfolding Enable.enable_listed Enable.ibs_enable_cpu Enable.ibs_disable_cpu
  enable_listed-fds cpu i st = (ground arith, ground arith)

  -- Disabling starts no device.
  disable_listed-starts :
      (cpu fd : ℕ) (st : Files)
      → (is_sampling sys fd (Enable.disable_listed sys list cpu st).calls
          && not (is_sampling sys fd st.calls))
        ≡ false
  unfolding Enable.disable_listed Enable.ibs_disable_cpu
  disable_listed-starts cpu fd st = ground arith

  -- Enabling a CPU starts no device but its own.
  enable_listed-starts :
      (cpu fd : ℕ) (st : Files)
      → (ltb 0 (st.cpus cpu).op_fd && (st.cpus cpu).op_fd == fd) ≡ false
      → (ltb 0 (st.cpus cpu).fetch_fd && (st.cpus cpu).fetch_fd == fd) ≡ false
      → (is_sampling sys fd (Enable.enable_listed sys list cpu st).1.calls
          && not (is_sampling sys fd st.calls))
        ≡ false
  unfolding Enable.enable_listed Enable.ibs_enable_cpu Enable.ibs_disable_cpu
  enable_listed-starts cpu fd st op fetch = ground (arith, op, fetch)

  enable_listed-IsCoupled :
      (cpu : ℕ) (st : Files)
      → has_two (st.cpus cpu) ≡ true
      → IsQuiet sys (st.cpus cpu) st.calls
      → let st' = (Enable.enable_listed sys list cpu st).1 in IsCoupled sys (st'.cpus cpu) st'.calls
  unfolding Enable.enable_listed Enable.ibs_enable_cpu Enable.ibs_disable_cpu
  enable_listed-IsCoupled cpu st two q =
      ground (arith, two, q.op, q.fetch, q.op_quiet, q.fetch_quiet)

  disable_listed-IsQuiet :
      (cpu : ℕ) (st : Files)
      → list cpu ≡ true
      → IsCoupled sys (st.cpus cpu) st.calls
      → let st' = Enable.disable_listed sys list cpu st in IsQuiet sys (st'.cpus cpu) st'.calls
  unfolding Enable.disable_listed Enable.ibs_disable_cpu
  disable_listed-IsQuiet cpu st on q = ground (arith, on, q.op, q.fetch)

  -- What a step that leaves `c` and starts none of its devices keeps.
  IsQuiet-kept :
      (c c' : IbsCpu) (calls calls' : List Call)
      → c' ≡ c
      → ((fd : ℕ)
          → (fd ≡ c.op_fd) ⊎ (fd ≡ c.fetch_fd)
          → (is_sampling sys fd calls' && not (is_sampling sys fd calls)) ≡ false)
      → IsQuiet sys c calls
      → IsQuiet sys c' calls'
  IsQuiet-kept c c' calls calls' same starts q =
      let op = starts c.op_fd (inl refl) in
      let fetch = starts c.fetch_fd (inr refl) in
      rw same (record {
        op = q.op;
        fetch = q.fetch;
        op_quiet = ground (arith, op, q.op_quiet);
        fetch_quiet = ground (arith, fetch, q.fetch_quiet);
      })

  IsCoupled-kept :
      (c c' : IbsCpu) (calls calls' : List Call)
      → c' ≡ c
      → ((fd : ℕ)
          → (fd ≡ c.op_fd) ⊎ (fd ≡ c.fetch_fd)
          → (is_sampling sys fd calls' && not (is_sampling sys fd calls)) ≡ false)
      → IsCoupled sys c calls
      → IsCoupled sys c' calls'
  IsCoupled-kept c c' calls calls' same starts q =
      let op = starts c.op_fd (inl refl) in
      let fetch = starts c.fetch_fd (inr refl) in
      rw same (record { op = ground (arith, op, q.op); fetch = ground (arith, fetch, q.fetch) })

  -- The devices of `c` are not started by enabling another CPU.
  apart-starts :
      (cpu c : ℕ) (st : Files)
      → are_apart (st.cpus cpu) (st.cpus c) ≡ true
      → (fd : ℕ) → (fd ≡ (st.cpus c).op_fd) ⊎ (fd ≡ (st.cpus c).fetch_fd)
      → (is_sampling sys fd (Enable.enable_listed sys list cpu st).1.calls
          && not (is_sampling sys fd st.calls))
        ≡ false
  apart-starts cpu c st apart fd (inl e) =
      enable_listed-starts cpu fd st (rw e (ground (arith, apart))) (rw e (ground (arith, apart)))
  apart-starts cpu c st apart fd (inr e) =
      enable_listed-starts cpu fd st (rw e (ground (arith, apart))) (rw e (ground (arith, apart)))

  IsQuiet-disable_down :
      (n c : ℕ) (st : Files)
      → n ≤ c
      → IsQuiet sys (st.cpus c) st.calls
      → let st' = Enable.disable_down sys list n st in IsQuiet sys (st'.cpus c) st'.calls
  unfolding Enable.disable_down
  IsQuiet-disable_down zero c st h q = q
  IsQuiet-disable_down (suc n) c st h q =
      IsQuiet-disable_down n c (Enable.disable_listed sys list n st) (omega arith) (
        IsQuiet-kept (st.cpus c) _ st.calls _
          (disable_listed_other sys list n c st (λ e. omega (arith, e)))
          (λ fd e. disable_listed-starts n fd st) q)

  disable_down-IsQuiet :
      (n c : ℕ) (st : Files)
      → c < n
      → list c ≡ true
      → IsCoupled sys (st.cpus c) st.calls
      → let st' = Enable.disable_down sys list n st in IsQuiet sys (st'.cpus c) st'.calls
  unfolding Enable.disable_down
  disable_down-IsQuiet zero c st h on q = absurd (omega arith)
  disable_down-IsQuiet (suc n) c st h on q =
      let next = Enable.disable_listed sys list n st in
      elim (Bool-cases (ltb c n)) [
        | inl below ↦ disable_down-IsQuiet n c next (ground arith) on (
            IsCoupled-kept (st.cpus c) _ st.calls _
              (disable_listed_other sys list n c st (λ e. ground (arith, e)))
              (λ fd e. disable_listed-starts n fd st) q)
        | inr last ↦
            let e : c ≡ n = ground arith in
            IsQuiet-disable_down n c next (omega (arith, e))
              (rw e (disable_listed-IsQuiet n st (rw (← e) on) (rw (← e) q)))
      ]

  -- The state of the loop for a CPU `c`, from `cpu` on: the other CPUs have other descriptors, and
  -- `c` is quiet until its round.
  record Before (cpu c : ℕ) (st : Files) : Type 0 where
    apart : (i : ℕ) → i ≢ c → are_apart (st.cpus i) (st.cpus c) ≡ true
    two : has_two (st.cpus c) ≡ true
    coupled : IsCoupled sys (st.cpus c) st.calls
    quiet : cpu ≤ c → IsQuiet sys (st.cpus c) st.calls

  enable_listed-Before :
      (cpu c : ℕ) (st : Files)
      → Before cpu c st
      → Before (cpu + 1) c (Enable.enable_listed sys list cpu st).1
  enable_listed-Before cpu c st q =
      let st' = (Enable.enable_listed sys list cpu st).1 in
      let fds = λ (i : ℕ). enable_listed-fds cpu i st in
      record {
        apart = λ i other. rw ((fds i).0, (fds i).1, (fds c).0, (fds c).1) (q.apart i other);
        two = rw ((fds c).0, (fds c).1) q.two;
        coupled = elim (Bool-cases (cpu == c)) [
          | inl here ↦
              let e : c ≡ cpu = ground arith in
              rw e (
                enable_listed-IsCoupled cpu st (rw (← e) q.two)
                  (rw (← e) (q.quiet (omega (arith, e)))))
          | inr there ↦
              let other : cpu ≢ c = λ e. ground (arith, e, there) in
              IsCoupled-kept (st.cpus c) _ st.calls _ (enable_listed_other sys list cpu c st other)
                (apart-starts cpu c st (q.apart cpu other)) q.coupled
        ];
        quiet = λ h.
            let other : cpu ≢ c = λ e. omega (arith, e, h) in
            IsQuiet-kept (st.cpus c) _ st.calls _ (enable_listed_other sys list cpu c st other)
              (apart-starts cpu c st (q.apart cpu other)) (q.quiet (omega (arith, h)));
      }

  enable_from-IsQuiet :
      (left cpu c : ℕ) (st : Files)
      → Before cpu c st
      → list c ≡ true
      → (Enable.enable_from sys list left cpu st).0 ≡ false
      → let st' = (Enable.enable_from sys list left cpu st).1 in IsQuiet sys (st'.cpus c) st'.calls
  enable_from-IsQuiet zero cpu c st q on failed =
      absurd (true≢false (sym (ap (λ r. r.0) (enable_from_end sys list cpu st)) ∙ failed))
  enable_from-IsQuiet (suc left) cpu c st q on failed =
      let tried = (Enable.enable_listed sys list cpu st).1 in
      let next = enable_listed-Before cpu c st q in
      elim (Bool-cases (Enable.enable_listed sys list cpu st).0) [
        | inl ok ↦
            let e = enable_from_on sys list left cpu st ok in
            rw e
              (enable_from-IsQuiet left (cpu + 1) c tried next on (sym (ap (λ r. r.0) e) ∙ failed))
        | inr stop ↦
            rw (enable_from_stop sys list left cpu st stop) (elim (Bool-cases (ltb c (cpu + 1))) [
              | inl below ↦ disable_down-IsQuiet (cpu + 1) c tried (ground arith) on next.coupled
              | inr above ↦
                  let h : cpu + 1 ≤ c = ground arith in
                  IsQuiet-disable_down (cpu + 1) c tried h (next.quiet h)
            ])
      ]

  -- Where `ibs_enable_all` fails and a CPU of the list was not enabled and not sampling, it is so
  -- afterwards: whichever CPUs were enabled before the failure, no descriptor of this one was
  -- passed to IBS_ENABLE with success without being passed to IBS_DISABLE later. The open
  -- devices of the other CPUs are assumed to have other descriptors, and the two of this CPU
  -- different ones.
  pub ibs_enable_all-IsQuiet :
      (num_cpus c : ℕ) (st : Files)
      → ((i : ℕ) → i ≢ c → are_apart (st.cpus i) (st.cpus c) ≡ true)
      → has_two (st.cpus c) ≡ true
      → IsQuiet sys (st.cpus c) st.calls
      → list c ≡ true
      → (Enable.ibs_enable_all sys list num_cpus st).0 ≡ false
      → let st' = (Enable.ibs_enable_all sys list num_cpus st).1 in
        IsQuiet sys (st'.cpus c) st'.calls
  unfolding Enable.ibs_enable_all
  ibs_enable_all-IsQuiet num_cpus c st apart two q on failed =
      enable_from-IsQuiet num_cpus 0 c st
        (record {
          apart = apart;
          two = two;
          coupled = record {
            op = ground (arith, q.op_quiet);
            fetch = ground (arith, q.fetch_quiet);
          };
          quiet = λ h. q;
        })
        on failed
