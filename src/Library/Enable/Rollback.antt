-- ===== src/Library/Enable/Rollback.antt =====
-- `ibs_enable_all` of lib/ibs.c: what it leaves enabled.
use amd_ibs_toolkit.Base.{
  ℕ, zero, suc, ◌+◌, ◌≤◌, ◌<◌, ◌≡◌, ◌≢◌, refl, arith, ap, ◌∙◌, sym, Bool, true, false, not, ◌&&◌,
}
use amd_ibs_toolkit.Base.{Bool-cases, inl, inr, ltb}
use mathlib.Core.Bool.{true≢false}
use amd_ibs_toolkit.Library.State.{IbsCpu, System, Files}
use amd_ibs_toolkit.Library.Enable

-- Neither device of a CPU is enabled.
pub record IsOff (c : IbsCpu) : Type 0 where
  pub op : c.op_enabled ≡ false
  pub fetch : c.fetch_enabled ≡ false

-- Each device of a CPU that is open is enabled.
pub record IsOn (c : IbsCpu) : Type 0 where
  pub op : (ltb 0 c.op_fd && not c.op_enabled) ≡ false
  pub fetch : (ltb 0 c.fetch_fd && not c.fetch_enabled) ≡ false

module _ (sys : System) (list : ℕ → Bool) where
  disable_listed-IsOff :
      (cpu : ℕ) (st : Files)
      → list cpu ≡ true
      → IsOff ((Enable.disable_listed sys list cpu st).cpus cpu)
  unfolding Enable.disable_listed Enable.ibs_disable_cpu
  disable_listed-IsOff cpu st on = ground arith

  pub disable_listed_other :
      (cpu c : ℕ) (st : Files)
      → cpu ≢ c
      → (Enable.disable_listed sys list cpu st).cpus c ≡ st.cpus c
  unfolding Enable.disable_listed Enable.ibs_disable_cpu
  disable_listed_other cpu c st other = ground arith

  pub enable_listed_other :
      (cpu c : ℕ) (st : Files)
      → cpu ≢ c
      → (Enable.enable_listed sys list cpu st).1.cpus c ≡ st.cpus c
  unfolding Enable.enable_listed Enable.ibs_enable_cpu Enable.ibs_disable_cpu
  enable_listed_other cpu c st other = ground arith

  enable_listed-IsOn :
      (cpu : ℕ) (st : Files)
      → list cpu ≡ true
      → (Enable.enable_listed sys list cpu st).0 ≡ true
      → IsOn ((Enable.enable_listed sys list cpu st).1.cpus cpu)
  unfolding Enable.enable_listed Enable.ibs_enable_cpu
  enable_listed-IsOn cpu st on ok = ground arith

  disable_down_other :
      (n c : ℕ) (st : Files) → n ≤ c → (Enable.disable_down sys list n st).cpus c ≡ st.cpus c
  unfolding Enable.disable_down
  disable_down_other zero c st h = refl
  disable_down_other (suc n) c st h =
      disable_down_other n c (Enable.disable_listed sys list n st) (omega arith)
      ∙ disable_listed_other n c st (λ e. omega (arith, e))

  disable_down-IsOff :
      (n c : ℕ) (st : Files)
      → c < n
      → list c ≡ true
      → IsOff ((Enable.disable_down sys list n st).cpus c)
  unfolding Enable.disable_down
  disable_down-IsOff zero c st h on = absurd (omega arith)
  disable_down-IsOff (suc n) c st h on = elim (Bool-cases (ltb c n)) [
    | inl below ↦ disable_down-IsOff n c (Enable.disable_listed sys list n st) (ground arith) on
    | inr last ↦
        let e : c ≡ n = ground arith in
        rw (disable_down_other n c (Enable.disable_listed sys list n st) (omega arith), e)
          (disable_listed-IsOff n st (rw (← e) on))
  ]

  pub enable_from_end : (cpu : ℕ) (st : Files) → Enable.enable_from sys list 0 cpu st ≡ (true, st)
  unfolding Enable.enable_from
  enable_from_end cpu st = refl

  -- The two ways on from a round of the loop.
  pub enable_from_on :
      (left cpu : ℕ) (st : Files)
      → (Enable.enable_listed sys list cpu st).0 ≡ true
      → Enable.enable_from sys list (suc left) cpu st
        ≡ Enable.enable_from sys list left (cpu + 1) (Enable.enable_listed sys list cpu st).1
  unfolding Enable.enable_from
  enable_from_on left cpu st ok = rw ok refl

  pub enable_from_stop :
      (left cpu : ℕ) (st : Files)
      → (Enable.enable_listed sys list cpu st).0 ≡ false
      → Enable.enable_from sys list (suc left) cpu st
        ≡ (false, Enable.disable_down sys list (cpu + 1) (Enable.enable_listed sys list cpu st).1)
  unfolding Enable.enable_from
  enable_from_stop left cpu st failed = rw failed refl

  -- CPUs from `cpu` on that are off stay off or are switched off again when the loop gives up.
  enable_from-IsOff :
      (left cpu c : ℕ) (st : Files)
      → ((i : ℕ) → cpu ≤ i → IsOff (st.cpus i))
      → list c ≡ true
      → (Enable.enable_from sys list left cpu st).0 ≡ false
      → IsOff ((Enable.enable_from sys list left cpu st).1.cpus c)
  enable_from-IsOff zero cpu c st off on failed =
      absurd (true≢false (sym (ap (λ r. r.0) (enable_from_end cpu st)) ∙ failed))
  enable_from-IsOff (suc left) cpu c st off on failed =
      let tried = (Enable.enable_listed sys list cpu st).1 in
      let other : (i : ℕ) → cpu + 1 ≤ i → IsOff (tried.cpus i) =
        λ i h. rw (enable_listed_other cpu i st (λ e. omega (arith, e))) (off i (omega arith)) in
      elim (Bool-cases (Enable.enable_listed sys list cpu st).0) [
        | inl ok ↦
            let e = enable_from_on left cpu st ok in
            rw e
              (enable_from-IsOff left (cpu + 1) c tried other on (sym (ap (λ r. r.0) e) ∙ failed))
        | inr stop ↦ rw (enable_from_stop left cpu st stop) (elim (Bool-cases (ltb c (cpu + 1))) [
          | inl below ↦ disable_down-IsOff (cpu + 1) c tried (ground arith) on
          | inr above ↦
              let h : cpu + 1 ≤ c = ground arith in
              rw (disable_down_other (cpu + 1) c tried h) (other c h)
        ])
      ]

  enable_from_before :
      (left cpu c : ℕ) (st : Files)
      → c < cpu
      → (Enable.enable_from sys list left cpu st).0 ≡ true
      → (Enable.enable_from sys list left cpu st).1.cpus c ≡ st.cpus c
  enable_from_before zero cpu c st h ok = rw (enable_from_end cpu st) refl
  enable_from_before (suc left) cpu c st h ok =
      let tried = (Enable.enable_listed sys list cpu st).1 in
      elim (Bool-cases (Enable.enable_listed sys list cpu st).0) [
        | inl good ↦
            let e = enable_from_on left cpu st good in
            rw e (
              enable_from_before left (cpu + 1) c tried (omega arith) (sym (ap (λ r. r.0) e) ∙ ok)
              ∙ enable_listed_other cpu c st (λ q. omega (arith, q)))
        | inr stop ↦
            absurd (true≢false (sym ok ∙ ap (λ r. r.0) (enable_from_stop left cpu st stop)))
      ]

  enable_from-IsOn :
      (left cpu c : ℕ) (st : Files)
      → cpu ≤ c
      → c < cpu + left
      → list c ≡ true
      → (Enable.enable_from sys list left cpu st).0 ≡ true
      → IsOn ((Enable.enable_from sys list left cpu st).1.cpus c)
  enable_from-IsOn zero cpu c st low high on ok = absurd (omega arith)
  enable_from-IsOn (suc left) cpu c st low high on ok =
      let tried = (Enable.enable_listed sys list cpu st).1 in
      elim (Bool-cases (Enable.enable_listed sys list cpu st).0) [
        | inl good ↦
            let e = enable_from_on left cpu st good in
            let ok' = sym (ap (λ r. r.0) e) ∙ ok in
            rw e (elim (Bool-cases (ltb cpu c)) [
              | inl later ↦
                  enable_from-IsOn left (cpu + 1) c tried (ground arith) (omega arith) on ok'
              | inr here ↦
                  let q : c ≡ cpu = ground arith in
                  rw (q, enable_from_before left (cpu + 1) cpu tried (omega arith) ok')
                    (enable_listed-IsOn cpu st (rw (← q) on) good)
            ])
        | inr stop ↦
            absurd (true≢false (sym ok ∙ ap (λ r. r.0) (enable_from_stop left cpu st stop)))
      ]

  -- When `ibs_enable_all` fails on CPUs that were all off, every CPU of the list is off.
  ibs_enable_all-IsOff :
      (num_cpus c : ℕ) (st : Files)
      → ((i : ℕ) → IsOff (st.cpus i))
      → list c ≡ true
      → (Enable.ibs_enable_all sys list num_cpus st).0 ≡ false
      → IsOff ((Enable.ibs_enable_all sys list num_cpus st).1.cpus c)
  unfolding Enable.ibs_enable_all
  ibs_enable_all-IsOff num_cpus c st off on failed =
      enable_from-IsOff num_cpus 0 c st (λ i h. off i) on failed

  -- When `ibs_enable_all` succeeds, every open device of every CPU of the list is enabled.
  ibs_enable_all-IsOn :
      (num_cpus c : ℕ) (st : Files)
      → c < num_cpus
      → list c ≡ true
      → (Enable.ibs_enable_all sys list num_cpus st).0 ≡ true
      → IsOn ((Enable.ibs_enable_all sys list num_cpus st).1.cpus c)
  unfolding Enable.ibs_enable_all
  ibs_enable_all-IsOn num_cpus c st h on ok =
      enable_from-IsOn num_cpus 0 c st (omega arith) (omega arith) on ok

  disable_from_before :
      (left cpu c : ℕ) (st : Files)
      → c < cpu
      → (Enable.disable_from sys list left cpu st).cpus c ≡ st.cpus c
  unfolding Enable.disable_from
  disable_from_before zero cpu c st h = refl
  disable_from_before (suc left) cpu c st h =
      disable_from_before left (cpu + 1) c (Enable.disable_listed sys list cpu st) (omega arith)
      ∙ disable_listed_other cpu c st (λ e. omega (arith, e))

  disable_from-IsOff :
      (left cpu c : ℕ) (st : Files)
      → cpu ≤ c
      → c < cpu + left
      → list c ≡ true
      → IsOff ((Enable.disable_from sys list left cpu st).cpus c)
  unfolding Enable.disable_from
  disable_from-IsOff zero cpu c st low high on = absurd (omega arith)
  disable_from-IsOff (suc left) cpu c st low high on = elim (Bool-cases (ltb cpu c)) [
    | inl later ↦
        disable_from-IsOff left (cpu + 1) c (Enable.disable_listed sys list cpu st) (ground arith)
          (omega arith) on
    | inr here ↦
        let q : c ≡ cpu = ground arith in
        rw
          (
            q,
            disable_from_before left (cpu + 1) cpu (Enable.disable_listed sys list cpu st)
                (omega arith),
          )
          (disable_listed-IsOff cpu st (rw (← q) on))
  ]

  -- After `ibs_disable_all` every CPU of the list is off.
  pub ibs_disable_all-IsOff :
      (num_cpus c : ℕ) (st : Files)
      → c < num_cpus
      → list c ≡ true
      → IsOff ((Enable.ibs_disable_all sys list num_cpus st).cpus c)
  unfolding Enable.ibs_disable_all
  ibs_disable_all-IsOff num_cpus c st h on =
      disable_from-IsOff num_cpus 0 c st (omega arith) (omega arith) on
