-- ===== src/Library/Initialize/Held.antt =====
-- Counting the descriptors of several CPUs, and the loop at `err` of `do_ibs_initialize` of
-- lib/ibs.c.
use amd_ibs_toolkit.Base.{ℕ, zero, suc, ◌+◌, ◌≤◌, ◌<◌, ◌≡◌, refl, arith, ◌∙◌, ltb}
use amd_ibs_toolkit.Base.{Bool-cases, inl, inr}
use amd_ibs_toolkit.Library.State.{IbsCpu, Files}
use amd_ibs_toolkit.Library.Initialize
use amd_ibs_toolkit.Library.Initialize.Descriptors.{opens, closes, holds, held, Free, Step}
use amd_ibs_toolkit.Library.Initialize.Descriptors.{close_cpu-Step, close_cpu-Free}

-- `count` of `Step`, over the CPUs below `n`.
pub record Conserves (fd n : ℕ) (st st' : Files) : Type 0 where
  pub count :
      opens fd st'.calls + closes fd st.calls + held fd st.cpus n
      ≡ opens fd st.calls + closes fd st'.calls + held fd st'.cpus n

pub Conserves-trans :
    (fd n : ℕ) (s t u : Files) → Conserves fd n s t → Conserves fd n t u → Conserves fd n s u
Conserves-trans fd n s t u p q = record { count = omega (arith, p.count, q.count) }

held_same :
    (fd n cpu : ℕ) (st st' : Files)
    → Step fd cpu st st'
    → n ≤ cpu
    → held fd st'.cpus n ≡ held fd st.cpus n
held_same fd zero cpu st st' p h = refl
held_same fd (suc n) cpu st st' p h =
    rw (p.others n (λ e. omega (arith, e)), held_same fd n cpu st st' p (omega arith)) refl

held_change :
    (fd n cpu : ℕ) (st st' : Files)
    → Step fd cpu st st'
    → cpu < n
    → held fd st'.cpus n + holds fd (st.cpus cpu) ≡ held fd st.cpus n + holds fd (st'.cpus cpu)
held_change fd zero cpu st st' p h = absurd (omega arith)
held_change fd (suc n) cpu st st' p h = elim (Bool-cases (ltb cpu n)) [
  | inl below ↦
      let rest = held_change fd n cpu st st' p (ground arith) in
      let same : st'.cpus n ≡ st.cpus n = p.others n (λ e. ground arith) in
      rw same (omega (arith, rest))
  | inr last ↦
      let e : cpu ≡ n = ground arith in
      rw (e, held_same fd n cpu st st' p (omega (arith, e))) (omega arith)
]

pub Step-Conserves :
    (fd n cpu : ℕ) (st st' : Files) → Step fd cpu st st' → cpu < n → Conserves fd n st st'
Step-Conserves fd n cpu st st' p h = record {
  count = omega (arith, p.count, held_change fd n cpu st st' p h);
}

pub held-Free :
    (fd n : ℕ) (cpus : ℕ → IbsCpu) → 0 < fd → ((c : ℕ) → c < n → Free (cpus c)) → held fd cpus n ≡ 0
held-Free fd zero cpus positive free = refl
held-Free fd (suc n) cpus positive free =
    let last = free n (omega arith) in
    rw (last.op, last.fetch, held-Free fd n cpus positive (λ c h. free c (omega arith)))
      (ground arith)

module _ (fd : ℕ) (positive : 0 < fd) where
  pub close_down-Conserves :
      (k n : ℕ) (st : Files) → k ≤ n → Conserves fd n st (Initialize.close_down k st)
  unfolding Initialize.close_down
  close_down-Conserves zero n st h = record { count = refl }
  close_down-Conserves (suc k) n st h =
      let mid = Initialize.close_cpu k st in
      Conserves-trans fd n st mid (Initialize.close_down k mid)
        (Step-Conserves fd n k st mid (close_cpu-Step fd positive k st) (omega arith))
        (close_down-Conserves k n mid (omega arith))

  pub close_down_other :
      (k c : ℕ) (st : Files) → k ≤ c → (Initialize.close_down k st).cpus c ≡ st.cpus c
  unfolding Initialize.close_down
  close_down_other zero c st h = refl
  close_down_other (suc k) c st h =
      close_down_other k c (Initialize.close_cpu k st) (omega arith)
      ∙ (close_cpu-Step fd positive k st).others c (λ e. omega (arith, e))

  pub close_down-Free : (k c : ℕ) (st : Files) → c < k → Free ((Initialize.close_down k st).cpus c)
  unfolding Initialize.close_down
  close_down-Free zero c st h = absurd (omega arith)
  close_down-Free (suc k) c st h = elim (Bool-cases (ltb c k)) [
    | inl below ↦ close_down-Free k c (Initialize.close_cpu k st) (ground arith)
    | inr last ↦
        let e : c ≡ k = ground arith in
        rw (e, close_down_other k k (Initialize.close_cpu k st) (omega arith))
          (close_cpu-Free fd positive k st)
  ]
