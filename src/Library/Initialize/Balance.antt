-- ===== src/Library/Initialize/Balance.antt =====
-- Whether `do_ibs_initialize` and `ibs_finalize` of lib/ibs.c close what they open.
use amd_ibs_toolkit.Base.{
  ℕ, zero, suc, ◌+◌, ◌≤◌, ◌<◌, ◌≡◌, refl, arith, ap, sym, ◌∙◌, Bool, true, false, not, ◌==◌, ltb,
}
use amd_ibs_toolkit.Base.{Bool-cases, inl, inr, some, List}
use mathlib.Core.Bool.{true≢false}
use amd_ibs_toolkit.Library.Options.{Setting}
use amd_ibs_toolkit.Library.State.{System, Files}
use amd_ibs_toolkit.Library.Enable
use amd_ibs_toolkit.Library.Initialize
use amd_ibs_toolkit.Library.Initialize.Descriptors.{opens, closes, held, Free}
use amd_ibs_toolkit.Library.Initialize.Descriptors.{open_online-Step}
use amd_ibs_toolkit.Library.Initialize.Held.{
  Conserves, Conserves-trans, Step-Conserves, held-Free, close_down-Conserves, close_down_other,
  close_down-Free,
}

module _ (fd : ℕ) (positive : 0 < fd) where
  module _ (sys : System) where
    -- The two ways on from a round of the loop that opens the devices.
    open_from_on :
        (left cpu : ℕ) (l : Initialize.Library)
        → (Initialize.open_online sys cpu l).0 ≡ true
        → Initialize.open_from sys (suc left) cpu l
          ≡ Initialize.open_from sys left (cpu + 1) (Initialize.open_online sys cpu l).1
    unfolding Initialize.open_from
    open_from_on left cpu l ok = rw ok refl

    open_from_stop :
        (left cpu : ℕ) (l : Initialize.Library)
        → (Initialize.open_online sys cpu l).0 ≡ false
        → Initialize.open_from sys (suc left) cpu l ≡ (
          (Initialize.open_online sys cpu l).1.fd,
          Initialize.give_up cpu (Initialize.open_online sys cpu l).1,
        )
    unfolding Initialize.open_from
    open_from_stop left cpu l failed = rw failed refl

    later-Free :
        (cpu : ℕ) (l : Initialize.Library)
        → ((c : ℕ) → cpu ≤ c → Free (l.files.cpus c))
        → (c : ℕ) → cpu < c
        → Free ((Initialize.open_online sys cpu l).1.files.cpus c)
    later-Free cpu l free c h =
        let p = open_online-Step sys fd positive cpu l (free cpu (omega arith)) in
        rw (p.others c (λ e. omega (arith, e))) (free c (omega arith))

    open_from_end :
        (cpu : ℕ) (l : Initialize.Library)
        → Initialize.open_from sys 0 cpu l ≡ (some 0, record l { ibs_initialized = true })
    unfolding Initialize.open_from
    open_from_end cpu l = refl

    open_from-Conserves :
        (n left cpu : ℕ) (l : Initialize.Library)
        → cpu + left ≡ n
        → ((c : ℕ) → cpu ≤ c → Free (l.files.cpus c))
        → Conserves fd n l.files (Initialize.open_from sys left cpu l).1.files
    unfolding Initialize.give_up
    open_from-Conserves n zero cpu l e free = rw (open_from_end cpu l) (record { count = refl })
    open_from-Conserves n (suc left) cpu l e free =
        let tried = Initialize.open_online sys cpu l in
        let p =
          Step-Conserves fd n cpu l.files tried.1.files
            (open_online-Step sys fd positive cpu l (free cpu (omega arith))) (omega arith) in
        elim (Bool-cases tried.0) [
          | inl ok ↦ rw (open_from_on left cpu l ok) (
              Conserves-trans fd n l.files tried.1.files
                (Initialize.open_from sys left (cpu + 1) tried.1).1.files p
                (open_from-Conserves n left (cpu + 1) tried.1 (omega arith)
                  (λ c h. later-Free cpu l free c (omega arith))))
          | inr failed ↦ rw (open_from_stop left cpu l failed) (
              Conserves-trans fd n l.files tried.1.files
                (Initialize.close_down (cpu + 1) tried.1.files) p
                (close_down-Conserves fd positive (cpu + 1) n tried.1.files (omega arith)))
        ]

    open_from-Free :
        (left cpu c : ℕ) (l : Initialize.Library)
        → ((c : ℕ) → cpu ≤ c → Free (l.files.cpus c))
        → (Initialize.open_from sys left cpu l).1.ibs_initialized ≡ false
        → Free ((Initialize.open_from sys left cpu l).1.files.cpus c)
    unfolding Initialize.give_up
    open_from-Free zero cpu c l free bad =
        absurd (true≢false (sym (ap (λ r. r.1.ibs_initialized) (open_from_end cpu l)) ∙ bad))
    open_from-Free (suc left) cpu c l free bad =
        let tried = Initialize.open_online sys cpu l in
        elim (Bool-cases tried.0) [
          | inl ok ↦
              let e = open_from_on left cpu l ok in
              rw e (
                open_from-Free left (cpu + 1) c tried.1
                  (λ c h. later-Free cpu l free c (omega arith))
                  (sym (ap (λ r. r.1.ibs_initialized) e) ∙ bad))
          | inr failed ↦ elim (Bool-cases (ltb cpu c)) [
            | inl above ↦
                rw
                  (
                    open_from_stop left cpu l failed,
                    close_down_other fd positive (cpu + 1) c tried.1.files (ground arith),
                  )
                  (later-Free cpu l free c (ground arith))
            | inr below ↦
                rw (open_from_stop left cpu l failed)
                  (close_down-Free fd positive (cpu + 1) c tried.1.files (ground arith))
          ]
        ]

    start_of-Free :
        (nprocs : ℕ) (settings : List Setting) (l : Initialize.Library) (c : ℕ)
        → Free ((Initialize.start_of nprocs settings l).files.cpus c)
    unfolding Initialize.start_of
    start_of-Free nprocs settings l c = record { op = refl; fetch = refl }

    do_ibs_initialize-Conserves :
        (nprocs : ℕ) (settings : List Setting) (l : Initialize.Library)
        → Conserves fd nprocs
            (Initialize.start_of nprocs settings l).files
            (Initialize.do_ibs_initialize sys nprocs settings l).1.files
    unfolding Initialize.do_ibs_initialize
    do_ibs_initialize-Conserves nprocs settings l =
        open_from-Conserves nprocs nprocs 0 (Initialize.start_of nprocs settings l) (omega arith)
          (λ c h. start_of-Free nprocs settings l c)

    start_of-held :
        (nprocs : ℕ) (settings : List Setting) (l : Initialize.Library)
        → held fd (Initialize.start_of nprocs settings l).files.cpus nprocs ≡ 0
    start_of-held nprocs settings l =
        held-Free fd nprocs (Initialize.start_of nprocs settings l).files.cpus positive
          (λ c h. start_of-Free nprocs settings l c)

    start_of-calls :
        (nprocs : ℕ) (settings : List Setting) (l : Initialize.Library)
        → (Initialize.start_of nprocs settings l).files.calls ≡ l.files.calls
    unfolding Initialize.start_of
    start_of-calls nprocs settings l = refl

    -- Whatever `do_ibs_initialize` returns, each positive descriptor that `open` returned to it
    -- has been passed to `close` or stands in `ibs_cpus`, as often as it was returned.
    do_ibs_initialize_balance :
        (nprocs : ℕ) (settings : List Setting) (l : Initialize.Library)
        → let after = (Initialize.do_ibs_initialize sys nprocs settings l).1.files in
          opens fd after.calls + closes fd l.files.calls
          ≡ opens fd l.files.calls + closes fd after.calls + held fd after.cpus nprocs
    do_ibs_initialize_balance nprocs settings l =
        let same = start_of-calls nprocs settings l in
        let total = (do_ibs_initialize-Conserves nprocs settings l).count in
        omega
          (arith, total, start_of-held nprocs settings l, ap (opens fd) same, ap (closes fd) same)

    -- When `do_ibs_initialize` ends with `ibs_initialized` not set, it has passed every positive
    -- file descriptor to `close` as often as `open` returned it.
    pub do_ibs_initialize_failed :
        (nprocs : ℕ) (settings : List Setting) (l : Initialize.Library)
        → (Initialize.do_ibs_initialize sys nprocs settings l).1.ibs_initialized ≡ false
        → let after = (Initialize.do_ibs_initialize sys nprocs settings l).1.files.calls in
          opens fd after + closes fd l.files.calls ≡ opens fd l.files.calls + closes fd after
    unfolding Initialize.do_ibs_initialize
    do_ibs_initialize_failed nprocs settings l failed =
        let after = (Initialize.do_ibs_initialize sys nprocs settings l).1.files in
        let none_held = held-Free fd nprocs after.cpus positive (λ c h.
          open_from-Free nprocs 0 c (Initialize.start_of nprocs settings l)
            (λ d k. start_of-Free nprocs settings l d) failed) in
        omega (arith, none_held, do_ibs_initialize_balance nprocs settings l)

    disable_listed_opens :
        (list : ℕ → Bool) (cpu : ℕ) (st : Files)
        → opens fd (Enable.disable_listed sys list cpu st).calls ≡ opens fd st.calls
    unfolding Enable.disable_listed Enable.ibs_disable_cpu
    disable_listed_opens list cpu st = ground arith

    disable_listed_closes :
        (list : ℕ → Bool) (cpu : ℕ) (st : Files)
        → closes fd (Enable.disable_listed sys list cpu st).calls ≡ closes fd st.calls
    unfolding Enable.disable_listed Enable.ibs_disable_cpu
    disable_listed_closes list cpu st = ground arith

    disable_from_counts :
        (list : ℕ → Bool) (left cpu : ℕ) (st : Files)
        → let after = Enable.disable_from sys list left cpu st in
          (opens fd after.calls ≡ opens fd st.calls) × (closes fd after.calls ≡ closes fd st.calls)
    unfolding Enable.disable_from
    disable_from_counts list zero cpu st = (refl, refl)
    disable_from_counts list (suc left) cpu st =
        let rest =
          disable_from_counts list left (cpu + 1) (Enable.disable_listed sys list cpu st) in
        (rest.0 ∙ disable_listed_opens list cpu st, rest.1 ∙ disable_listed_closes list cpu st)

    ibs_finalize_counts :
        (l : Initialize.Library)
        → let after = Initialize.ibs_finalize sys l in
          (opens fd after.files.calls ≡ opens fd l.files.calls)
          × (closes fd after.files.calls ≡ closes fd l.files.calls)
    unfolding Initialize.ibs_finalize Enable.ibs_disable_all
    ibs_finalize_counts l =
        let list = λ (i : ℕ). not (l.options.ibs_cpu_list i == 0) in
        elim (Bool-cases (not (l.ibs_daemon == 0))) [
          | inl daemon ↦ rw daemon (omega arith, omega arith)
          | inr alone ↦ elim (Bool-cases (not l.ibs_initialized)) [
            | inl never ↦ rw (alone, never) (refl, refl)
            | inr ready ↦ rw (alone, ready) (disable_from_counts list l.num_cpus 0 l.files)
          ]
        ]

    -- After `do_ibs_initialize` and then `ibs_finalize`, each positive descriptor that `open`
    -- returned has been passed to `close` as often, less the times it stood in `ibs_cpus` when
    -- `do_ibs_initialize` ended.
    pub ibs_finalize_leak :
        (nprocs : ℕ) (settings : List Setting) (l : Initialize.Library)
        → let ready = (Initialize.do_ibs_initialize sys nprocs settings l).1 in
          let after = (Initialize.ibs_finalize sys ready).files.calls in
          opens fd after + closes fd l.files.calls
          ≡ opens fd l.files.calls + closes fd after + held fd ready.files.cpus nprocs
    ibs_finalize_leak nprocs settings l =
        let ready = (Initialize.do_ibs_initialize sys nprocs settings l).1 in
        let same = ibs_finalize_counts ready in
        rw (same.0, same.1) (do_ibs_initialize_balance nprocs settings l)
