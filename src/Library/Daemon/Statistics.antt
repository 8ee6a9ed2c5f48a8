-- ===== src/Library/Daemon/Statistics.antt =====
-- The counters that `start_ibs_daemon` of lib/ibs.c ends with.
use amd_ibs_toolkit.Base.{ℕ, zero, suc, ◌≡◌, refl, ap, ◌∙◌, Bool, not, ◌&&◌, Bool-cases, inl, inr}
use amd_ibs_toolkit.Base.{Option, none, some}
use amd_ibs_toolkit.Driver.Device.{Sample}
use amd_ibs_toolkit.Library.State.{System}
use amd_ibs_toolkit.Library.Options.{Options}
use amd_ibs_toolkit.Library.Sample.{SampleType}
use amd_ibs_toolkit.Library.Enable.{ibs_enable_all}
use amd_ibs_toolkit.Library.Initialize.{Library}
use amd_ibs_toolkit.Library.Daemon
use amd_ibs_toolkit.Library.Daemon.Writes.{Counted, daemon_round-Rounded}

-- The loop returns, with counters that match.
record Looped (out : Option Daemon.Daemon) : Type 0 where
  after : Daemon.Daemon
  returns : out ≡ some after
  counted : Counted after

daemon_rounds-Looped :
    (sys : System) (o : Options) (num_cpus rounds : ℕ) (d : Daemon.Daemon)
    → Counted d
    → Looped (Daemon.daemon_rounds sys o num_cpus rounds d)
unfolding Daemon.daemon_rounds
daemon_rounds-Looped sys o num_cpus zero d c = record { after = d; returns = refl; counted = c }
daemon_rounds-Looped sys o num_cpus (suc left) d c =
    let first = daemon_round-Rounded sys o num_cpus d in
    let later = daemon_rounds-Looped sys o num_cpus left first.after (first.counted c) in
    record {
      after = later.after;
      returns =
          ap
            (λ (out : Option Daemon.Daemon). elim out as (λ x. Option Daemon.Daemon) [
              | none ↦ none
              | some d' ↦ Daemon.daemon_rounds sys o num_cpus left d'
            ])
            first.returns
          ∙ later.returns;
      counted = later.counted;
    }

-- For however many rounds it runs, and whatever the system answers, no `assert` of
-- `start_ibs_daemon` fails: it returns, with `num_ops` the number of samples in the op file,
-- `num_fetches` that of the fetch file and `num_samples` that of both, each modulo 2 ^ 64.
pub start_ibs_daemon-Counted :
    (sys : System) (opens : Bool) (rounds : ℕ) (samples : ℕ → Sample) (types : ℕ → SampleType)
    (l : Library)
    → let out = Daemon.start_ibs_daemon sys opens rounds samples types l in
      (l' : Library) × (d : Daemon.Daemon) × (out.1 ≡ some (l', d)) × Counted d
unfolding Daemon.start_ibs_daemon Daemon.print_stats
start_ibs_daemon-Counted sys opens rounds samples types l =
    let o = l.options in
    let tried = ibs_enable_all sys (Daemon.listed sys o l.num_cpus) l.num_cpus l.files in
    let ready = record l { files = tried.1 } in
    let start = Daemon.fresh samples types ready in
    let idle = Daemon.fresh samples types l in
    let looped = daemon_rounds-Looped sys o l.num_cpus rounds start ((refl, refl), refl) in
    elim (Bool-cases (not (Daemon.enabled o.ibs_fetch) && not (Daemon.enabled o.ibs_op))) [
      | inl nothing ↦ rw nothing (l, idle, refl, ((refl, refl), refl))
      | inr some_flavor ↦ rw some_flavor (elim (Bool-cases (not opens)) [
        | inl closed ↦ rw closed (l, idle, refl, ((refl, refl), refl))
        | inr opened ↦ rw opened (elim (Bool-cases (not tried.0)) [
          | inl off ↦ rw off (ready, start, refl, ((refl, refl), refl))
          | inr on ↦
              rw on (_, _, ap (Daemon.finish sys o l.num_cpus ready) looped.returns, looped.counted)
        ])
      ])
    ]
