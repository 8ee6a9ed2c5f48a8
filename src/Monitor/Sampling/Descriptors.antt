-- ===== src/Monitor/Sampling/Descriptors.antt =====
-- What `main` of tools/ibs_monitor/ibs_monitor.c does with the descriptors in `fds`.
use amd_ibs_toolkit.Base.{
  ℕ, ◌+◌, ◌≡◌, refl, sym, arith, ap, ◌∙◌, Bool, true, false, ◌==◌, if◌then◌else◌, Bool-cases, inl,
  inr,
}
use amd_ibs_toolkit.Base.{Option, none, some, ◌>>=◌, List, [], ◌∷◌, ◌++◌}
use mathlib.Core.Bool.{true≢false}
use amd_ibs_toolkit.Library.State.{System, ReadData, read_call}
use amd_ibs_toolkit.Library.Initialize.Descriptors.{one, closes}
use amd_ibs_toolkit.Monitor.Sampling

-- How often a descriptor occurs in a list.
abbrev pub occurs : ℕ → List ℕ → ℕ
occurs fd [] = 0
occurs fd (n ∷ fds) = one (n == fd) + occurs fd fds

-- No answer of `poll` is an error.
abbrev pub never_fails : List Sampling.Polled → Bool
never_fails [] = true
never_fails (Sampling.poll_error ∷ polls) = false
never_fails (Sampling.nothing_ready ∷ polls) = never_fails polls
never_fails (Sampling.ready revents ∷ polls) = never_fails polls

module _ (sys : System) (fd : ℕ) where
  if_closes :
      (b : Bool) (x y : Sampling.Sampler)
      → closes fd x.calls ≡ closes fd y.calls
      → closes fd (if b then x else y).calls ≡ closes fd y.calls
  if_closes true x y e = e
  if_closes false x y e = refl

  keep_op_data_closes :
      (n : ℕ) (answer : Option ReadData) (st : Sampling.Sampler)
      → closes fd (Sampling.keep_op_data sys n answer st).calls ≡ closes fd st.calls
  unfolding Sampling.keep_op_data Sampling.ask
  keep_op_data_closes n none st = refl
  keep_op_data_closes n (some d) st = elim (Bool-cases (d.bytes_read == 0)) [
    | inl nothing ↦ rw nothing refl
    | inr something ↦ rw something (omega arith)
  ]

  keep_fetch_data_closes :
      (n : ℕ) (answer : Option ReadData) (st : Sampling.Sampler)
      → closes fd (Sampling.keep_fetch_data sys n answer st).calls ≡ closes fd st.calls
  unfolding Sampling.keep_fetch_data Sampling.ask
  keep_fetch_data_closes n none st = refl
  keep_fetch_data_closes n (some d) st = elim (Bool-cases (d.bytes_read == 0)) [
    | inl nothing ↦ rw nothing refl
    | inr something ↦ rw something (omega arith)
  ]

  read_ops_closes :
      (size : ℕ) (revents : ℕ → Bool) (fds : List ℕ) (st : Sampling.Sampler)
      → closes fd (Sampling.read_ops sys size revents fds st).calls ≡ closes fd st.calls
  unfolding Sampling.read_ops Sampling.read_and_write_op_data
  read_ops_closes size revents [] st = refl
  read_ops_closes size revents (n ∷ fds) st =
      let asked = Sampling.call (read_call n size) st in
      let got = Sampling.keep_op_data sys n (sys.read st.calls n size) asked in
      read_ops_closes size revents fds (if revents n then got else st)
      ∙ if_closes (revents n) got st
          (keep_op_data_closes n (sys.read st.calls n size) asked ∙ omega arith)

  read_fetches_closes :
      (size : ℕ) (revents : ℕ → Bool) (fds : List ℕ) (st : Sampling.Sampler)
      → closes fd (Sampling.read_fetches sys size revents fds st).calls ≡ closes fd st.calls
  unfolding Sampling.read_fetches Sampling.read_and_write_fetch_data
  read_fetches_closes size revents [] st = refl
  read_fetches_closes size revents (n ∷ fds) st =
      let asked = Sampling.call (read_call n size) st in
      let got = Sampling.keep_fetch_data sys n (sys.read st.calls n size) asked in
      read_fetches_closes size revents fds (if revents n then got else st)
      ∙ if_closes (revents n) got st
          (keep_fetch_data_closes n (sys.read st.calls n size) asked ∙ omega arith)

  reset_closes :
      (fds : List ℕ) (st : Sampling.Sampler)
      → closes fd (Sampling.reset_ibs_buffers sys fds st).calls ≡ closes fd st.calls
  unfolding Sampling.reset_ibs_buffers Sampling.ask
  reset_closes [] st = refl
  reset_closes (n ∷ fds) st =
      reset_closes fds (Sampling.ask sys Sampling.reset_buffer 0 n st) ∙ omega arith

  disable_ibs_closes :
      (fds : List ℕ) (st : Sampling.Sampler)
      → closes fd (Sampling.disable_ibs sys fds st).calls ≡ closes fd st.calls + occurs fd fds
  unfolding Sampling.disable_ibs Sampling.ask
  disable_ibs_closes [] st = omega arith
  disable_ibs_closes (n ∷ fds) st =
      let asked = Sampling.ask sys Sampling.ibs_disable 0 n st in
      disable_ibs_closes fds (Sampling.call (Sampling.close_call n) asked) ∙ omega arith

  both_closes :
      (size : ℕ) (revents : ℕ → Bool) (ops fetches : List ℕ) (st : Sampling.Sampler)
      → closes fd
          (Sampling.read_fetches sys size revents fetches
            (Sampling.read_ops sys size revents ops st)).calls
        ≡ closes fd st.calls
  both_closes size revents ops fetches st =
      read_fetches_closes size revents fetches (Sampling.read_ops sys size revents ops st)
      ∙ read_ops_closes size revents ops st

  -- A state that there may be, with a number of calls of `close`.
  abbrev ClosedIf : ℕ → Option Sampling.Sampler → Type 0
  ClosedIf n none = Unit
  ClosedIf n (some st) = closes fd st.calls ≡ n

  poll_all_closes :
      (size : ℕ) (ops fetches : List ℕ) (polls : List Sampling.Polled) (n : ℕ)
      (st : Sampling.Sampler)
      → closes fd st.calls ≡ n
      → ClosedIf n (Sampling.poll_all sys size ops fetches polls st)
  unfolding Sampling.poll_all Sampling.poll_ibs
  poll_all_closes size ops fetches [] n st e = e
  poll_all_closes size ops fetches (Sampling.poll_error ∷ polls) n st e = tt
  poll_all_closes size ops fetches (Sampling.nothing_ready ∷ polls) n st e =
      poll_all_closes size ops fetches polls n st e
  poll_all_closes size ops fetches (Sampling.ready revents ∷ polls) n st e =
      poll_all_closes size ops fetches polls n
        (Sampling.read_fetches sys size revents fetches (Sampling.read_ops sys size revents ops st))
        (both_closes size revents ops fetches st ∙ e)

  end_closes :
      (size : ℕ) (ops fetches : List ℕ) (n : ℕ) (polled : Option Sampling.Sampler)
      (st' : Sampling.Sampler)
      → ClosedIf n polled
      → (polled >>= (λ st. some (
          Sampling.disable_ibs sys
            (ops ++ fetches)
            (Sampling.flush_ibs_buffers sys size ops fetches st))))
        ≡ some st'
      → closes fd st'.calls ≡ n + occurs fd (ops ++ fetches)
  unfolding Sampling.flush_ibs_buffers
  end_closes size ops fetches n none st' c e = absurd (cc e)
  end_closes size ops fetches n (some st) st' c e =
      let all = λ (fd : ℕ). true in
      let flushed =
        Sampling.read_fetches sys size all fetches (Sampling.read_ops sys size all ops st) in
      let same : Sampling.disable_ibs sys (ops ++ fetches) flushed ≡ st' = cc e in
      rw (← same) (
        disable_ibs_closes (ops ++ fetches) flushed
        ∙ ap (λ k. k + occurs fd (ops ++ fetches)) (both_closes size all ops fetches st ∙ c))

  sample-closed :
      (size : ℕ) (ops fetches : List ℕ) (polls : List Sampling.Polled) (st st' : Sampling.Sampler)
      → Sampling.sample sys size ops fetches polls st ≡ some st'
      → closes fd st'.calls ≡ closes fd st.calls + occurs fd (ops ++ fetches)
  unfolding Sampling.sample
  sample-closed size ops fetches polls st st' e =
      let start = Sampling.reset_ibs_buffers sys (ops ++ fetches) st in
      end_closes size ops fetches (closes fd st.calls)
        (Sampling.poll_all sys size ops fetches polls start) st'
        (poll_all_closes size ops fetches polls (closes fd st.calls) start
          (reset_closes (ops ++ fetches) st))
        e

  poll_all-returns :
      (size : ℕ) (ops fetches : List ℕ) (polls : List Sampling.Polled) (st : Sampling.Sampler)
      → never_fails polls ≡ true
      → (polled : Sampling.Sampler) × (Sampling.poll_all sys size ops fetches polls st
          ≡ some polled)
  unfolding Sampling.poll_all Sampling.poll_ibs
  poll_all-returns size ops fetches [] st works = (st, refl)
  poll_all-returns size ops fetches (Sampling.poll_error ∷ polls) st works =
      absurd (true≢false (sym works))
  poll_all-returns size ops fetches (Sampling.nothing_ready ∷ polls) st works =
      poll_all-returns size ops fetches polls st works
  poll_all-returns size ops fetches (Sampling.ready revents ∷ polls) st works =
      poll_all-returns size ops fetches polls
        (Sampling.read_fetches sys size revents fetches (Sampling.read_ops sys size revents ops st))
        works

  -- If `poll` never fails, the parent ends its sampling when the child has ended, and has then
  -- passed each descriptor to `close` as often as it stands in `fds`, and no more.
  pub sample-ends :
      (size : ℕ) (ops fetches : List ℕ) (polls : List Sampling.Polled) (st : Sampling.Sampler)
      → never_fails polls ≡ true
      → (st' : Sampling.Sampler) × (Sampling.sample sys size ops fetches polls st ≡ some st')
        × (closes fd st'.calls ≡ closes fd st.calls + occurs fd (ops ++ fetches))
  unfolding Sampling.sample
  sample-ends size ops fetches polls st works =
      let fds = ops ++ fetches in
      let start = Sampling.reset_ibs_buffers sys fds st in
      let (polled, e) = poll_all-returns size ops fetches polls start works in
      let last =
        Sampling.disable_ibs sys fds (Sampling.flush_ibs_buffers sys size ops fetches polled) in
      let ends : Sampling.sample sys size ops fetches polls st ≡ some last = rw e refl in
      (last, ends, sample-closed size ops fetches polls st last ends)
