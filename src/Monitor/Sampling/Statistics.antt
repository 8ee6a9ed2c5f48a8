-- ===== src/Monitor/Sampling/Statistics.antt =====
-- The numbers of samples that tools/ibs_monitor/ibs_monitor.c prints at its end.
use amd_ibs_toolkit.Base.{
  ℕ, zero, suc, ◌+◌, ◌/◌, ◌%◌, ◌^◌, ◌≡◌, refl, arith, Bool, true, false, ◌==◌, if◌then◌else◌,
  Bool-cases, inl, inr,
}
use amd_ibs_toolkit.Base.{Option, none, some, ◌>>=◌, List, [], ◌∷◌, ◌++◌, length, length-append}
use amd_ibs_toolkit.Library.State.{System, ReadData, read_call}
use amd_ibs_toolkit.Monitor.Sampling

-- The number is the length of the file, modulo 2 ^ 64, where there is a file.
abbrev pub Matches {ℓ} : {A : Type ℓ} → ℕ → Option (List A) → Type 0
Matches n none = Unit
Matches n (some written) = n ≡ length written % 2 ^ 64

length-items_of {ℓ} :
    {A : Type ℓ} (n : ℕ) (buffer : ℕ → A) → length (Sampling.items_of n buffer) ≡ n
length-items_of zero buffer = refl
length-items_of (suc n) buffer =
    omega
      (arith, length-append (Sampling.items_of n buffer) (buffer n ∷ []), length-items_of n buffer)

write-Matches {ℓ} :
    {A : Type ℓ} (n k : ℕ) (buffer : ℕ → A) (file : Option (List A))
    → Matches n file
    → Matches ((n + k) % 2 ^ 64) (Sampling.write (Sampling.items_of k buffer) file)
write-Matches n k buffer none m = tt
write-Matches n k buffer (some written) m =
    omega (arith, m, length-append written (Sampling.items_of k buffer), length-items_of k buffer)

-- Both counters match their files.
abbrev pub Counted : Sampling.Sampler → Type 0
Counted st = Matches st.n_op_samples st.op_file × Matches st.n_fetch_samples st.fetch_file

if-Counted :
    (b : Bool) (x y : Sampling.Sampler) → Counted x → Counted y → Counted (if b then x else y)
if-Counted true x y p q = p
if-Counted false x y p q = q

-- `Counted` of a state that there may be.
abbrev CountedIf : Option Sampling.Sampler → Type 0
CountedIf none = Unit
CountedIf (some st) = Counted st

CountedIf-some :
    (out : Option Sampling.Sampler) (st : Sampling.Sampler)
    → CountedIf out
    → out ≡ some st
    → Counted st
CountedIf-some none st c e = absurd (cc e)
CountedIf-some (some s) st c e = let same : s ≡ st = cc e in rw (← same) c

module _ (sys : System) where
  keep_op_data-Counted :
      (fd : ℕ) (answer : Option ReadData) (st : Sampling.Sampler)
      → Counted st
      → Counted (Sampling.keep_op_data sys fd answer st)
  unfolding Sampling.keep_op_data Sampling.ask
  keep_op_data-Counted fd none st c = c
  keep_op_data-Counted fd (some d) st c = elim (Bool-cases (d.bytes_read == 0)) [
    | inl nothing ↦ rw nothing c
    | inr something ↦ rw something (
      write-Matches st.n_op_samples (d.bytes_read / Sampling.size_of_ibs_op) d.ops st.op_file c.0,
      c.1,
    )
  ]

  keep_fetch_data-Counted :
      (fd : ℕ) (answer : Option ReadData) (st : Sampling.Sampler)
      → Counted st
      → Counted (Sampling.keep_fetch_data sys fd answer st)
  unfolding Sampling.keep_fetch_data Sampling.ask
  keep_fetch_data-Counted fd none st c = c
  keep_fetch_data-Counted fd (some d) st c = elim (Bool-cases (d.bytes_read == 0)) [
    | inl nothing ↦ rw nothing c
    | inr something ↦ rw something (
      c.0,
      write-Matches st.n_fetch_samples (d.bytes_read / Sampling.size_of_ibs_fetch) d.fetches
          st.fetch_file c.1,
    )
  ]

  read_ops-Counted :
      (size : ℕ) (revents : ℕ → Bool) (fds : List ℕ) (st : Sampling.Sampler)
      → Counted st
      → Counted (Sampling.read_ops sys size revents fds st)
  unfolding Sampling.read_ops Sampling.read_and_write_op_data
  read_ops-Counted size revents [] st c = c
  read_ops-Counted size revents (fd ∷ fds) st c =
      let asked = Sampling.call (read_call fd size) st in
      let got = Sampling.keep_op_data sys fd (sys.read st.calls fd size) asked in
      read_ops-Counted size revents fds (if revents fd then got else st) (
        if-Counted (revents fd) got st (keep_op_data-Counted fd (sys.read st.calls fd size) asked c)
          c)

  read_fetches-Counted :
      (size : ℕ) (revents : ℕ → Bool) (fds : List ℕ) (st : Sampling.Sampler)
      → Counted st
      → Counted (Sampling.read_fetches sys size revents fds st)
  unfolding Sampling.read_fetches Sampling.read_and_write_fetch_data
  read_fetches-Counted size revents [] st c = c
  read_fetches-Counted size revents (fd ∷ fds) st c =
      let asked = Sampling.call (read_call fd size) st in
      let got = Sampling.keep_fetch_data sys fd (sys.read st.calls fd size) asked in
      read_fetches-Counted size revents fds (if revents fd then got else st) (
        if-Counted (revents fd) got st
          (keep_fetch_data-Counted fd (sys.read st.calls fd size) asked c) c)

  both-Counted :
      (size : ℕ) (revents : ℕ → Bool) (ops fetches : List ℕ) (st : Sampling.Sampler)
      → Counted st
      → Counted (
          Sampling.read_fetches sys size revents fetches
            (Sampling.read_ops sys size revents ops st))
  both-Counted size revents ops fetches st c =
      read_fetches-Counted size revents fetches (Sampling.read_ops sys size revents ops st)
        (read_ops-Counted size revents ops st c)

  reset-Counted :
      (fds : List ℕ) (st : Sampling.Sampler)
      → Counted st
      → Counted (Sampling.reset_ibs_buffers sys fds st)
  unfolding Sampling.reset_ibs_buffers Sampling.ask
  reset-Counted [] st c = c
  reset-Counted (fd ∷ fds) st c =
      reset-Counted fds (Sampling.ask sys Sampling.reset_buffer 0 fd st) c

  disable_ibs-Counted :
      (fds : List ℕ) (st : Sampling.Sampler)
      → Counted st
      → Counted (Sampling.disable_ibs sys fds st)
  unfolding Sampling.disable_ibs Sampling.ask
  disable_ibs-Counted [] st c = c
  disable_ibs-Counted (fd ∷ fds) st c =
      disable_ibs-Counted fds
        (Sampling.call (Sampling.close_call fd) (Sampling.ask sys Sampling.ibs_disable 0 fd st)) c

  poll_all-Counted :
      (size : ℕ) (ops fetches : List ℕ) (polls : List Sampling.Polled) (st : Sampling.Sampler)
      → Counted st
      → CountedIf (Sampling.poll_all sys size ops fetches polls st)
  unfolding Sampling.poll_all Sampling.poll_ibs
  poll_all-Counted size ops fetches [] st c = c
  poll_all-Counted size ops fetches (Sampling.poll_error ∷ polls) st c = tt
  poll_all-Counted size ops fetches (Sampling.nothing_ready ∷ polls) st c =
      poll_all-Counted size ops fetches polls st c
  poll_all-Counted size ops fetches (Sampling.ready revents ∷ polls) st c =
      poll_all-Counted size ops fetches polls
        (Sampling.read_fetches sys size revents fetches (Sampling.read_ops sys size revents ops st))
        (both-Counted size revents ops fetches st c)

  end-Counted :
      (size : ℕ) (ops fetches : List ℕ) (polled : Option Sampling.Sampler)
      → CountedIf polled
      → CountedIf (
          polled >>= (λ st. some (
            Sampling.disable_ibs sys
              (ops ++ fetches)
              (Sampling.flush_ibs_buffers sys size ops fetches st))))
  unfolding Sampling.flush_ibs_buffers
  end-Counted size ops fetches none c = tt
  end-Counted size ops fetches (some st) c =
      let all = λ (fd : ℕ). true in
      disable_ibs-Counted (ops ++ fetches)
        (Sampling.read_fetches sys size all fetches (Sampling.read_ops sys size all ops st))
        (both-Counted size all ops fetches st c)

  -- If each counter of samples is the number of structures in its file, modulo 2 ^ 64, where there
  -- is a file, then that is so again when the parent has reset the buffers, polled until the child
  -- ended, flushed and disabled IBS.
  pub sample-Counted :
      (size : ℕ) (ops fetches : List ℕ) (polls : List Sampling.Polled) (st st' : Sampling.Sampler)
      → Counted st
      → Sampling.sample sys size ops fetches polls st ≡ some st'
      → Counted st'
  unfolding Sampling.sample
  sample-Counted size ops fetches polls st st' c e =
      let start = Sampling.reset_ibs_buffers sys (ops ++ fetches) st in
      CountedIf-some (Sampling.sample sys size ops fetches polls st) st'
        (end-Counted size ops fetches (Sampling.poll_all sys size ops fetches polls start)
          (poll_all-Counted size ops fetches polls start (reset-Counted (ops ++ fetches) st c)))
        e
