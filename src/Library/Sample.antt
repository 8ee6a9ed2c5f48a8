-- ===== src/Library/Sample.antt =====
-- `do_ibs_get_sample`, `do_ibs_get_all_samples` and `do_ibs_sample` of lib/ibs.c. Numbers of
-- samples are taken to fit `int`; memory is taken to be there.
pub mod Answers
pub mod Bounds
use amd_ibs_toolkit.Base.{
  ℕ, zero, suc, ◌+◌, ◌-◌, ◌*◌, ◌%◌, ◌^◌, min, Bool, true, false, not, ◌&&◌, ◌||◌, ◌==◌, ltb, leb,
}
use amd_ibs_toolkit.Base.{if◌then◌else◌, Option, none, some, List, [], ◌∷◌, ◌++◌}
use amd_ibs_toolkit.Driver.Device.{Sample, op_sample, fetch_sample}
use amd_ibs_toolkit.Driver.Ioctl.{fionread}
use amd_ibs_toolkit.Driver.Cpus.{size_of_ibs_op, size_of_ibs_fetch}
use amd_ibs_toolkit.Library.Options.{Options}
use amd_ibs_toolkit.Library.State.{
  System, Files, IbsCpu, ReadData, Selected, call, ioctl_call, read_call,
}
use amd_ibs_toolkit.Library.State.{select_call, select_error, interrupted, timed_out, some_ready}

-- `ibs_sample_type_t`
pub data SampleType : Type 0 where
  op_type fetch_type : SampleType

abbrev pub size_of : SampleType → ℕ
size_of op_type = size_of_ibs_op
size_of fetch_type = size_of_ibs_fetch

-- What `read` left in the temporary buffer, as samples of a type.
abbrev pub as_samples : SampleType → ReadData → ℕ → Sample
as_samples op_type d i = op_sample (d.ops i)
as_samples fetch_type d i = fetch_sample (d.fetches i)

-- The caller's arrays, and the files.
pub record Batch : Type 0 where
  pub samples : ℕ → Sample
  pub sample_types : ℕ → SampleType
  pub total_new_samples : ℕ
  pub files : Files

-- `samples[off + i] = source[i]` for the first `n` values of `i`.
abbrev pub copy_in {ℓ} : {A : Type ℓ} → ℕ → ℕ → (ℕ → A) → (ℕ → A) → ℕ → A
copy_in off n source target i = if leb off i && ltb i (off + n) then source (i - off) else target i

abbrev is_zero : ℕ → Bool
is_zero n = n == 0

-- `bytes_wanted`, an `int` that wraps around, for `n` samples: the bits of the number, and what
-- `read` gets, a `size_t`.
abbrev pub bytes_wanted : SampleType → ℕ → ℕ
bytes_wanted type n = n * size_of type % 2 ^ 32

abbrev pub read_size : SampleType → ℕ → ℕ
read_size type n =
    let wanted = bytes_wanted type n in
    if ltb wanted (2 ^ 31) then wanted else 2 ^ 64 - 2 ^ 32 + wanted

-- `bytes_read < bytes_wanted`; a negative `bytes_wanted` is below each number that was read.
abbrev pub is_short : SampleType → ℕ → ℕ → Bool
is_short type bytes_read n =
    let wanted = bytes_wanted type n in ltb wanted (2 ^ 31) && ltb bytes_read wanted

-- The `switch` on `bytes_read` and the copy, for `n` samples wanted. `none` is -1.
unfoldable pub keep_samples : SampleType → ℕ → ℕ → Batch → Option ReadData → Option ℕ × Batch
keep_samples type off n b none = (none, b)
keep_samples type off n b (some d) =
    if d.bytes_read == 0 || is_short type d.bytes_read n
    then (none, b)
    else (some n, record b { samples = copy_in off n (as_samples type d) b.samples })

-- The end of a half of a round of `do_ibs_get_all_samples`: `true` is a `break`.
unfoldable pub count_samples : SampleType → ℕ → ℕ → Option ℕ × Batch → Bool × Batch
count_samples type total max_samples (none, b) = (false, b)
count_samples type total max_samples (some n, b) = (
  total + n == max_samples,
  record b {
    sample_types = copy_in total n (λ (i : ℕ). type) b.sample_types;
    total_new_samples = total + n;
  },
)

-- The `switch` on what `select` returned.
unfoldable pub answer_of : Selected → Batch → Option ℕ × Batch → Batch → Option ℕ × Batch
answer_of select_error selected idle all = (none, selected)
answer_of interrupted selected idle all = idle
answer_of timed_out selected idle all = idle
answer_of some_ready selected idle all = (some all.total_new_samples, all)

-- The descriptors of a CPU for `select`.
abbrev watch_cpu : Bool → Bool → IbsCpu → List ℕ
watch_cpu want_op want_fetch c =
    (if want_op && c.op_enabled then c.op_fd ∷ [] else [])
    ++ (if want_fetch && c.fetch_enabled then c.fetch_fd ∷ [] else [])

-- The loop that fills the set, from `cpu` on with `left` rounds to go.
unfoldable pub watch_from : Bool → Bool → (ℕ → Bool) → (ℕ → IbsCpu) → ℕ → ℕ → List ℕ
watch_from want_op want_fetch list cpus zero cpu = []
watch_from want_op want_fetch list cpus (suc left) cpu =
    (if list cpu then watch_cpu want_op want_fetch (cpus cpu) else [])
    ++ watch_from want_op want_fetch list cpus left (cpu + 1)

module _ (sys : System) (o : Options) where
  -- The end of `do_ibs_get_sample`, once the answer of `FIONREAD` is there.
  unfoldable pub read_samples : SampleType → ℕ → ℕ → ℕ → Batch → Option ℕ → Option ℕ × Batch
  unfolding keep_samples
  read_samples type fd off max_samples b none = (none, b)
  read_samples type fd off max_samples b (some available) =
      let n = min available max_samples in
      let asked = record b { files = call (read_call fd (read_size type n)) b.files } in
      if available == 0
      then (none, b)
      else if is_zero o.ibs_aggressive_read && ltb available o.ibs_poll_num_samples
      then (none, b)
      else keep_samples type off n asked (sys.read b.files.calls fd (read_size type n))

  unfoldable pub do_ibs_get_sample : SampleType → ℕ → ℕ → ℕ → Batch → Option ℕ × Batch
  unfolding read_samples
  do_ibs_get_sample type fd off max_samples b =
      let asked = record b { files = call (ioctl_call fd fionread 0) b.files } in
      read_samples type fd off max_samples asked (sys.ioctl b.files.calls fd fionread 0)

  -- One half of a round of `do_ibs_get_all_samples`.
  unfoldable pub get_from : SampleType → ℕ → ℕ → Batch → Bool × Batch
  unfolding do_ibs_get_sample count_samples
  get_from type fd max_samples b =
      let total = b.total_new_samples in
      count_samples type total max_samples (do_ibs_get_sample type fd total (max_samples - total) b)

  -- `want_op` and `want_fetch` are the bits of `sample_flags`, `ready` is `FD_ISSET`.
  module _ (want_op want_fetch : Bool) (ready : ℕ → Bool) (max_samples : ℕ) where
    abbrev half : Bool → SampleType → ℕ → Batch → Bool × Batch
    half want type fd b =
        if want && ltb 0 fd && (not (is_zero o.ibs_aggressive_read) || ready fd)
        then get_from type fd max_samples b
        else (false, b)

    -- A round for one CPU.
    unfoldable pub get_from_cpu : ℕ → Batch → Bool × Batch
    unfolding get_from
    get_from_cpu cpu b =
        let (stop, b') = half want_op op_type (b.files.cpus cpu).op_fd b in
        if stop then (true, b') else half want_fetch fetch_type (b'.files.cpus cpu).fetch_fd b'

    -- The loop from `cpu` on with `left` rounds to go.
    unfoldable pub get_all_from : (ℕ → Bool) → ℕ → ℕ → Batch → Batch
    unfolding get_from_cpu
    get_all_from list zero cpu b = b
    get_all_from list (suc left) cpu b =
        let (stop, b') = if list cpu then get_from_cpu cpu b else (false, b) in
        let rest = get_all_from list left (cpu + 1) b' in if stop then b' else rest

    unfoldable pub do_ibs_get_all_samples : (ℕ → Bool) → ℕ → Batch → Batch
    unfolding get_all_from
    do_ibs_get_all_samples list num_cpus b =
        get_all_from list num_cpus 0 (record b { total_new_samples = 0 })

  -- `do_ibs_sample`; `max_samples` is a number from 0 on, and 0 is refused. The first argument of
  -- `select`, one more than the greatest descriptor, is left out.
  unfoldable pub do_ibs_sample : ℕ → Bool → Bool → (ℕ → Bool) → ℕ → Batch → Option ℕ × Batch
  unfolding do_ibs_get_all_samples answer_of watch_from
  do_ibs_sample max_samples want_op want_fetch list num_cpus b =
      let fds = watch_from want_op want_fetch list b.files.cpus num_cpus 0 in
      let timeout = o.ibs_poll_timeout in
      let selected = record b { files = call (select_call fds timeout) b.files } in
      let ready = sys.fd_isset selected.files.calls in
      let all =
        do_ibs_get_all_samples want_op want_fetch ready max_samples list num_cpus selected in
      let idle : Option ℕ × Batch =
        if is_zero o.ibs_read_on_timeout
        then (some 0, selected)
        else (some all.total_new_samples, all) in
      if max_samples == 0
      then (none, b)
      else if not want_op && not want_fetch
      then (none, b)
      else answer_of (sys.select b.files.calls fds timeout) selected idle all
