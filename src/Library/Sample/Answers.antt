-- ===== src/Library/Sample/Answers.antt =====
-- What `do_ibs_get_sample` of lib/ibs.c does with the caller's arrays, by what it returns.
use amd_ibs_toolkit.Base.{ℕ, ◌+◌, ◌-◌, ◌≤◌, ◌<◌, ◌≡◌, refl, arith, ◌&&◌, ◌||◌, ◌==◌, ltb, min}
use amd_ibs_toolkit.Base.{Bool-cases, inl, inr, Option, none, some}
use amd_ibs_toolkit.Driver.Device.{Sample, op_sample, fetch_sample}
use amd_ibs_toolkit.Library.Options.{Options}
use amd_ibs_toolkit.Library.State.{System, Files, ReadData, call}
use amd_ibs_toolkit.Library.Sample

-- A sample of the type that stands beside it.
abbrev pub tag : Sample → Sample.SampleType
tag (op_sample _) = Sample.op_type
tag (fetch_sample _) = Sample.fetch_type

-- What `do_ibs_get_sample` does when it returns `n`.
pub record Got (type : Sample.SampleType) (off max n : ℕ) (b b' : Sample.Batch) : Type 0 where
  pub bound : n ≤ max
  pub types : b'.sample_types ≡ b.sample_types
  pub total : b'.total_new_samples ≡ b.total_new_samples
  pub before : (i : ℕ) → i < off → b'.samples i ≡ b.samples i
  pub new : (i : ℕ) → off ≤ i → i < off + n → tag (b'.samples i) ≡ type

-- What it does when it returns -1.
pub record Missed (b b' : Sample.Batch) : Type 0 where
  pub types : b'.sample_types ≡ b.sample_types
  pub total : b'.total_new_samples ≡ b.total_new_samples
  pub samples : b'.samples ≡ b.samples

tag-as_samples :
    (type : Sample.SampleType) (d : ReadData) (i : ℕ) → tag (Sample.as_samples type d i) ≡ type
tag-as_samples Sample.op_type d i = refl
tag-as_samples Sample.fetch_type d i = refl

-- What either return value says.
abbrev pub Answered : Sample.SampleType → ℕ → ℕ → Sample.Batch → Option ℕ × Sample.Batch → Type 0
Answered type off max b (none, b') = Missed b b'
Answered type off max b (some n, b') = Got type off max n b b'

pub copy_in_before {ℓ} :
    {A : Type ℓ} (off n : ℕ) (source target : ℕ → A) (i : ℕ)
    → i < off
    → Sample.copy_in off n source target i ≡ target i
copy_in_before off n source target i h = ground arith

pub copy_in_new {ℓ} :
    {A : Type ℓ} (off n : ℕ) (source target : ℕ → A) (i : ℕ)
    → off ≤ i
    → i < off + n
    → Sample.copy_in off n source target i ≡ source (i - off)
copy_in_new off n source target i h k = ground arith

keep_samples-Answered :
    (type : Sample.SampleType) (off n max : ℕ) (b : Sample.Batch) (f : Files)
    (answer : Option ReadData)
    → n ≤ max
    → Answered type off max b (Sample.keep_samples type off n (record b { files = f }) answer)
unfolding Sample.keep_samples
keep_samples-Answered type off n max b f none le = record {
  types = refl;
  total = refl;
  samples = refl;
}
keep_samples-Answered type off n max b f (some d) le =
    elim (Bool-cases (d.bytes_read == 0 || Sample.is_short type d.bytes_read n)) [
      | inl short ↦ rw (short, Answered) (record { types = refl; total = refl; samples = refl })
      | inr whole ↦
          rw (whole, Answered)
            (record {
              bound = le;
              types = refl;
              total = refl;
              before = copy_in_before off n (Sample.as_samples type d) b.samples;
              new = λ i h k.
                  rw (copy_in_new off n (Sample.as_samples type d) b.samples i h k)
                    (tag-as_samples type d (i - off));
            })
    ]

module _ (sys : System) (o : Options) where
  pub read_samples-Answered :
      (type : Sample.SampleType) (fd off max : ℕ) (b : Sample.Batch) (f : Files) (answer : Option ℕ)
      → Answered type off max b
          (Sample.read_samples sys o type fd off max (record b { files = f }) answer)
  unfolding Sample.read_samples
  read_samples-Answered type fd off max b f none = record {
    types = refl;
    total = refl;
    samples = refl;
  }
  read_samples-Answered type fd off max b f (some available) =
      let n = min available max in
      let asked = call (Sample.read_call fd (Sample.read_size type n)) f in
      let held = o.ibs_aggressive_read == 0 && ltb available o.ibs_poll_num_samples in
      elim (Bool-cases (available == 0)) [
        | inl nothing ↦
            rw (nothing, Answered) (record { types = refl; total = refl; samples = refl })
        | inr something ↦ elim (Bool-cases held) [
          | inl few ↦
              rw (something, few, Answered) (record { types = refl; total = refl; samples = refl })
          | inr enough ↦
              rw (something, enough)
                (keep_samples-Answered type off n max b asked
                  (sys.read f.calls fd (Sample.read_size type n)) (omega arith))
        ]
      ]
