-- ===== src/Driver/Support/Decides.antt =====
-- `check_for_ibs_support` of driver/ibs-core.c against a Boolean description of processors.
use amd_ibs_toolkit.Base.{
  ℕ, ◌^◌, ◌/◌, ◌%◌, ◌≡◌, refl, inl, inr, Bool, true, false, not, ◌&&◌, ◌||◌, ◌==◌, ltb,
}
use amd_ibs_toolkit.Base.{Bool-cases, arith}
use amd_ibs_toolkit.Driver.Scatter.{is_set}
use amd_ibs_toolkit.Driver.Device.{Kernel, Log, Ret, ok, err, einval}
use amd_ibs_toolkit.Driver.Support

-- `x` is the outcome `b` foresees: success, or -EINVAL.
abbrev pub verdict : Bool → Ret
verdict true = ok 0
verdict false = err einval

-- The models of family 17h that are taken to have IBS, by the two hexadecimal digits of their
-- number: 00 to 2f, and 50 to 5e.
abbrev pub hides_ibs : ℕ → Bool
hides_ibs model =
    let high = model / 16 in
    high == 0 || high == 1 || high == 2 || (high == 5 && not (model % 16 == 15))

zen-digits : (p : Support.Processor) → Support.is_zen p ≡ (p.x86 == 0x17 && hides_ibs p.x86_model)
zen-digits p = ground arith

-- The valid bit is set, and one of the bits 1 to 4 that stand for fetch and op sampling.
abbrev pub offers : ℕ → Bool
offers id = is_set id 1 && (is_set id 2 || is_set id 4 || is_set id 8 || is_set id 16)

check_flags-ret :
    (p : Support.Processor) (s : Support.Support) (started : Bool) (log : Log)
    → (Support.check_flags p s (started, log)).ret ≡ verdict (offers (p.cpuid_eax log))
unfolding Support.check_flags
check_flags-ret p s started log = ground arith

check_cpuid-ret :
    (k : Kernel) (p : Support.Processor) (s : Support.Support) (log : Log) (id : ℕ)
    → s.workaround_fam17h_zn ≡ false
    → ((log' : Log) → p.cpuid_eax log' ≡ id)
    → (Support.check_cpuid k p s log).ret
      ≡ verdict
          ((is_set p.cpuid_ecx (2 ^ 10) || (p.x86 == 0x17 && hides_ibs p.x86_model)) && offers id)
unfolding Support.check_cpuid
check_cpuid-ret k p s log id fresh same = elim (Bool-cases (is_set p.cpuid_ecx (2 ^ 10))) [
  | inl shows ↦ rw (shows, check_flags-ret, same) refl
  | inr hidden ↦ rw (← zen-digits p) (elim (Bool-cases (Support.is_zen p)) [
    | inl zen ↦ rw (hidden, fresh, zen, check_flags-ret, same) refl
    | inr other ↦ rw (hidden, fresh, other) refl
  ])
]

-- A family from 10h on that is not 11h.
family-not_old : (x : ℕ) → (x == 0x10 || ltb 0x11 x) ≡ not (ltb x 0x10 || x == 0x11)
family-not_old x = ground arith

-- With the workaround of family 17h not yet on and the capability flags the same throughout,
-- `check_for_ibs_support` answers 0 exactly if the processor is AMD's, of family 10h or from
-- 12h on, shows IBS in CPUID or is one of the models 00 to 2f and 50 to 5e of family 17h, and its
-- capability flags are valid and offer op or fetch sampling; otherwise it answers -EINVAL.
pub check_for_ibs_support-decides :
    (k : Kernel) (p : Support.Processor) (s : Support.Support) (log : Log) (id : ℕ)
    → s.workaround_fam17h_zn ≡ false
    → ((log' : Log) → p.cpuid_eax log' ≡ id)
    → (Support.check_for_ibs_support k p s log).ret
      ≡ verdict (
          p.is_amd
          && (p.x86 == 0x10 || ltb 0x11 p.x86)
          && (is_set p.cpuid_ecx (2 ^ 10) || (p.x86 == 0x17 && hides_ibs p.x86_model))
          && offers id)
unfolding Support.check_for_ibs_support Support.check_cpuid
check_for_ibs_support-decides k p s log id fresh same = elim (Bool-cases p.is_amd) [
  | inl amd ↦ elim (Bool-cases (ltb p.x86 0x10 || p.x86 == 0x11)) [
    | inl too_old ↦ rw (family-not_old, amd, too_old) refl
    | inr recent ↦
        rw
          (
            family-not_old,
            amd,
            recent,
            check_cpuid-ret k p (Support.family_errata p s) (Support.family_notes p log) id fresh
                same,
          )
          refl
  ]
  | inr foreign ↦ rw foreign refl
]
