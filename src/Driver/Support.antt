-- ===== src/Driver/Support.antt =====
-- `check_for_ibs_support` of driver/ibs-core.c: what the processor offers, and the workarounds.
pub mod Decides
use amd_ibs_toolkit.Base.{
  ℕ, ◌^◌, List, [], ◌∷◌, Bool, true, false, not, ◌&&◌, ◌||◌, ◌==◌, ltb, leb, if◌then◌else◌,
}
use amd_ibs_toolkit.Driver.Scatter.{is_set}
use amd_ibs_toolkit.Driver.Device.{Kernel, Log, Ret, ok, err, einval, pr_info, pr_err}
use amd_ibs_toolkit.Driver.Workarounds.{start_fam17h_zn_static_workaround}

-- `boot_cpu_data`, `cpuid` and the CPUs that are online.
pub record Processor : Type 0 where
  pub is_amd : Bool
  pub x86 : ℕ
  pub x86_model : ℕ
  pub cpuid_ecx : ℕ
  pub cpuid_eax : Log → ℕ
  pub online : List ℕ

-- The static flags of the driver.
pub record Support : Type 0 where
  pub ibs_fetch_supported : Bool
  pub ibs_op_supported : Bool
  pub ibs_brn_trgt_supported : Bool
  pub ibs_op_cnt_ext_supported : Bool
  pub ibs_rip_invalid_chk_supported : Bool
  pub ibs_op_brn_fuse_supported : Bool
  pub ibs_fetch_ctl_extd_supported : Bool
  pub ibs_op_data4_supported : Bool
  pub workaround_fam10h_err_420 : Bool
  pub workaround_fam15h_err_718 : Bool
  pub workaround_fam17h_zn : Bool

-- The return value, the flags, `workarounds_started` and the log.
pub record Checked : Type 0 where
  pub ret : Ret
  pub support : Support
  pub started : Bool
  pub log : Log

abbrev refuse : Support → Bool × Log → Checked
refuse s (started, log) = record {
  ret = err einval;
  support = s;
  started = started;
  log = pr_err ∷ log;
}

-- The erratum flags of families 10h and 15h.
abbrev pub family_errata : Processor → Support → Support
family_errata p s = record s {
  workaround_fam10h_err_420 = s.workaround_fam10h_err_420 || p.x86 == 0x10;
  workaround_fam15h_err_718 =
      s.workaround_fam15h_err_718 || (p.x86 == 0x15 && leb p.x86_model 0x1f);
}

abbrev pub family_notes : Processor → Log → Log
family_notes p log =
    let log' = if p.x86 == 0x10 then pr_info ∷ log else log in
    if p.x86 == 0x15 && leb p.x86_model 0x1f then pr_info ∷ log' else log'

-- The models with a "Zen" core that may not show IBS in `cpuid`.
abbrev pub is_zen : Processor → Bool
is_zen p = p.x86 == 0x17 && (leb p.x86_model 0x2f || (leb 0x50 p.x86_model && ltb p.x86_model 0x5f))

-- The loop that starts the static workaround on each CPU.
unfoldable pub start_on_each : Kernel → List ℕ → Bool × Log → Bool × Log
start_on_each k [] st = st
start_on_each k (cpu ∷ cpus) st = start_on_each k cpus (start_fam17h_zn_static_workaround k cpu st)

-- `ibs_op_supported`: one of three bits.
abbrev pub offers_op : ℕ → Bool
offers_op feature_id =
    is_set feature_id (2 ^ 2) || is_set feature_id (2 ^ 3) || is_set feature_id (2 ^ 4)

abbrev pub offers_fetch : ℕ → Bool
offers_fetch feature_id = is_set feature_id (2 ^ 1)

-- The end of the function, from the capability flags on.
unfoldable pub check_flags : Processor → Support → Bool × Log → Checked
check_flags p s (started, log) =
    let id = p.cpuid_eax log in
    let found = record s {
      ibs_fetch_supported = offers_fetch id;
      ibs_op_supported = offers_op id;
    } in
    let all = record found {
      ibs_brn_trgt_supported = is_set id (2 ^ 5);
      ibs_op_cnt_ext_supported = is_set id (2 ^ 6);
      ibs_rip_invalid_chk_supported = is_set id (2 ^ 7);
      ibs_op_brn_fuse_supported = is_set id (2 ^ 8);
      ibs_fetch_ctl_extd_supported = is_set id (2 ^ 9);
      ibs_op_data4_supported = is_set id (2 ^ 10);
    } in
    if not (is_set id 1)
    then refuse s (started, log)
    else if not (offers_fetch id) && not (offers_op id)
    then refuse found (started, log)
    else record { ret = ok 0; support = all; started = started; log = log }

-- The notes that the workaround may slow the processor down.
abbrev pub slow_notes : Support → Log → Log
slow_notes s log = if s.workaround_fam17h_zn then pr_info ∷ pr_info ∷ log else log

-- From the test of `cpuid` on: the workaround of family 17h, if IBS does not show.
unfoldable pub check_cpuid : Kernel → Processor → Support → Log → Checked
unfolding start_on_each check_flags
check_cpuid k p s log =
    let zn = record s { workaround_fam17h_zn = true } in
    let (started, log') = start_on_each k p.online (false, pr_info ∷ log) in
    if is_set p.cpuid_ecx (2 ^ 10) || s.workaround_fam17h_zn
    then check_flags p s (false, slow_notes s log)
    else if is_zen p
    then check_flags p zn (started, slow_notes zn log')
    else refuse s (false, log)

-- `workarounds_started` is 0 when the module is loaded.
unfoldable pub check_for_ibs_support : Kernel → Processor → Support → Log → Checked
unfolding check_cpuid
check_for_ibs_support k p s log =
    if not p.is_amd
    then refuse s (false, pr_err ∷ log)
    else if ltb p.x86 0x10 || p.x86 == 0x11
    then refuse s (false, log)
    else check_cpuid k p (family_errata p s) (family_notes p log)
