-- ===== src/Monitor/Header.antt =====
-- `output_machine_setup`, `output_op_header` and `output_fetch_header` of
-- tools/ibs_monitor/ibs_monitor.c, as the lines that they write. The bits of `cpuid` that are
-- printed as 1 or 0 are Booleans. `machine` is what follows the stepping in the setup of the
-- machine, in the pieces in which `fgets` of the decoder returns it.
pub mod Lines
pub mod Flags
pub mod RoundTrip
pub mod Table
pub mod File
use amd_ibs_toolkit.Base.{ℕ, Bool, true, false, not, ◌&&◌, ◌||◌, ◌==◌, ltb, leb, if◌then◌else◌}
use amd_ibs_toolkit.Base.{Option, none, some, List, [], ◌∷◌, ◌++◌}
use amd_ibs_toolkit.Text.{Bytes, codes, print_hex}
use amd_ibs_toolkit.Monitor.Cpu.{Cpuid, cpu_family, cpu_model, cpu_stepping, get_deep_ibs_info}
use amd_ibs_toolkit.Monitor.Cpu.{check_amd_processor, check_basic_ibs_support, check_ibs_op_support}
use amd_ibs_toolkit.Monitor.Cpu.{check_ibs_fetch_support, bit_at}

-- `"0x%x\n"` behind a text.
abbrev pub hex_line : Bytes → ℕ → Bytes
hex_line text n = text ++ (codes " 0x" ++ print_hex n ++ codes "\n")

-- `" %u\n"` behind a text, for 1 or 0.
abbrev pub flag_line : Bytes → Bool → Bytes
flag_line text b = text ++ (if b then codes " 1\n" else codes " 0\n")

unfoldable pub output_machine_setup : Cpuid → List Bytes → List Bytes
output_machine_setup cpuid machine =
    hex_line (codes "AMD Processor Family:") (cpu_family cpuid)
    ∷ hex_line (codes "AMD Processor Model:") (cpu_model cpuid)
    ∷ hex_line (codes "AMD Processor Stepping:") (cpu_stepping cpuid)
    ∷ machine

abbrev early_15h : ℕ → ℕ → Bool
early_15h fam model = fam == 0x15 && ltb model 0x10

-- `brn_resync` and `misp_return`
abbrev pub has_brn_resync : ℕ → ℕ → Bool
has_brn_resync fam model = (fam == 0x10 || fam == 0x12) || (fam == 0x14 || early_15h fam model)

abbrev pub has_microcode : ℕ → ℕ → Bool
has_microcode fam model = (fam == 0x15 && leb 0x60 model) || fam == 0x17

-- `ibs_op_data2_4_5`
abbrev pub has_data2_4_5 : ℕ → Bool
has_data2_4_5 fam = not (fam == 0x14 || fam == 0x16)

-- `ld_bnk_con` and `st_to_ld_can`
abbrev pub has_ld_bnk_con : ℕ → ℕ → Bool
has_ld_bnk_con fam model = leb fam 0x12 || early_15h fam model

abbrev pub has_st_bnk_con : ℕ → Bool
has_st_bnk_con fam = leb fam 0x12

abbrev pub has_st_to_ld_fw : ℕ → ℕ → Bool
has_st_to_ld_fw fam model = (leb fam 0x12 || fam == 0x14) || (fam == 0x16 || early_15h fam model)

-- `ibs_data_3_20_31_48_63`
abbrev pub has_data3_extra : ℕ → ℕ → Bool
has_data3_extra fam model = leb 0x16 fam || (fam == 0x15 && leb 0x30 model)

abbrev pub deep_bit : Cpuid → ℕ → Bool
deep_bit cpuid i = not (bit_at (get_deep_ibs_info cpuid) i == 0)

abbrev pub end_lines : List Bytes
end_lines = codes "\n" ∷ codes "=============================================\n" ∷ []

-- The lines from `IbsOpBrnResync` on, down to the last flag.
unfoldable pub op_flag_lines : Cpuid → List Bytes
op_flag_lines cpuid =
    let fam = cpu_family cpuid in
    let model = cpu_model cpuid in
    flag_line (codes "IbsOpBrnResync:") (has_brn_resync fam model)
    ∷ flag_line (codes "IbsOpMispReturn:") (has_brn_resync fam model)
    ∷ flag_line (codes "BrnTrgt:") (deep_bit cpuid 5)
    ∷ flag_line (codes "OpCntExt:") (deep_bit cpuid 6)
    ∷ flag_line (codes "RipInvalidChk:") (deep_bit cpuid 7)
    ∷ flag_line (codes "OpBrnFuse:") (deep_bit cpuid 8)
    ∷ flag_line (codes "IbsOpData4:") (deep_bit cpuid 10)
    ∷ flag_line (codes "Microcode:") (has_microcode fam model)
    ∷ flag_line (codes "IBSOpData2_4_5:") (has_data2_4_5 fam)
    ∷ flag_line (codes "IbsDcLdBnkCon:") (has_ld_bnk_con fam model)
    ∷ flag_line (codes "IbsDcStBnkCon:") (has_st_bnk_con fam)
    ∷ flag_line (codes "IbsDcStToLdFwd:") (has_st_to_ld_fw fam model)
    ∷ flag_line (codes "IbsDcStToLdCan:") (has_ld_bnk_con fam model)
    ∷ flag_line (codes "IbsData3_20_31_48_63:") (has_data3_extra fam model)
    ∷ []

-- All lines, once the checks have passed.
unfoldable pub op_header_lines : Cpuid → List Bytes → List Bytes
unfolding output_machine_setup op_flag_lines
op_header_lines cpuid machine =
    codes "IBS Op Sample File\n"
    ∷ (output_machine_setup cpuid machine
        ++ (codes "IBS Op Structure Version: 1\n" ∷ (op_flag_lines cpuid ++ end_lines)))

unfoldable pub fetch_header_lines : Cpuid → List Bytes → List Bytes
unfolding output_machine_setup
fetch_header_lines cpuid machine =
    codes "IBS Fetch Sample File\n"
    ∷ (output_machine_setup cpuid machine
        ++ (codes "IBS Fetch Structure Version: 1\n"
            ∷ flag_line (codes "IbsFetchCtlExtd:") (deep_bit cpuid 9)
            ∷ end_lines))

-- Three checks in a row; `none` stands for `exit` in one of them.
abbrev pub after_checks : Bool → Bool → Bool → List Bytes → Option (List Bytes)
after_checks amd basic flavor lines =
    if not amd then none else if not basic then none else if not flavor then none else some lines

unfoldable pub output_op_header : Cpuid → List Bytes → Option (List Bytes)
unfolding op_header_lines
output_op_header cpuid machine =
    after_checks (check_amd_processor cpuid) (check_basic_ibs_support cpuid)
      (check_ibs_op_support cpuid) (op_header_lines cpuid machine)

unfoldable pub output_fetch_header : Cpuid → List Bytes → Option (List Bytes)
unfolding fetch_header_lines
output_fetch_header cpuid machine =
    after_checks (check_amd_processor cpuid) (check_basic_ibs_support cpuid)
      (check_ibs_fetch_support cpuid) (fetch_header_lines cpuid machine)
