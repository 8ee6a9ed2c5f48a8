-- ===== src/Monitor/Header/RoundTrip.antt =====
-- The decoder's reading of the header that the monitor writes.
use amd_ibs_toolkit.Base.{◌≡◌, refl, ap, ◌∙◌, Bool, true, false, ◌&&◌, ◌==◌, leb}
use amd_ibs_toolkit.Base.{some, List, [], ◌∷◌, ◌++◌}
use amd_ibs_toolkit.Text.{Bytes, codes}
use amd_ibs_toolkit.Decoder.Header.{Features}
use amd_ibs_toolkit.Decoder.Parse
use amd_ibs_toolkit.Monitor.Cpu.{Cpuid, cpu_family, cpu_model}
use amd_ibs_toolkit.Monitor.Header
use amd_ibs_toolkit.Monitor.Header.Lines.{
  are_quiet, parse_lines_quiet, parse_lines_read, parse_lines_end, parse_setup,
}
use amd_ibs_toolkit.Monitor.Header.Flags

-- What the monitor finds out about a processor, with the errata that the decoder knows.
abbrev pub op_features : Cpuid → Features
op_features cpuid =
    let fam = cpu_family cpuid in
    let model = cpu_model cpuid in
    record {
      family = fam;
      model = model;
      brn_resync = Header.has_brn_resync fam model;
      misp_return = Header.has_brn_resync fam model;
      brn_trgt = Header.deep_bit cpuid 5;
      op_cnt_ext = Header.deep_bit cpuid 6;
      rip_invalid_chk = Header.deep_bit cpuid 7;
      op_brn_fuse = Header.deep_bit cpuid 8;
      ibs_op_data_4 = Header.deep_bit cpuid 10;
      microcode = Header.has_microcode fam model;
      ibs_op_data2_4_5 = Header.has_data2_4_5 fam;
      dc_ld_bnk_con = Header.has_ld_bnk_con fam model;
      dc_st_bnk_con = Header.has_st_bnk_con fam;
      dc_st_to_ld_fwd = Header.has_st_to_ld_fw fam model;
      dc_st_to_ld_can = Header.has_ld_bnk_con fam model;
      ibs_data3_20_31_48_63 = Header.has_data3_extra fam model;
      fetch_ctl_ext = false;
      fam14h_err484 = fam == 0x14;
      fam15h_model01h_err717 = fam == 0x15 && leb model 1;
    }

op_flag_lines_lem :
    (cpuid : Cpuid) → Header.op_flag_lines cpuid ≡ Flags.flag_texts (Flags.flags_of cpuid)
unfolding Header.op_flag_lines
op_flag_lines_lem cpuid = refl

parse_op_lines :
    (cpuid : Cpuid) (machine : List Bytes)
    → are_quiet Parse.op_keys machine ≡ true
    → Parse.parse_op_in_header (Header.op_header_lines cpuid machine) Parse.no_features
      ≡ op_features cpuid
unfolding Parse.parse_op_in_header Header.op_header_lines Header.op_flag_lines
parse_op_lines cpuid machine quiet =
    let flags = Flags.flags_of cpuid in
    let set_up = record Parse.no_features { family = cpu_family cpuid; model = cpu_model cpuid } in
    let tail = Flags.flag_texts flags ++ Header.end_lines in
    let last : List Bytes = (Parse.end_of_header ++ codes "\n") ∷ [] in
    let version = codes "IBS Op Structure Version: 1\n" in
    let title = codes "IBS Op Sample File\n" in
    let read : Parse.parse_lines Parse.op_keys (Header.op_header_lines cpuid machine)
          Parse.no_features
        ≡ Flags.set_flags flags set_up =
      parse_lines_quiet Parse.op_keys (title ∷ [])
        (Header.output_machine_setup cpuid machine
          ++ (version ∷ (Header.op_flag_lines cpuid ++ Header.end_lines)))
        Parse.no_features refl
      ∙ parse_setup cpuid Parse.op_flag_keys machine (version ∷ tail) Parse.no_features refl quiet
      ∙ parse_lines_quiet Parse.op_keys (version ∷ []) tail set_up refl
      ∙ Flags.parse_lines_flags flags Header.end_lines set_up
      ∙ parse_lines_quiet Parse.op_keys (codes "\n" ∷ []) last (Flags.set_flags flags set_up) refl
      ∙ parse_lines_end Parse.op_keys (Flags.set_flags flags set_up) in
    ap Parse.find_errata read

after_checks-some :
    (amd basic flavor : Bool) (lines out : List Bytes)
    → Header.after_checks amd basic flavor lines ≡ some out
    → lines ≡ out
after_checks-some true true true lines out e = cc e
after_checks-some true true false lines out e = absurd (cc e)
after_checks-some true false flavor lines out e = absurd (cc e)
after_checks-some false basic flavor lines out e = absurd (cc e)

pub output_op_header_lines :
    (cpuid : Cpuid) (machine lines : List Bytes)
    → Header.output_op_header cpuid machine ≡ some lines
    → Header.op_header_lines cpuid machine ≡ lines
unfolding Header.output_op_header
output_op_header_lines cpuid machine lines =
    after_checks-some (Header.check_amd_processor cpuid) (Header.check_basic_ibs_support cpuid)
      (Header.check_ibs_op_support cpuid) (Header.op_header_lines cpuid machine) lines

-- When the monitor writes an op header on a processor, and no line in the rest of the machine's
-- setup starts with a key of the decoder or ends the header, the decoder reads back from it the
-- family and the model that the monitor found, each flag as the monitor found it, and the errata
-- that go with this family and model.
pub parse_op_in_header-output_op_header :
    (cpuid : Cpuid) (machine lines : List Bytes)
    → are_quiet Parse.op_keys machine ≡ true
    → Header.output_op_header cpuid machine ≡ some lines
    → Parse.parse_op_in_header lines Parse.no_features ≡ op_features cpuid
parse_op_in_header-output_op_header cpuid machine lines quiet e =
    rw (← output_op_header_lines cpuid machine lines e) (parse_op_lines cpuid machine quiet)

output_fetch_header_lines :
    (cpuid : Cpuid) (machine lines : List Bytes)
    → Header.output_fetch_header cpuid machine ≡ some lines
    → Header.fetch_header_lines cpuid machine ≡ lines
unfolding Header.output_fetch_header
output_fetch_header_lines cpuid machine lines =
    after_checks-some (Header.check_amd_processor cpuid) (Header.check_basic_ibs_support cpuid)
      (Header.check_ibs_fetch_support cpuid) (Header.fetch_header_lines cpuid machine) lines

read_fetch_flag :
    (b : Bool) (f : Features)
    → Parse.parse_line Parse.fetch_keys (Header.flag_line (codes "IbsFetchCtlExtd:") b) f
      ≡ record f { fetch_ctl_ext = b }
unfolding Parse.parse_line Parse.put
read_fetch_flag true f = refl
read_fetch_flag false f = refl

parse_fetch_lines :
    (cpuid : Cpuid) (machine : List Bytes)
    → are_quiet Parse.fetch_keys machine ≡ true
    → Parse.parse_fetch_in_header (Header.fetch_header_lines cpuid machine) Parse.no_features
      ≡ record Parse.no_features {
        family = cpu_family cpuid;
        model = cpu_model cpuid;
        fetch_ctl_ext = Header.deep_bit cpuid 9;
      }
unfolding Parse.parse_fetch_in_header Header.fetch_header_lines
parse_fetch_lines cpuid machine quiet =
    let keys = Parse.fetch_keys in
    let extd = Header.deep_bit cpuid 9 in
    let set_up = record Parse.no_features { family = cpu_family cpuid; model = cpu_model cpuid } in
    let found = record set_up { fetch_ctl_ext = extd } in
    let line = Header.flag_line (codes "IbsFetchCtlExtd:") extd in
    let last : List Bytes = (Parse.end_of_header ++ codes "\n") ∷ [] in
    let version = codes "IBS Fetch Structure Version: 1\n" in
    let title = codes "IBS Fetch Sample File\n" in
    let tail = line ∷ Header.end_lines in
    parse_lines_quiet keys (title ∷ [])
      (Header.output_machine_setup cpuid machine ++ (version ∷ tail)) Parse.no_features refl
    ∙ parse_setup cpuid (Parse.fetch_ctl_ext_key ∷ []) machine (version ∷ tail) Parse.no_features
        refl quiet
    ∙ parse_lines_quiet keys (version ∷ []) tail set_up refl
    ∙ parse_lines_read keys line Header.end_lines set_up found refl (read_fetch_flag extd set_up)
    ∙ parse_lines_quiet keys (codes "\n" ∷ []) last found refl
    ∙ parse_lines_end keys found

-- When the monitor writes a fetch header on a processor, and no line in the rest of the machine's
-- setup starts with a key of the decoder or ends the header, the decoder reads back from it the
-- family, the model and the extended fetch control as the monitor found them.
pub parse_fetch_in_header-output_fetch_header :
    (cpuid : Cpuid) (machine lines : List Bytes)
    → are_quiet Parse.fetch_keys machine ≡ true
    → Header.output_fetch_header cpuid machine ≡ some lines
    → Parse.parse_fetch_in_header lines Parse.no_features ≡ record Parse.no_features {
      family = cpu_family cpuid;
      model = cpu_model cpuid;
      fetch_ctl_ext = Header.deep_bit cpuid 9;
    }
parse_fetch_in_header-output_fetch_header cpuid machine lines quiet e =
    rw (← output_fetch_header_lines cpuid machine lines e) (parse_fetch_lines cpuid machine quiet)
