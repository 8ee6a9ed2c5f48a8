-- ===== src/Monitor/Header/Flags.antt =====
-- The flags of an op header, as the monitor writes and the decoder reads them.
use amd_ibs_toolkit.Base.{◌≡◌, refl, ◌∙◌, Bool, true, false}
use amd_ibs_toolkit.Base.{List, [], ◌∷◌, ◌++◌}
use amd_ibs_toolkit.Text.{Bytes, starts_with}
use amd_ibs_toolkit.Decoder.Header.{Features}
use amd_ibs_toolkit.Decoder.Parse
use amd_ibs_toolkit.Monitor.Cpu.{Cpuid, cpu_family, cpu_model}
use amd_ibs_toolkit.Monitor.Header
use amd_ibs_toolkit.Monitor.Header.Lines.{parse_lines_read}

-- The flags of an op header, as the decoder's keys.
pub data Flag : Type 0 where
  brn_resync_flag misp_return_flag brn_trgt_flag op_cnt_ext_flag rip_invalid_chk_flag : Flag
  op_brn_fuse_flag ibs_op_data_4_flag microcode_flag ibs_op_data2_4_5_flag dc_ld_bnk_con_flag : Flag
  dc_st_bnk_con_flag dc_st_to_ld_fwd_flag dc_st_to_ld_can_flag ibs_data3_20_31_48_63_flag : Flag

abbrev pub key_of : Flag → Parse.Key
key_of brn_resync_flag = Parse.brn_resync_key
key_of misp_return_flag = Parse.misp_return_key
key_of brn_trgt_flag = Parse.brn_trgt_key
key_of op_cnt_ext_flag = Parse.op_cnt_ext_key
key_of rip_invalid_chk_flag = Parse.rip_invalid_chk_key
key_of op_brn_fuse_flag = Parse.op_brn_fuse_key
key_of ibs_op_data_4_flag = Parse.ibs_op_data_4_key
key_of microcode_flag = Parse.microcode_key
key_of ibs_op_data2_4_5_flag = Parse.ibs_op_data2_4_5_key
key_of dc_ld_bnk_con_flag = Parse.dc_ld_bnk_con_key
key_of dc_st_bnk_con_flag = Parse.dc_st_bnk_con_key
key_of dc_st_to_ld_fwd_flag = Parse.dc_st_to_ld_fwd_key
key_of dc_st_to_ld_can_flag = Parse.dc_st_to_ld_can_key
key_of ibs_data3_20_31_48_63_flag = Parse.ibs_data3_20_31_48_63_key

abbrev pub put_flag : Flag → Bool → Features → Features
put_flag brn_resync_flag b f = record f { brn_resync = b }
put_flag misp_return_flag b f = record f { misp_return = b }
put_flag brn_trgt_flag b f = record f { brn_trgt = b }
put_flag op_cnt_ext_flag b f = record f { op_cnt_ext = b }
put_flag rip_invalid_chk_flag b f = record f { rip_invalid_chk = b }
put_flag op_brn_fuse_flag b f = record f { op_brn_fuse = b }
put_flag ibs_op_data_4_flag b f = record f { ibs_op_data_4 = b }
put_flag microcode_flag b f = record f { microcode = b }
put_flag ibs_op_data2_4_5_flag b f = record f { ibs_op_data2_4_5 = b }
put_flag dc_ld_bnk_con_flag b f = record f { dc_ld_bnk_con = b }
put_flag dc_st_bnk_con_flag b f = record f { dc_st_bnk_con = b }
put_flag dc_st_to_ld_fwd_flag b f = record f { dc_st_to_ld_fwd = b }
put_flag dc_st_to_ld_can_flag b f = record f { dc_st_to_ld_can = b }
put_flag ibs_data3_20_31_48_63_flag b f = record f { ibs_data3_20_31_48_63 = b }

-- What the decoder reads in a flag's line, where that line starts with the flag's key.
read_flag :
    (k : Flag) (b : Bool) (f : Features)
    → Parse.parse_line Parse.op_keys (Header.flag_line (Parse.key_text (key_of k)) b) f
      ≡ put_flag k b f
unfolding Parse.parse_line Parse.put
read_flag brn_resync_flag true f = refl
read_flag brn_resync_flag false f = refl
read_flag misp_return_flag true f = refl
read_flag misp_return_flag false f = refl
read_flag brn_trgt_flag true f = refl
read_flag brn_trgt_flag false f = refl
read_flag op_cnt_ext_flag true f = refl
read_flag op_cnt_ext_flag false f = refl
read_flag rip_invalid_chk_flag true f = refl
read_flag rip_invalid_chk_flag false f = refl
read_flag op_brn_fuse_flag true f = refl
read_flag op_brn_fuse_flag false f = refl
read_flag ibs_op_data_4_flag true f = refl
read_flag ibs_op_data_4_flag false f = refl
read_flag microcode_flag true f = refl
read_flag microcode_flag false f = refl
read_flag ibs_op_data2_4_5_flag true f = refl
read_flag ibs_op_data2_4_5_flag false f = refl
read_flag dc_ld_bnk_con_flag true f = refl
read_flag dc_ld_bnk_con_flag false f = refl
read_flag dc_st_bnk_con_flag true f = refl
read_flag dc_st_bnk_con_flag false f = refl
read_flag dc_st_to_ld_fwd_flag true f = refl
read_flag dc_st_to_ld_fwd_flag false f = refl
read_flag dc_st_to_ld_can_flag true f = refl
read_flag dc_st_to_ld_can_flag false f = refl
read_flag ibs_data3_20_31_48_63_flag true f = refl
read_flag ibs_data3_20_31_48_63_flag false f = refl

abbrev pub flag_text : Flag × Bool → Bytes
flag_text (k, b) = Header.flag_line (Parse.key_text (key_of k)) b

flag_more : (k : Flag) (b : Bool) → starts_with Parse.end_of_header (flag_text (k, b)) ≡ false
flag_more brn_resync_flag b = refl
flag_more misp_return_flag b = refl
flag_more brn_trgt_flag b = refl
flag_more op_cnt_ext_flag b = refl
flag_more rip_invalid_chk_flag b = refl
flag_more op_brn_fuse_flag b = refl
flag_more ibs_op_data_4_flag b = refl
flag_more microcode_flag b = refl
flag_more ibs_op_data2_4_5_flag b = refl
flag_more dc_ld_bnk_con_flag b = refl
flag_more dc_st_bnk_con_flag b = refl
flag_more dc_st_to_ld_fwd_flag b = refl
flag_more dc_st_to_ld_can_flag b = refl
flag_more ibs_data3_20_31_48_63_flag b = refl

abbrev pub flag_texts : List (Flag × Bool) → List Bytes
flag_texts [] = []
flag_texts (e ∷ flags) = flag_text e ∷ flag_texts flags

abbrev pub set_flags : List (Flag × Bool) → Features → Features
set_flags [] f = f
set_flags ((k, b) ∷ flags) f = set_flags flags (put_flag k b f)

pub parse_lines_flags :
    (flags : List (Flag × Bool)) (lines : List Bytes) (f : Features)
    → Parse.parse_lines Parse.op_keys (flag_texts flags ++ lines) f
      ≡ Parse.parse_lines Parse.op_keys lines (set_flags flags f)
parse_lines_flags [] lines f = refl
parse_lines_flags ((k, b) ∷ flags) lines f =
    parse_lines_read Parse.op_keys (flag_text (k, b)) (flag_texts flags ++ lines) f (put_flag k b f)
      (flag_more k b) (read_flag k b f)
    ∙ parse_lines_flags flags lines (put_flag k b f)

-- The flags that the monitor finds.
abbrev pub flags_of : Cpuid → List (Flag × Bool)
flags_of cpuid =
    let fam = cpu_family cpuid in
    let model = cpu_model cpuid in
    (brn_resync_flag, Header.has_brn_resync fam model)
    ∷ (misp_return_flag, Header.has_brn_resync fam model)
    ∷ (brn_trgt_flag, Header.deep_bit cpuid 5)
    ∷ (op_cnt_ext_flag, Header.deep_bit cpuid 6)
    ∷ (rip_invalid_chk_flag, Header.deep_bit cpuid 7)
    ∷ (op_brn_fuse_flag, Header.deep_bit cpuid 8)
    ∷ (ibs_op_data_4_flag, Header.deep_bit cpuid 10)
    ∷ (microcode_flag, Header.has_microcode fam model)
    ∷ (ibs_op_data2_4_5_flag, Header.has_data2_4_5 fam)
    ∷ (dc_ld_bnk_con_flag, Header.has_ld_bnk_con fam model)
    ∷ (dc_st_bnk_con_flag, Header.has_st_bnk_con fam)
    ∷ (dc_st_to_ld_fwd_flag, Header.has_st_to_ld_fw fam model)
    ∷ (dc_st_to_ld_can_flag, Header.has_ld_bnk_con fam model)
    ∷ (ibs_data3_20_31_48_63_flag, Header.has_data3_extra fam model)
    ∷ []
