-- ===== src/Decoder/Parse.antt =====
-- `header_parse`, `parse_op_in_header` and `parse_fetch_in_header` of
-- tools/ibs_decoder/ibs_decoder.c. A file is the list of what its calls of `fgets` return.
use amd_ibs_toolkit.Base.{ℕ, ◌%◌, ◌^◌, Bool, false, not, ◌&&◌, ◌||◌, ◌==◌, leb, if◌then◌else◌}
use amd_ibs_toolkit.Base.{Option, none, some, List, [], ◌∷◌}
use amd_ibs_toolkit.Text.{Bytes, codes, starts_with, strtok, strtoul}
use amd_ibs_toolkit.Decoder.Header.{Features}

-- The calls of `header_parse`.
pub data Key : Type 0 where
  family_key model_key : Key
  brn_resync_key misp_return_key brn_trgt_key op_cnt_ext_key rip_invalid_chk_key : Key
  op_brn_fuse_key ibs_op_data_4_key microcode_key ibs_op_data2_4_5_key : Key
  dc_ld_bnk_con_key dc_st_bnk_con_key dc_st_to_ld_fwd_key dc_st_to_ld_can_key : Key
  ibs_data3_20_31_48_63_key fetch_ctl_ext_key : Key

abbrev pub key_text : Key → Bytes
key_text family_key = codes "AMD Processor Family:"
key_text model_key = codes "AMD Processor Model:"
key_text brn_resync_key = codes "IbsOpBrnResync:"
key_text misp_return_key = codes "IbsOpMispReturn:"
key_text brn_trgt_key = codes "BrnTrgt:"
key_text op_cnt_ext_key = codes "OpCntExt:"
key_text rip_invalid_chk_key = codes "RipInvalidChk:"
key_text op_brn_fuse_key = codes "OpBrnFuse:"
key_text ibs_op_data_4_key = codes "IbsOpData4:"
key_text microcode_key = codes "Microcode:"
key_text ibs_op_data2_4_5_key = codes "IBSOpData2_4_5:"
key_text dc_ld_bnk_con_key = codes "IbsDcLdBnkCon:"
key_text dc_st_bnk_con_key = codes "IbsDcStBnkCon:"
key_text dc_st_to_ld_fwd_key = codes "IbsDcStToLdFwd:"
key_text dc_st_to_ld_can_key = codes "IbsDcStToLdCan:"
key_text ibs_data3_20_31_48_63_key = codes "IbsData3_20_31_48_63:"
key_text fetch_ctl_ext_key = codes "IbsFetchCtlExtd:"

-- An `int` or a `uint32_t` that takes the value of an `unsigned long`; the flags are only tested.
abbrev to_word : ℕ → ℕ
to_word v = v % 2 ^ 32

abbrev to_flag : ℕ → Bool
to_flag v = not (to_word v == 0)

-- `*target = v`
unfoldable pub put : Key → ℕ → Features → Features
put family_key v f = record f { family = to_word v }
put model_key v f = record f { model = to_word v }
put brn_resync_key v f = record f { brn_resync = to_flag v }
put misp_return_key v f = record f { misp_return = to_flag v }
put brn_trgt_key v f = record f { brn_trgt = to_flag v }
put op_cnt_ext_key v f = record f { op_cnt_ext = to_flag v }
put rip_invalid_chk_key v f = record f { rip_invalid_chk = to_flag v }
put op_brn_fuse_key v f = record f { op_brn_fuse = to_flag v }
put ibs_op_data_4_key v f = record f { ibs_op_data_4 = to_flag v }
put microcode_key v f = record f { microcode = to_flag v }
put ibs_op_data2_4_5_key v f = record f { ibs_op_data2_4_5 = to_flag v }
put dc_ld_bnk_con_key v f = record f { dc_ld_bnk_con = to_flag v }
put dc_st_bnk_con_key v f = record f { dc_st_bnk_con = to_flag v }
put dc_st_to_ld_fwd_key v f = record f { dc_st_to_ld_fwd = to_flag v }
put dc_st_to_ld_can_key v f = record f { dc_st_to_ld_can = to_flag v }
put ibs_data3_20_31_48_63_key v f = record f { ibs_data3_20_31_48_63 = to_flag v }
put fetch_ctl_ext_key v f = record f { fetch_ctl_ext = to_flag v }

abbrev put_token : Key → Option (Bytes × Bytes) → Features → Features
put_token k none f = f
put_token k (some t) f = put k (strtoul t.0) f

abbrev put_second : Key → Option (Bytes × Bytes) → Features → Features
put_second k none f = f
put_second k (some t) f = put_token k (strtok t.1) f

-- The calls of `header_parse` for one line, up to the first key that the line starts with.
unfoldable pub parse_line : List Key → Bytes → Features → Features
unfolding put
parse_line [] line f = f
parse_line (k ∷ keys) line f =
    let rest = parse_line keys line f in
    if starts_with (key_text k) line then put_second k (strtok line) f else rest

abbrev pub end_of_header : Bytes
end_of_header = codes "============================================="

-- The loop over the lines.
unfoldable pub parse_lines : List Key → List Bytes → Features → Features
unfolding parse_line
parse_lines keys [] f = f
parse_lines keys (line ∷ lines) f =
    let rest = parse_lines keys lines (parse_line keys line f) in
    if starts_with end_of_header line then f else rest

abbrev pub op_flag_keys : List Key
op_flag_keys =
    brn_resync_key ∷ misp_return_key ∷ brn_trgt_key ∷ op_cnt_ext_key ∷ rip_invalid_chk_key
    ∷ op_brn_fuse_key ∷ ibs_op_data_4_key ∷ microcode_key ∷ ibs_op_data2_4_5_key ∷ dc_ld_bnk_con_key
    ∷ dc_st_bnk_con_key ∷ dc_st_to_ld_fwd_key ∷ dc_st_to_ld_can_key ∷ ibs_data3_20_31_48_63_key ∷ []

abbrev pub op_keys : List Key
op_keys = family_key ∷ model_key ∷ op_flag_keys

abbrev pub fetch_keys : List Key
fetch_keys = family_key ∷ model_key ∷ fetch_ctl_ext_key ∷ []

-- The two tests after the loop.
abbrev pub find_errata : Features → Features
find_errata f = record f {
  fam15h_model01h_err717 = f.fam15h_model01h_err717 || (f.family == 0x15 && leb f.model 1);
  fam14h_err484 = f.fam14h_err484 || f.family == 0x14;
}

unfoldable pub parse_op_in_header : List Bytes → Features → Features
unfolding parse_lines
parse_op_in_header lines f = find_errata (parse_lines op_keys lines f)

unfoldable pub parse_fetch_in_header : List Bytes → Features → Features
unfolding parse_lines
parse_fetch_in_header lines f = parse_lines fetch_keys lines f

-- No feature, as before a header is read.
abbrev pub no_features : Features
no_features = record {
  family = 0;
  model = 0;
  brn_resync = false;
  misp_return = false;
  brn_trgt = false;
  op_cnt_ext = false;
  rip_invalid_chk = false;
  op_brn_fuse = false;
  ibs_op_data_4 = false;
  microcode = false;
  ibs_op_data2_4_5 = false;
  dc_ld_bnk_con = false;
  dc_st_bnk_con = false;
  dc_st_to_ld_fwd = false;
  dc_st_to_ld_can = false;
  ibs_data3_20_31_48_63 = false;
  fetch_ctl_ext = false;
  fam14h_err484 = false;
  fam15h_model01h_err717 = false;
}
