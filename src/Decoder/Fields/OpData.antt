-- ===== src/Decoder/Fields/OpData.antt =====
-- `ibs_op_data1_t` of include/ibs-uapi.h.
use amd_ibs_toolkit.Base.{ℕ}
use amd_ibs_toolkit.Decoder.Fields.{field}

abbrev pub ibs_comp_to_ret_ctr : ℕ → ℕ
ibs_comp_to_ret_ctr v = field 0 16 v

abbrev pub ibs_tag_to_ret_ctr : ℕ → ℕ
ibs_tag_to_ret_ctr v = field 16 16 v

abbrev pub ibs_op_brn_resync : ℕ → ℕ
ibs_op_brn_resync v = field 32 1 v

abbrev pub ibs_op_misp_return : ℕ → ℕ
ibs_op_misp_return v = field 33 1 v

abbrev pub ibs_op_brn_taken : ℕ → ℕ
ibs_op_brn_taken v = field 35 1 v

abbrev pub ibs_op_brn_misp : ℕ → ℕ
ibs_op_brn_misp v = field 36 1 v

abbrev pub ibs_op_brn_ret : ℕ → ℕ
ibs_op_brn_ret v = field 37 1 v

abbrev pub ibs_rip_invalid : ℕ → ℕ
ibs_rip_invalid v = field 38 1 v

abbrev pub ibs_op_brn_fuse : ℕ → ℕ
ibs_op_brn_fuse v = field 39 1 v

abbrev pub ibs_op_microcode : ℕ → ℕ
ibs_op_microcode v = field 40 1 v
