-- ===== src/Decoder/Fields/OpCtl.antt =====
-- `ibs_op_ctl_t` of include/ibs-uapi.h.
use amd_ibs_toolkit.Base.{ℕ}
use amd_ibs_toolkit.Decoder.Fields.{field}

abbrev pub ibs_op_max_cnt : ℕ → ℕ
ibs_op_max_cnt v = field 0 16 v

abbrev pub ibs_op_max_cnt_upper : ℕ → ℕ
ibs_op_max_cnt_upper v = field 20 7 v
