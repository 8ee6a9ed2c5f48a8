-- ===== src/Decoder/Fields/OpData2.antt =====
-- `ibs_op_data2_t` of include/ibs-uapi.h.
use amd_ibs_toolkit.Base.{ℕ}
use amd_ibs_toolkit.Decoder.Fields.{field}

abbrev pub ibs_nb_req_src : ℕ → ℕ
ibs_nb_req_src v = field 0 3 v

abbrev pub ibs_nb_req_dst_node : ℕ → ℕ
ibs_nb_req_dst_node v = field 4 1 v

abbrev pub ibs_nb_req_cache_hit_st : ℕ → ℕ
ibs_nb_req_cache_hit_st v = field 5 1 v
