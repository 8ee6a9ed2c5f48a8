-- ===== src/Decoder/Fields/OpData3.antt =====
-- `ibs_op_data3_t`; the fields of one bit from 0 to 21 are read by number.
use amd_ibs_toolkit.Base.{ℕ}
use amd_ibs_toolkit.Decoder.Fields.{field}

abbrev pub ibs_ld_op : ℕ → ℕ
ibs_ld_op v = field 0 1 v

abbrev pub ibs_dc_miss : ℕ → ℕ
ibs_dc_miss v = field 7 1 v

abbrev pub ibs_dc_wc_mem_acc : ℕ → ℕ
ibs_dc_wc_mem_acc v = field 13 1 v

abbrev pub ibs_dc_no_mab_alloc : ℕ → ℕ
ibs_dc_no_mab_alloc v = field 16 1 v

abbrev pub ibs_lin_addr_valid : ℕ → ℕ
ibs_lin_addr_valid v = field 17 1 v

abbrev pub ibs_phy_addr_valid : ℕ → ℕ
ibs_phy_addr_valid v = field 18 1 v

abbrev pub ibs_l2_miss : ℕ → ℕ
ibs_l2_miss v = field 20 1 v

abbrev pub ibs_op_mem_width : ℕ → ℕ
ibs_op_mem_width v = field 22 4 v

abbrev pub ibs_op_dc_miss_open_mem_reqs : ℕ → ℕ
ibs_op_dc_miss_open_mem_reqs v = field 26 6 v

abbrev pub ibs_dc_miss_lat : ℕ → ℕ
ibs_dc_miss_lat v = field 32 16 v

abbrev pub ibs_tlb_refill_lat : ℕ → ℕ
ibs_tlb_refill_lat v = field 48 16 v
