-- ===== src/Decoder/Fields/FetchCtl.antt =====
-- `ibs_fetch_ctl_t` of include/ibs-uapi.h.
use amd_ibs_toolkit.Base.{ℕ}
use amd_ibs_toolkit.Decoder.Fields.{field}

abbrev pub ibs_fetch_max_cnt : ℕ → ℕ
ibs_fetch_max_cnt v = field 0 16 v

abbrev pub ibs_fetch_lat : ℕ → ℕ
ibs_fetch_lat v = field 32 16 v

abbrev pub ibs_fetch_comp : ℕ → ℕ
ibs_fetch_comp v = field 50 1 v

abbrev pub ibs_ic_miss : ℕ → ℕ
ibs_ic_miss v = field 51 1 v

abbrev pub ibs_phy_addr_valid : ℕ → ℕ
ibs_phy_addr_valid v = field 52 1 v

abbrev pub ibs_l1_tlb_pg_sz : ℕ → ℕ
ibs_l1_tlb_pg_sz v = field 53 2 v

abbrev pub ibs_l1_tlb_miss : ℕ → ℕ
ibs_l1_tlb_miss v = field 55 1 v

abbrev pub ibs_l2_tlb_miss : ℕ → ℕ
ibs_l2_tlb_miss v = field 56 1 v

abbrev pub ibs_fetch_l2_miss : ℕ → ℕ
ibs_fetch_l2_miss v = field 58 1 v
