-- ===== src/Decoder/Header.antt =====
-- `output_op_header` and `output_fetch_header`: the columns of the two tables.
use amd_ibs_toolkit.Base.{
  ℕ, List, [], ◌∷◌, ◌++◌, Bool, true, false, ◌&&◌, ◌||◌, ◌==◌, ltb, leb, if◌then◌else◌,
}

-- What the header of a trace says of the processor, and the errata that follow from it.
pub record Features : Type 0 where
  pub family : ℕ
  pub model : ℕ
  pub brn_resync : Bool
  pub misp_return : Bool
  pub brn_trgt : Bool
  pub op_cnt_ext : Bool
  pub rip_invalid_chk : Bool
  pub op_brn_fuse : Bool
  pub ibs_op_data_4 : Bool
  pub microcode : Bool
  pub ibs_op_data2_4_5 : Bool
  pub dc_ld_bnk_con : Bool
  pub dc_st_bnk_con : Bool
  pub dc_st_to_ld_fwd : Bool
  pub dc_st_to_ld_can : Bool
  pub ibs_data3_20_31_48_63 : Bool
  pub fetch_ctl_ext : Bool
  pub fam14h_err484 : Bool
  pub fam15h_model01h_err717 : Bool

pub data Column : Type 0 where
  tsc cpu_number tid pid kern_mode : Column
  op_rip op_max_cnt_27 op_max_cnt_20 comp_to_ret tag_to_ret brn_resync misp_return : Column
  op_return brn_taken brn_misp brn_ret rip_invalid brn_fuse microcode : Column
  nb_req_src data_src nb_req_dst_node nb_req_cache_hit_st rmt_node cache_hit_st : Column
  ld_op st_op dc_l1_tlb_miss dc_l2_tlb_miss dc_l1_tlb_hit_2m dc_l1_tlb_hit_1g : Column
  dc_l2_tlb_hit_2m dc_miss dc_miss_acc dc_ld_bnk_con dc_st_bnk_con dc_st_to_ld_fwd : Column
  dc_st_to_ld_can dc_wc_mem_acc dc_uc_mem_acc dc_locked_op dc_mab_hit dc_miss_no_mab_alloc : Column
  dc_lin_addr_valid dc_phy_addr_valid dc_l2_tlb_hit_1g l2_miss sw_pf op_mem_width : Column
  open_mem_reqs dc_miss_lat tlb_refill_lat dc_lin_ad dc_phys_ad brn_target ld_resync : Column
  phy_addr_valid fetch_lin_ad fetch_phys_ad fetch_max_cnt fetch_lat fetch_comp ic_miss : Column
  l1_tlb_pg_sz l1_tlb_miss l2_tlb_miss fetch_l2_miss itlb_refill_lat : Column

-- What an `if` without `else` prints.
abbrev pub only {ℓ} : {A : Type ℓ} → Bool → List A → List A
only true xs = xs
only false xs = []

unfoldable pub output_common_header : List Column
output_common_header =
    Column.tsc ∷ Column.cpu_number ∷ Column.tid ∷ Column.pid ∷ Column.kern_mode ∷ []

-- The columns up to `IbsOpData`.
abbrev pub op_data_header : Features → List Column
op_data_header f =
    (Column.comp_to_ret ∷ Column.tag_to_ret ∷ [])
    ++ only f.brn_resync (Column.brn_resync ∷ [])
    ++ only f.misp_return (Column.misp_return ∷ [])
    ++ (Column.op_return ∷ Column.brn_taken ∷ Column.brn_misp ∷ Column.brn_ret ∷ [])
    ++ only f.rip_invalid_chk (Column.rip_invalid ∷ [])
    ++ only f.op_brn_fuse (Column.brn_fuse ∷ [])
    ++ only f.microcode (Column.microcode ∷ [])

abbrev pub op_data2_header : Features → List Column
op_data2_header f =
    (if ltb f.family 0x17 then Column.nb_req_src ∷ [] else Column.data_src ∷ [])
    ++ only f.ibs_op_data2_4_5 (
        if ltb f.family 0x17
        then Column.nb_req_dst_node ∷ Column.nb_req_cache_hit_st ∷ []
        else Column.rmt_node ∷ Column.cache_hit_st ∷ [])

abbrev pub op_data3_header : Features → List Column
op_data3_header f =
    (Column.ld_op ∷ Column.st_op ∷ Column.dc_l1_tlb_miss ∷ Column.dc_l2_tlb_miss
      ∷ Column.dc_l1_tlb_hit_2m ∷ Column.dc_l1_tlb_hit_1g ∷ Column.dc_l2_tlb_hit_2m ∷ Column.dc_miss
      ∷ Column.dc_miss_acc ∷ [])
    ++ only f.dc_ld_bnk_con (Column.dc_ld_bnk_con ∷ [])
    ++ only f.dc_st_bnk_con (Column.dc_st_bnk_con ∷ [])
    ++ only f.dc_st_to_ld_fwd (Column.dc_st_to_ld_fwd ∷ [])
    ++ only f.dc_st_to_ld_can (Column.dc_st_to_ld_can ∷ [])
    ++ (Column.dc_wc_mem_acc ∷ Column.dc_uc_mem_acc ∷ Column.dc_locked_op ∷ [])
    ++ (if leb f.family 0x12 || (f.family == 0x15 && ltb f.model 0x20)
        then Column.dc_mab_hit ∷ []
        else Column.dc_miss_no_mab_alloc ∷ [])
    ++ (Column.dc_lin_addr_valid ∷ Column.dc_phy_addr_valid ∷ Column.dc_l2_tlb_hit_1g ∷ [])
    ++ only f.ibs_data3_20_31_48_63
        (Column.l2_miss ∷ Column.sw_pf ∷ Column.op_mem_width ∷ Column.open_mem_reqs ∷ [])
    ++ (Column.dc_miss_lat ∷ [])
    ++ only f.ibs_data3_20_31_48_63 (Column.tlb_refill_lat ∷ [])

abbrev pub op_tail_header : Features → List Column
op_tail_header f =
    (Column.dc_lin_ad ∷ Column.dc_phys_ad ∷ [])
    ++ only f.brn_trgt (Column.brn_target ∷ [])
    ++ only f.ibs_op_data_4 (Column.ld_resync ∷ [])

unfoldable pub output_op_header : Features → List Column
unfolding output_common_header
output_op_header f =
    output_common_header
    ++ (Column.op_rip ∷ [])
    ++ (if f.op_cnt_ext then Column.op_max_cnt_27 ∷ [] else Column.op_max_cnt_20 ∷ [])
    ++ op_data_header f
    ++ op_data2_header f
    ++ op_data3_header f
    ++ op_tail_header f

-- The families with `IbsFetchL2Miss`.
abbrev pub has_fetch_l2_miss : Features → Bool
has_fetch_l2_miss f = (f.family == 0x15 && leb 0x60 f.model) || (f.family == 0x17)

unfoldable pub output_fetch_header : Features → List Column
unfolding output_common_header
output_fetch_header f =
    output_common_header
    ++ (Column.phy_addr_valid ∷ Column.fetch_lin_ad ∷ Column.fetch_phys_ad ∷ [])
    ++ (Column.fetch_max_cnt ∷ Column.fetch_lat ∷ Column.fetch_comp ∷ Column.ic_miss
        ∷ Column.l1_tlb_pg_sz ∷ Column.l1_tlb_miss ∷ Column.l2_tlb_miss ∷ [])
    ++ only (has_fetch_l2_miss f) (Column.fetch_l2_miss ∷ [])
    ++ only f.fetch_ctl_ext (Column.itlb_refill_lat ∷ [])
