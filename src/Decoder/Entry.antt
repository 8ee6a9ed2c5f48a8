-- ===== src/Decoder/Entry.antt =====
-- `output_op_entry` and `output_fetch_entry`: the cells of a line.
use amd_ibs_toolkit.Base.{
  ℕ, ◌+◌, ◌*◌, ◌%◌, ◌^◌, List, [], ◌∷◌, ◌++◌, Bool, not, ◌&&◌, ◌||◌, ◌==◌, ltb, leb,
}
use amd_ibs_toolkit.Base.{if◌then◌else◌}
use amd_ibs_toolkit.Driver.Device.{IbsOp, IbsFetch}
use amd_ibs_toolkit.Decoder.Fields.{field, holds}
use amd_ibs_toolkit.Decoder.Fields.OpCtl
use amd_ibs_toolkit.Decoder.Fields.OpData
use amd_ibs_toolkit.Decoder.Fields.OpData2
use amd_ibs_toolkit.Decoder.Fields.OpData3
use amd_ibs_toolkit.Decoder.Fields.FetchCtl
use amd_ibs_toolkit.Decoder.Header.{Features, only, has_fetch_l2_miss}

-- What one `%...,` prints.
pub data Cell : Type 0 where
  number hex reserved : ℕ → Cell
  dash local_l3 other_core_cache dram other : Cell
  other_node same_node owned modified : Cell
  kb_4 mb_2 gb_1 kb_16 : Cell

-- The cells of `IbsOpMaxCnt`: a sum in 32 bits.
unfoldable pub op_max_cnt : Features → ℕ → ℕ
op_max_cnt f ctl =
    let upper = if f.op_cnt_ext then OpCtl.ibs_op_max_cnt_upper ctl * 2 ^ 20 else 0 in
    (upper + OpCtl.ibs_op_max_cnt ctl * 2 ^ 4) % 2 ^ 32

abbrev pub op_data_cells : Features → ℕ → List Cell
op_data_cells f v =
    (number (OpData.ibs_comp_to_ret_ctr v) ∷ number (OpData.ibs_tag_to_ret_ctr v) ∷ [])
    ++ only f.brn_resync (number (OpData.ibs_op_brn_resync v) ∷ [])
    ++ only f.misp_return (number (OpData.ibs_op_misp_return v) ∷ [])
    ++ (number (OpData.ibs_op_brn_ret v)
        ∷ number (OpData.ibs_op_brn_taken v)
        ∷ number (OpData.ibs_op_brn_misp v)
        ∷ number (OpData.ibs_op_brn_ret v)
        ∷ [])
    ++ only f.rip_invalid_chk (number (OpData.ibs_rip_invalid v) ∷ [])
    ++ only f.op_brn_fuse (number (OpData.ibs_op_brn_fuse v) ∷ [])
    ++ only f.microcode (number (OpData.ibs_op_microcode v) ∷ [])

-- The `switch` on `ibs_nb_req_src`.
unfoldable pub nb_req_src_cell : Features → ℕ → Cell
nb_req_src_cell f src =
    let local = f.family == 0x10 || (f.family == 0x15 && ltb f.model 0x10) in
    if src == 0
    then dash
    else if src == 1
    then (if local then local_l3 else reserved src)
    else if src == 2
    then other_core_cache
    else if src == 3
    then dram
    else if src == 7
    then other
    else reserved src

-- The load misses for which `IbsOpData2` is valid.
unfoldable pub data2_valid : Features → ℕ → Bool
data2_valid f v =
    (f.ibs_data3_20_31_48_63
      && holds (OpData3.ibs_ld_op v)
      && holds (OpData3.ibs_l2_miss v)
      && holds (OpData3.ibs_dc_miss v))
    || (not f.ibs_data3_20_31_48_63 && holds (OpData3.ibs_ld_op v) && holds (OpData3.ibs_dc_miss v))

abbrev three_dashes : List Cell
three_dashes = dash ∷ dash ∷ dash ∷ []

unfoldable pub op_data2_cells : Features → ℕ → ℕ → List Cell
unfolding nb_req_src_cell data2_valid
op_data2_cells f data2 data3 =
    let src = OpData2.ibs_nb_req_src data2 in
    let node =
      if src == 0
      then dash
      else if OpData2.ibs_nb_req_dst_node data2 == 1
      then other_node
      else same_node in
    let state =
      if not (src == 2)
      then dash
      else if OpData2.ibs_nb_req_cache_hit_st data2 == 1
      then owned
      else modified in
    if data2_valid f data3
    then (if f.fam14h_err484 && holds (OpData3.ibs_dc_wc_mem_acc data3)
        then three_dashes
        else (nb_req_src_cell f src ∷ []) ++ only f.ibs_op_data2_4_5 (node ∷ state ∷ []))
    else three_dashes

-- The `switch` on `ibs_op_mem_width`.
unfoldable pub mem_width_cell : ℕ → Cell
mem_width_cell width =
    if leb width 2
    then number width
    else if width == 3
    then number 4
    else if width == 4
    then number 8
    else if width == 5
    then number 16
    else reserved width

-- A field of one bit of `IbsOpData3`.
abbrev flag : ℕ → ℕ → Cell
flag v i = number (field i 1 v)

-- The condition with `-=` of the source assigns `ibs_dc_miss` to itself and tests it.
unfoldable pub op_data3_cells : Features → ℕ → List Cell
unfolding mem_width_cell
op_data3_cells f v =
    (flag v 0
      ∷ flag v 1
      ∷ flag v 2
      ∷ flag v 3
      ∷ flag v 4
      ∷ flag v 5
      ∷ flag v 6
      ∷ flag v 7
      ∷ flag v 8
      ∷ [])
    ++ only f.dc_ld_bnk_con (flag v 9 ∷ [])
    ++ only f.dc_st_bnk_con (flag v 10 ∷ [])
    ++ only f.dc_st_to_ld_fwd (flag v 11 ∷ [])
    ++ only f.dc_st_to_ld_can (flag v 12 ∷ [])
    ++ (flag v 13 ∷ flag v 14 ∷ flag v 15 ∷ [])
    ++ (if f.fam15h_model01h_err717 && holds (OpData3.ibs_dc_miss v)
        then number 0 ∷ []
        else number (OpData3.ibs_dc_no_mab_alloc v) ∷ [])
    ++ (flag v 17 ∷ flag v 18 ∷ flag v 19 ∷ [])
    ++ only f.ibs_data3_20_31_48_63 (
        flag v 20
        ∷ flag v 21
        ∷ mem_width_cell (OpData3.ibs_op_mem_width v)
        ∷ number (OpData3.ibs_op_dc_miss_open_mem_reqs v)
        ∷ [])
    ++ (number (OpData3.ibs_dc_miss_lat v) ∷ [])
    ++ only f.ibs_data3_20_31_48_63 (number (OpData3.ibs_tlb_refill_lat v) ∷ [])

abbrev pub op_tail_cells : Features → IbsOp → List Cell
op_tail_cells f op =
    ((if holds (OpData3.ibs_lin_addr_valid op.op_data3) then hex op.dc_lin_ad else dash)
      ∷ (if holds (OpData3.ibs_phy_addr_valid op.op_data3)
          then hex (op.dc_phys_ad % 2 ^ 48)
          else dash)
      ∷ [])
    ++ only f.brn_trgt
        ((if holds (OpData.ibs_op_brn_ret op.op_data) then hex op.br_target else dash) ∷ [])
    ++ only f.ibs_op_data_4 (number (op.op_data4 % 2) ∷ [])

unfoldable pub output_op_entry : Features → IbsOp → List Cell
unfolding op_max_cnt op_data2_cells op_data3_cells
output_op_entry f op =
    (number op.tsc ∷ number op.cpu ∷ number op.tid ∷ number op.pid ∷ number op.kern_mode ∷ [])
    ++ (hex op.op_rip ∷ [])
    ++ (number (op_max_cnt f op.op_ctl) ∷ [])
    ++ op_data_cells f op.op_data
    ++ op_data2_cells f op.op_data2 op.op_data3
    ++ op_data3_cells f op.op_data3
    ++ op_tail_cells f op

-- The `switch` on `ibs_l1_tlb_pg_sz`.
unfoldable pub page_size_cell : Features → ℕ → Cell
page_size_cell f size =
    if size == 0
    then kb_4
    else if size == 1
    then mb_2
    else if size == 2
    then gb_1
    else if size == 3 && f.family == 0x17
    then kb_16
    else reserved size

unfoldable pub output_fetch_entry : Features → IbsFetch → List Cell
unfolding page_size_cell
output_fetch_entry f fetch =
    let ctl = fetch.fetch_ctl in
    let valid = holds (FetchCtl.ibs_phy_addr_valid ctl) in
    (number fetch.tsc
      ∷ number fetch.cpu
      ∷ number fetch.tid
      ∷ number fetch.pid
      ∷ number fetch.kern_mode
      ∷ [])
    ++ (number (FetchCtl.ibs_phy_addr_valid ctl)
        ∷ hex fetch.fetch_lin_ad
        ∷ (if valid then hex (fetch.fetch_phys_ad % 2 ^ 48) else dash)
        ∷ [])
    ++ (number (FetchCtl.ibs_fetch_max_cnt ctl * 2 ^ 4)
        ∷ number (FetchCtl.ibs_fetch_lat ctl)
        ∷ number (FetchCtl.ibs_fetch_comp ctl)
        ∷ number (FetchCtl.ibs_ic_miss ctl)
        ∷ (if valid then page_size_cell f (FetchCtl.ibs_l1_tlb_pg_sz ctl) else dash)
        ∷ number (FetchCtl.ibs_l1_tlb_miss ctl)
        ∷ number (FetchCtl.ibs_l2_tlb_miss ctl)
        ∷ [])
    ++ only (has_fetch_l2_miss f) (number (FetchCtl.ibs_fetch_l2_miss ctl) ∷ [])
    ++ only f.fetch_ctl_ext (
        (if holds (FetchCtl.ibs_fetch_comp ctl)
          then number (fetch.fetch_ctl_extd % 2 ^ 16)
          else dash)
        ∷ [])
