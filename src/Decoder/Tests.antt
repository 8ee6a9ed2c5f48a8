-- ===== src/Decoder/Tests.antt =====
-- The theorems on the decoder at concrete samples.
use amd_ibs_toolkit.Base.{◌+◌, ◌≡◌, refl, true, false, length}
use amd_ibs_toolkit.Driver.Device.{IbsOp, IbsFetch}
use amd_ibs_toolkit.Decoder.Header.{Features, output_op_header, output_fetch_header}
use amd_ibs_toolkit.Decoder.Entry.{data2_valid, output_op_entry, output_fetch_entry}
use amd_ibs_toolkit.Decoder.Aligned.{output_fetch_entry-aligned}
use amd_ibs_toolkit.Decoder.Aligned.{output_op_entry-shifted}

abbrev family_17h : Features
family_17h = record {
  family = 0x17;
  model = 1;
  brn_resync = false;
  misp_return = false;
  brn_trgt = true;
  op_cnt_ext = true;
  rip_invalid_chk = true;
  op_brn_fuse = true;
  ibs_op_data_4 = true;
  microcode = true;
  ibs_op_data2_4_5 = true;
  dc_ld_bnk_con = false;
  dc_st_bnk_con = false;
  dc_st_to_ld_fwd = true;
  dc_st_to_ld_can = false;
  ibs_data3_20_31_48_63 = true;
  fetch_ctl_ext = true;
  fam14h_err484 = false;
  fam15h_model01h_err717 = false;
}

abbrev family_16h : Features
family_16h = record family_17h { family = 0x16; ibs_op_data2_4_5 = false }

abbrev op : IbsOp
op = record {
  op_ctl = 0x400;
  op_rip = 0x401000;
  op_data = 0x2000000000;
  op_data2 = 3;
  op_data3 = 0x60082;
  op_data4 = 0;
  dc_lin_ad = 0x7000;
  dc_phys_ad = 0x8000;
  br_target = 0x401010;
  tsc = 9;
  cr3 = 0;
  tid = 1;
  pid = 1;
  cpu = 0;
  kern_mode = 0;
}

abbrev fetch : IbsFetch
fetch = record {
  fetch_ctl = 0x74000000001000;
  fetch_ctl_extd = 5;
  fetch_lin_ad = 0x401000;
  fetch_phys_ad = 0x1000;
  tsc = 9;
  cr3 = 0;
  tid = 1;
  pid = 1;
  cpu = 0;
  kern_mode = 0;
}

output_op_entry-shifted_example :
    length (output_op_entry family_16h op) ≡ length (output_op_header family_16h) + 2
unfolding data2_valid
output_op_entry-shifted_example = output_op_entry-shifted family_16h op refl refl

output_fetch_entry-aligned_example :
    length (output_fetch_entry family_17h fetch) ≡ length (output_fetch_header family_17h)
output_fetch_entry-aligned_example = output_fetch_entry-aligned family_17h fetch
