-- ===== src/Driver/Registers.antt =====
-- Register numbers and masks of include/ibs-msr-index.h, the flavors and minor numbers of
-- driver/ibs-utils.h.
use amd_ibs_toolkit.Base.{ℕ, ◌+◌, ◌*◌, ◌/◌, ◌%◌, ◌^◌}
use amd_ibs_toolkit.Base.{◌==◌, if◌then◌else◌}

abbrev pub msr_ibs_fetch_ctl : ℕ
msr_ibs_fetch_ctl = 0xc0011030

abbrev pub ibs_rand_en : ℕ
ibs_rand_en = 2 ^ 57

abbrev pub ibs_fetch_val : ℕ
ibs_fetch_val = 2 ^ 49

abbrev pub ibs_fetch_en : ℕ
ibs_fetch_en = 2 ^ 48

abbrev pub ibs_fetch_cnt : ℕ
ibs_fetch_cnt = 0xffff * 2 ^ 16

abbrev pub ibs_fetch_max_cnt : ℕ
ibs_fetch_max_cnt = 0xffff

abbrev pub msr_ibs_fetch_lin_ad : ℕ
msr_ibs_fetch_lin_ad = 0xc0011031

abbrev pub msr_ibs_fetch_phys_ad : ℕ
msr_ibs_fetch_phys_ad = 0xc0011032

abbrev pub msr_ibs_op_ctl : ℕ
msr_ibs_op_ctl = 0xc0011033

abbrev pub ibs_op_cur_cnt_old : ℕ
ibs_op_cur_cnt_old = 0xfffff * 2 ^ 32

-- Excludes the bits that software randomizes.
abbrev pub ibs_op_cur_cnt_23 : ℕ
ibs_op_cur_cnt_23 = 0x7fffff0 * 2 ^ 32

abbrev pub ibs_op_max_cnt : ℕ
ibs_op_max_cnt = 0x7f0ffff

abbrev pub ibs_op_max_cnt_old : ℕ
ibs_op_max_cnt_old = 0xffff

abbrev pub ibs_op_cnt_ctl : ℕ
ibs_op_cnt_ctl = 2 ^ 19

abbrev pub ibs_op_val : ℕ
ibs_op_val = 2 ^ 18

abbrev pub ibs_op_en : ℕ
ibs_op_en = 2 ^ 17

abbrev pub msr_ibs_op_rip : ℕ
msr_ibs_op_rip = 0xc0011034

abbrev pub msr_ibs_op_data : ℕ
msr_ibs_op_data = 0xc0011035

abbrev pub msr_ibs_op_data2 : ℕ
msr_ibs_op_data2 = 0xc0011036

abbrev pub msr_ibs_op_data3 : ℕ
msr_ibs_op_data3 = 0xc0011037

abbrev pub msr_ibs_dc_lin_ad : ℕ
msr_ibs_dc_lin_ad = 0xc0011038

abbrev pub msr_ibs_dc_phys_ad : ℕ
msr_ibs_dc_phys_ad = 0xc0011039

abbrev pub msr_ibs_control : ℕ
msr_ibs_control = 0xc001103a

abbrev pub ibs_lvt_offset_val : ℕ
ibs_lvt_offset_val = 2 ^ 8

abbrev pub ibs_lvt_offset : ℕ
ibs_lvt_offset = 0xf

abbrev pub msr_ibs_br_target : ℕ
msr_ibs_br_target = 0xc001103b

abbrev pub msr_ibs_extd_ctl : ℕ
msr_ibs_extd_ctl = 0xc001103c

abbrev pub msr_ibs_op_data4 : ℕ
msr_ibs_op_data4 = 0xc001103d

pub data Flavor : Type 0 where
  ibs_op ibs_fetch : Flavor

abbrev pub flavor_bit : Flavor → ℕ
flavor_bit ibs_op = 0
flavor_bit ibs_fetch = 1

-- `IBS_MINOR`: `(cpu << 1) | flavor`, a sum since the flavor is one bit.
abbrev pub ibs_minor : Flavor → ℕ → ℕ
ibs_minor flavor cpu = cpu * 2 + flavor_bit flavor

abbrev pub ibs_cpu : ℕ → ℕ
ibs_cpu minor = minor / 2

abbrev pub ibs_flavor : ℕ → Flavor
ibs_flavor minor = if minor % 2 == 0 then ibs_op else ibs_fetch
