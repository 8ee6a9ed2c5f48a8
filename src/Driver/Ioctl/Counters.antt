-- ===== src/Driver/Ioctl/Counters.antt =====
-- The counter commands of `ibs_ioctl`: `SET_MAX_CNT`, `SET_CUR_CNT` and their readers.
use amd_ibs_toolkit.Base.{ℕ, ◌%◌, ◌^◌, ◌<◌, ◌≡◌, refl, arith, ap, Bool, true, false, bit_and}
use amd_ibs_toolkit.Driver.Scatter.{gather_bits}
use amd_ibs_toolkit.Driver.Scatter.Field.{
  set_field, ones, gather_bits-set_field, gather_bits-set_field_other,
}
use amd_ibs_toolkit.Driver.Registers.{Flavor, ibs_op, ibs_fetch}
use amd_ibs_toolkit.Driver.Device.{Kernel, Sys, ok}
use amd_ibs_toolkit.Driver.Workarounds.{Saved}
use amd_ibs_toolkit.Driver.Control.{is_enabled}
use amd_ibs_toolkit.Driver.Ioctl.{set_cur_cnt, get_cur_cnt, set_max_cnt, get_max_cnt}
use amd_ibs_toolkit.Driver.Ioctl.{cur_cnt_mask, max_cnt_mask, ibs_ioctl}

-- How many bits the counters have.
abbrev pub cur_cnt_width : Flavor → Bool → ℕ
cur_cnt_width ibs_op true = 23
cur_cnt_width ibs_op false = 20
cur_cnt_width ibs_fetch _ = 16

abbrev pub max_cnt_width : Flavor → Bool → ℕ
max_cnt_width ibs_op true = 23
max_cnt_width ibs_op false = 16
max_cnt_width ibs_fetch _ = 16

ones-cur_cnt : (f : Flavor) (ext : Bool) → ones 64 (cur_cnt_mask f ext) ≡ cur_cnt_width f ext
ones-cur_cnt ibs_op true = refl
ones-cur_cnt ibs_op false = refl
ones-cur_cnt ibs_fetch true = refl
ones-cur_cnt ibs_fetch _ = refl

ones-max_cnt : (f : Flavor) (ext : Bool) → ones 64 (max_cnt_mask f ext) ≡ max_cnt_width f ext
ones-max_cnt ibs_op true = refl
ones-max_cnt ibs_op false = refl
ones-max_cnt ibs_fetch true = refl
ones-max_cnt ibs_fetch _ = refl

-- The masks are 64-bit words, disjoint from one another and from the enable bit.
record Apart (f : Flavor) (ext : Bool) : Type 0 where
  cur_word : cur_cnt_mask f ext < 2 ^ 64
  max_word : max_cnt_mask f ext < 2 ^ 64
  cur_max : bit_and (cur_cnt_mask f ext) (max_cnt_mask f ext) ≡ 0
  max_cur : bit_and (max_cnt_mask f ext) (cur_cnt_mask f ext) ≡ 0

masks-Apart : (f : Flavor) (ext : Bool) → Apart f ext
masks-Apart ibs_op true = record {
  cur_word = omega arith;
  max_word = omega arith;
  cur_max = refl;
  max_cur = refl;
}
masks-Apart ibs_op false = record {
  cur_word = omega arith;
  max_word = omega arith;
  cur_max = refl;
  max_cur = refl;
}
masks-Apart ibs_fetch true = record {
  cur_word = omega arith;
  max_word = omega arith;
  cur_max = refl;
  max_cur = refl;
}
masks-Apart ibs_fetch _ = record {
  cur_word = omega arith;
  max_word = omega arith;
  cur_max = refl;
  max_cur = refl;
}

module _ (k : Kernel) (old : Saved) (this_cpu : ℕ) where
  -- What a setter stores, when IBS is off.
  max_cnt-stored :
      (arg : ℕ) (s : Sys)
      → is_enabled s.dev ≡ false
      → (ibs_ioctl k old this_cpu set_max_cnt arg s).1.dev ≡ record s.dev {
        ctl = set_field s.dev.ctl (max_cnt_mask s.dev.flavor s.dev.ibs_op_cnt_ext_supported) arg;
      }
  unfolding ibs_ioctl
  max_cnt-stored arg s off = rw off

  cur_cnt-stored :
      (arg : ℕ) (s : Sys)
      → is_enabled s.dev ≡ false
      → (ibs_ioctl k old this_cpu set_cur_cnt arg s).1.dev ≡ record s.dev {
        ctl = set_field s.dev.ctl (cur_cnt_mask s.dev.flavor s.dev.ibs_op_cnt_ext_supported) arg;
      }
  unfolding ibs_ioctl
  cur_cnt-stored arg s off = rw off

  get_max_cnt-eq :
      (arg : ℕ) (s : Sys)
      → (ibs_ioctl k old this_cpu get_max_cnt arg s).0
        ≡ ok (gather_bits s.dev.ctl (max_cnt_mask s.dev.flavor s.dev.ibs_op_cnt_ext_supported))
  unfolding ibs_ioctl
  get_max_cnt-eq arg s = refl

  get_cur_cnt-eq :
      (arg : ℕ) (s : Sys)
      → (ibs_ioctl k old this_cpu get_cur_cnt arg s).0
        ≡ ok (gather_bits s.dev.ctl (cur_cnt_mask s.dev.flavor s.dev.ibs_op_cnt_ext_supported))
  unfolding ibs_ioctl
  get_cur_cnt-eq arg s = refl

  -- With IBS off, `GET_MAX_CNT` after `SET_MAX_CNT` returns the value cut to the width of the
  -- counter, and `GET_CUR_CNT` returns what it returned before.
  pub get_max_cnt-set_max_cnt :
      (arg a : ℕ) (s : Sys)
      → is_enabled s.dev ≡ false
      → let s' = (ibs_ioctl k old this_cpu set_max_cnt arg s).1 in
        ((ibs_ioctl k old this_cpu get_max_cnt a s').0
          ≡ ok (arg % 2 ^ max_cnt_width s.dev.flavor s.dev.ibs_op_cnt_ext_supported))
        × ((ibs_ioctl k old this_cpu get_cur_cnt a s').0
            ≡ (ibs_ioctl k old this_cpu get_cur_cnt a s).0)
  get_max_cnt-set_max_cnt arg a s off =
      let f = s.dev.flavor in
      let ext = s.dev.ibs_op_cnt_ext_supported in
      let apart = masks-Apart f ext in
      let s' = (ibs_ioctl k old this_cpu set_max_cnt arg s).1 in
      (
        rw (get_max_cnt-eq a s', max_cnt-stored arg s off)
            (ap ok (
              rw (← ones-max_cnt f ext)
                (gather_bits-set_field s.dev.ctl (max_cnt_mask f ext) arg apart.max_word))),
        rw (get_cur_cnt-eq a s', get_cur_cnt-eq a s, max_cnt-stored arg s off)
            (ap ok (
              gather_bits-set_field_other s.dev.ctl (max_cnt_mask f ext) (cur_cnt_mask f ext) arg
                apart.max_word apart.max_cur)),
      )

  -- With IBS off, `GET_CUR_CNT` after `SET_CUR_CNT` returns the value cut to the width of the
  -- counter, and `GET_MAX_CNT` returns what it returned before.
  get_cur_cnt-set_cur_cnt :
      (arg a : ℕ) (s : Sys)
      → is_enabled s.dev ≡ false
      → let s' = (ibs_ioctl k old this_cpu set_cur_cnt arg s).1 in
        ((ibs_ioctl k old this_cpu get_cur_cnt a s').0
          ≡ ok (arg % 2 ^ cur_cnt_width s.dev.flavor s.dev.ibs_op_cnt_ext_supported))
        × ((ibs_ioctl k old this_cpu get_max_cnt a s').0
            ≡ (ibs_ioctl k old this_cpu get_max_cnt a s).0)
  get_cur_cnt-set_cur_cnt arg a s off =
      let f = s.dev.flavor in
      let ext = s.dev.ibs_op_cnt_ext_supported in
      let apart = masks-Apart f ext in
      let s' = (ibs_ioctl k old this_cpu set_cur_cnt arg s).1 in
      (
        rw (get_cur_cnt-eq a s', cur_cnt-stored arg s off)
            (ap ok (
              rw (← ones-cur_cnt f ext)
                (gather_bits-set_field s.dev.ctl (cur_cnt_mask f ext) arg apart.cur_word))),
        rw (get_max_cnt-eq a s', get_max_cnt-eq a s, cur_cnt-stored arg s off)
            (ap ok (
              gather_bits-set_field_other s.dev.ctl (cur_cnt_mask f ext) (max_cnt_mask f ext) arg
                apart.cur_word apart.cur_max)),
      )
