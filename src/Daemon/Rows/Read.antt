-- ===== src/Daemon/Rows/Read.antt =====
-- Reading back the rows of samples of tools/ibs_daemon/ibs_daemon.c.
use amd_ibs_toolkit.Base.{ℕ, ◌^◌, ◌≡◌, refl, arith, ap, ◌∙◌, Bool, true, ltb, ◌&&◌}
use amd_ibs_toolkit.Base.{List, [], ◌∷◌, ◌++◌, map, append_assoc}
use amd_ibs_toolkit.Text.{Bytes, codes, print_dec, print_hex64, hex_digits, strtoul}
use amd_ibs_toolkit.Text.Decimal.{
  above-dec_digits, above-hex_digits, strtoul-print_dec, strtoul-print_hex64,
}
use amd_ibs_toolkit.Text.Split.{split, split-last, split-field, above, above-append, above-lower}
use amd_ibs_toolkit.Driver.Device.{IbsOp}
use amd_ibs_toolkit.Daemon.Rows.{comma, write_op_misc, op_row}

-- The numbers of a sample are as wide as the fields of `struct ibs_op` that are printed.
abbrev pub fits : IbsOp → Bool
fits op =
    ltb op.tsc (2 ^ 64)
    && ltb op.cpu (2 ^ 31)
    && ltb op.pid (2 ^ 31)
    && ltb op.tid (2 ^ 31)
    && ltb op.kern_mode (2 ^ 31)
    && ltb op.op_data (2 ^ 64)
    && ltb op.op_data2 (2 ^ 64)
    && ltb op.op_data3 (2 ^ 64)

abbrev pub all_fit : List IbsOp → Bool
all_fit [] = true
all_fit (op ∷ ops) = fits op && all_fit ops

-- The numbers in the order of the columns.
abbrev pub values : IbsOp → List ℕ
values op =
    op.tsc ∷ op.cpu ∷ op.pid ∷ op.tid ∷ op.kern_mode ∷ op.op_data ∷ op.op_data2 ∷ op.op_data3 ∷ []

-- The same as texts.
abbrev pub texts : IbsOp → List Bytes
texts op =
    print_dec op.tsc
    ∷ print_dec op.cpu
    ∷ print_dec op.pid
    ∷ print_dec op.tid
    ∷ print_dec op.kern_mode
    ∷ (codes "0x" ++ print_hex64 op.op_data)
    ∷ (codes "0x" ++ print_hex64 op.op_data2)
    ∷ (codes "0x" ++ print_hex64 op.op_data3)
    ∷ []

abbrev join : List Bytes → Bytes
join [] = []
join (t ∷ []) = t
join (t ∷ u ∷ ts) = t ++ comma ∷ join (u ∷ ts)

above-print_dec : (n : ℕ) → above 47 (print_dec n) ≡ true
unfolding print_dec
above-print_dec n = above-dec_digits 20 n

above-print_hex64 : (n : ℕ) → above 47 (codes "0x" ++ print_hex64 n) ≡ true
unfolding print_hex64
above-print_hex64 n = above-append 47 (codes "0x") (hex_digits 16 n) refl (above-hex_digits 16 n)

pub op_row-join : (op : IbsOp) → op_row op ≡ join (texts op)
unfolding op_row write_op_misc
op_row-join op = simp append_assoc refl

abbrev all_above : List Bytes → Bool
all_above [] = true
all_above (t ∷ ts) = above 47 t && all_above ts

split-join :
    (t : Bytes) (ts : List Bytes) → all_above (t ∷ ts) ≡ true → split comma (join (t ∷ ts)) ≡ t ∷ ts
split-join t [] h = split-last comma t (above-lower comma 47 t (omega arith) (ground (arith, h)))
split-join t (u ∷ ts) h =
    split-field comma t (join (u ∷ ts)) (above-lower comma 47 t (omega arith) (ground (arith, h)))
    ∙ ap (◌∷◌ t) (split-join u ts (ground (arith, h)))

above-join : (ts : List Bytes) → all_above ts ≡ true → above 10 (join ts) ≡ true
above-join [] h = refl
above-join (t ∷ []) h = above-lower 10 47 t (omega arith) (ground (arith, h))
above-join (t ∷ u ∷ ts) h =
    above-append 10 t (comma ∷ join (u ∷ ts))
      (above-lower 10 47 t (omega arith) (ground (arith, h)))
      (above-join (u ∷ ts) (ground (arith, h)))

all_above-texts : (op : IbsOp) → all_above (texts op) ≡ true
all_above-texts op =
    simp
      (
        above-print_dec op.tsc,
        above-print_dec op.cpu,
        above-print_dec op.pid,
        above-print_dec op.tid,
        above-print_dec op.kern_mode,
        above-print_hex64 op.op_data,
        above-print_hex64 op.op_data2,
        above-print_hex64 op.op_data3,
      )
      refl

pub split-op_row : (op : IbsOp) → split comma (op_row op) ≡ texts op
split-op_row op = ap (split comma) (op_row-join op) ∙ split-join _ _ (all_above-texts op)

pub above-op_row : (op : IbsOp) → above 10 (op_row op) ≡ true
above-op_row op = ap (above 10) (op_row-join op) ∙ above-join (texts op) (all_above-texts op)

pub strtoul-texts : (op : IbsOp) → fits op ≡ true → map strtoul (texts op) ≡ values op
strtoul-texts op h =
    simp
      (
        strtoul-print_dec op.tsc (ground (arith, h)),
        strtoul-print_dec op.cpu (ground (arith, h)),
        strtoul-print_dec op.pid (ground (arith, h)),
        strtoul-print_dec op.tid (ground (arith, h)),
        strtoul-print_dec op.kern_mode (ground (arith, h)),
        strtoul-print_hex64 op.op_data (ground (arith, h)),
        strtoul-print_hex64 op.op_data2 (ground (arith, h)),
        strtoul-print_hex64 op.op_data3 (ground (arith, h)),
      )
      refl
