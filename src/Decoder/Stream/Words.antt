-- ===== src/Decoder/Stream/Words.antt =====
-- The structures in a trace, and the `fread` of tools/ibs_decoder/ibs_decoder.c that reads them.
use amd_ibs_toolkit.Base.{
  ℕ, zero, suc, ◌+◌, ◌*◌, ◌/◌, ◌%◌, ◌^◌, ◌<◌, ◌≤◌, ◌≡◌, refl, arith, ap, ◌∙◌, Bool, true, false,
  ◌&&◌, ltb, le→ltb,
}
use amd_ibs_toolkit.Base.{List, [], ◌∷◌, ◌++◌, take, drop, length, length-append, append_assoc}
use amd_ibs_toolkit.Text.{Bytes}
use amd_ibs_toolkit.Driver.Device.{IbsOp}
use amd_ibs_toolkit.Decoder.Stream.{word, next, decode_op, ops_from, read_ops}

-- A number in so many bytes, low bytes first.
unfoldable pub bytes_of : ℕ → ℕ → Bytes
bytes_of zero n = []
bytes_of (suc size) n = n % 256 ∷ bytes_of size (n / 256)

-- What `fwrite` puts into a file for an `ibs_op_t`.
abbrev pub encode_op : IbsOp → Bytes
encode_op op =
    bytes_of 8 op.op_ctl
    ++ bytes_of 8 op.op_rip
    ++ bytes_of 8 op.op_data
    ++ bytes_of 8 op.op_data2
    ++ bytes_of 8 op.op_data3
    ++ bytes_of 8 op.op_data4
    ++ bytes_of 8 op.dc_lin_ad
    ++ bytes_of 8 op.dc_phys_ad
    ++ bytes_of 8 op.br_target
    ++ bytes_of 8 op.tsc
    ++ bytes_of 8 op.cr3
    ++ bytes_of 4 op.tid
    ++ bytes_of 4 op.pid
    ++ bytes_of 4 op.cpu
    ++ bytes_of 4 op.kern_mode

abbrev pub encode_ops : List IbsOp → Bytes
encode_ops [] = []
encode_ops (op ∷ ops) = encode_op op ++ encode_ops ops

-- Numbers that fit their fields.
abbrev pub fits : IbsOp → Bool
fits op =
    ltb op.op_ctl (2 ^ 64)
    && ltb op.op_rip (2 ^ 64)
    && ltb op.op_data (2 ^ 64)
    && ltb op.op_data2 (2 ^ 64)
    && ltb op.op_data3 (2 ^ 64)
    && ltb op.op_data4 (2 ^ 64)
    && ltb op.dc_lin_ad (2 ^ 64)
    && ltb op.dc_phys_ad (2 ^ 64)
    && ltb op.br_target (2 ^ 64)
    && ltb op.tsc (2 ^ 64)
    && ltb op.cr3 (2 ^ 64)
    && ltb op.tid (2 ^ 32)
    && ltb op.pid (2 ^ 32)
    && ltb op.cpu (2 ^ 32)
    && ltb op.kern_mode (2 ^ 32)

abbrev pub all_fit : List IbsOp → Bool
all_fit [] = true
all_fit (op ∷ ops) = fits op && all_fit ops

length-bytes_of : (size n : ℕ) → length (bytes_of size n) ≡ size
unfolding bytes_of
length-bytes_of zero n = refl
length-bytes_of (suc size) n = ap suc (length-bytes_of size (n / 256))

next-bytes_of :
    (size n : ℕ) (rest : Bytes) → n < 256 ^ size → next size (bytes_of size n ++ rest) ≡ (n, rest)
unfolding bytes_of
next-bytes_of zero n rest h = ap (λ v. (v, rest)) (omega (arith, h))
next-bytes_of (suc size) n rest h =
    ap (λ (p : ℕ × Bytes). (n % 256 + 256 * p.0, p.1))
      (next-bytes_of size (n / 256) rest (omega (arith, h)))
    ∙ ap (λ v. (v, rest)) (omega arith)

drop-bytes_of : (size n : ℕ) (rest : Bytes) → drop size (bytes_of size n ++ rest) ≡ rest
unfolding bytes_of
drop-bytes_of zero n rest = refl
drop-bytes_of (suc size) n rest = drop-bytes_of size (n / 256) rest

-- The number of 8 or of 4 bytes that comes next.
word-8 : (n : ℕ) → ltb n (2 ^ 64) ≡ true → (rest : Bytes) → word (take 8 (bytes_of 8 n ++ rest)) ≡ n
word-8 n h rest = ap (λ (p : ℕ × Bytes). p.0) (next-bytes_of 8 n rest (ground (arith, h)))

word-4 : (n : ℕ) → ltb n (2 ^ 32) ≡ true → (rest : Bytes) → word (take 4 (bytes_of 4 n ++ rest)) ≡ n
word-4 n h rest = ap (λ (p : ℕ × Bytes). p.0) (next-bytes_of 4 n rest (ground (arith, h)))

decode_op-encode_op :
    (op : IbsOp) (rest : Bytes) → fits op ≡ true → decode_op (encode_op op ++ rest) ≡ (op, rest)
unfolding decode_op
decode_op-encode_op op rest h =
    simp
      (
        append_assoc,
        drop-bytes_of 8,
        drop-bytes_of 4,
        word-8 op.op_ctl (ground (arith, h)),
        word-8 op.op_rip (ground (arith, h)),
        word-8 op.op_data (ground (arith, h)),
        word-8 op.op_data2 (ground (arith, h)),
        word-8 op.op_data3 (ground (arith, h)),
        word-8 op.op_data4 (ground (arith, h)),
        word-8 op.dc_lin_ad (ground (arith, h)),
        word-8 op.dc_phys_ad (ground (arith, h)),
        word-8 op.br_target (ground (arith, h)),
        word-8 op.tsc (ground (arith, h)),
        word-8 op.cr3 (ground (arith, h)),
        word-4 op.tid (ground (arith, h)),
        word-4 op.pid (ground (arith, h)),
        word-4 op.cpu (ground (arith, h)),
        word-4 op.kern_mode (ground (arith, h)),
      )
      refl

length-encode_op : (op : IbsOp) → length (encode_op op) ≡ 104
length-encode_op op = simp (length-append, length-bytes_of) refl

length-encode_ops : (ops : List IbsOp) → length ops ≤ length (encode_ops ops)
length-encode_ops [] = omega arith
length-encode_ops (op ∷ ops) = omega (
  arith,
  length-append (encode_op op) (encode_ops ops),
  length-encode_op op,
  length-encode_ops ops,
)

ops_from-step :
    (fuel : ℕ) (bytes : Bytes) (p : IbsOp × Bytes)
    → ltb (length bytes) 104 ≡ false
    → decode_op bytes ≡ p
    → ops_from (suc fuel) bytes ≡ p.0 ∷ ops_from fuel p.1
unfolding ops_from
ops_from-step fuel bytes p long decoded =
    rw long (ap (λ (q : IbsOp × Bytes). q.0 ∷ ops_from fuel q.1) decoded)

ops_from-encode_ops :
    (fuel : ℕ) (ops : List IbsOp) (tail : Bytes)
    → all_fit ops ≡ true
    → length ops ≤ fuel
    → length tail < 104
    → ops_from fuel (encode_ops ops ++ tail) ≡ ops
unfolding ops_from
ops_from-encode_ops zero [] tail fit enough short = refl
ops_from-encode_ops (suc fuel) [] tail fit enough short =
    let done : ltb (length tail) 104 ≡ true = ground (arith, short) in rw done refl
ops_from-encode_ops zero (op ∷ ops) tail fit enough short = absurd (omega (arith, enough))
ops_from-encode_ops (suc fuel) (op ∷ ops) tail fit enough short =
    let later = encode_ops ops ++ tail in
    let long : ltb (length (encode_op op ++ later)) 104 ≡ false =
      le→ltb _ 104 (omega (arith, length-append (encode_op op) later, length-encode_op op)) in
    let decoded = decode_op-encode_op op later (ground (arith, fit)) in
    ap (ops_from (suc fuel)) (append_assoc (encode_op op) (encode_ops ops) tail)
    ∙ ops_from-step fuel (encode_op op ++ later) (op, later) long decoded
    ∙ ap (◌∷◌ op)
        (ops_from-encode_ops fuel ops tail (ground (arith, fit)) (omega (arith, enough)) short)

-- The samples that a file holds as `fwrite` puts them there are read back, each with all its
-- fields, if these fit, and less than a whole structure behind them is left out.
pub read_ops-encode_ops :
    (ops : List IbsOp) (tail : Bytes)
    → all_fit ops ≡ true
    → length tail < 104
    → read_ops (encode_ops ops ++ tail) ≡ ops
unfolding read_ops
read_ops-encode_ops ops tail fit short =
    let bytes = encode_ops ops ++ tail in
    ops_from-encode_ops (length bytes) ops tail fit
      (omega (arith, length-append (encode_ops ops) tail, length-encode_ops ops)) short
