-- ===== src/Driver/Scatter.antt =====
-- `scatter_bits` and `gather_bits` of driver/ibs-utils.c.
pub mod Loop
pub mod Field
use amd_ibs_toolkit.Base.{ℕ, zero, suc, ◌*◌, ◌%◌, ◌^◌, bit_and, bit_or}
use amd_ibs_toolkit.Base.{Bool, true, false, not, ◌&&◌, ◌==◌, if◌then◌else◌}

-- `if (x & pos)`.
abbrev pub is_set : ℕ → ℕ → Bool
is_set x pos = not (bit_and x pos == 0)

-- `x <<= 1` on a `u64`.
abbrev pub shl1 : ℕ → ℕ
shl1 x = x * 2 % 2 ^ 64

-- The loop of `scatter_bits` with `left` rounds to go.
unfoldable pub scatter_loop : ℕ → ℕ → ℕ → ℕ → ℕ → ℕ → ℕ
scatter_loop zero qty fmt reg qty_pos fmt_pos = reg
scatter_loop (suc left) qty fmt reg qty_pos fmt_pos =
    let hit = is_set fmt fmt_pos in
    let reg' = if hit && is_set qty qty_pos then bit_or reg fmt_pos else reg in
    scatter_loop left qty fmt reg' (if hit then shl1 qty_pos else qty_pos) (shl1 fmt_pos)

unfoldable pub scatter_bits : ℕ → ℕ → ℕ
unfolding scatter_loop
scatter_bits qty fmt = scatter_loop 64 qty fmt 0 1 1

-- The loop of `gather_bits` with `left` rounds to go.
unfoldable pub gather_loop : ℕ → ℕ → ℕ → ℕ → ℕ → ℕ → ℕ
gather_loop zero reg fmt qty qty_pos fmt_pos = qty
gather_loop (suc left) reg fmt qty qty_pos fmt_pos =
    let hit = is_set fmt fmt_pos in
    let qty' = if hit && is_set reg fmt_pos then bit_or qty qty_pos else qty in
    gather_loop left reg fmt qty' (if hit then shl1 qty_pos else qty_pos) (shl1 fmt_pos)

unfoldable pub gather_bits : ℕ → ℕ → ℕ
unfolding gather_loop
gather_bits reg fmt = gather_loop 64 reg fmt 0 1 1
