-- ===== src/Decoder/Fields.antt =====
-- The bit fields of include/ibs-uapi.h that the decoder prints, as the lowest bit and the width of
-- each in its register.
pub mod OpCtl
pub mod OpData
pub mod OpData2
pub mod OpData3
pub mod FetchCtl
use amd_ibs_toolkit.Base.{ℕ, ◌/◌, ◌%◌, ◌^◌, ◌==◌, Bool, true, false, not}

abbrev pub field : ℕ → ℕ → ℕ → ℕ
field low width v = v / 2 ^ low % 2 ^ width

-- A C condition on a number.
abbrev pub holds : ℕ → Bool
holds n = not (n == 0)
