-- ===== src/Driver/Buffer.antt =====
-- The sample buffer functions of driver/ibs-utils.c. No caller passes a null device, so the
-- `dev == NULL` returns have no counterpart.
use amd_ibs_toolkit.Base.{ℕ, ◌/◌, true, false, none, some, ◌==◌, if◌then◌else◌, Option, ◌∷◌}
use amd_ibs_toolkit.Driver.Device.{IbsDev, Sample, Kernel, Sys, Ret, ok, err, eacces, enomem, freed}

unfoldable pub reset_ibs_buffer : IbsDev → IbsDev
reset_ibs_buffer dev = record dev { wr = 0; rd = 0; entries = 0; lost = 0 }

-- What `setup_ibs_buffer` does with the answer of `vmalloc`.
abbrev install : ℕ → Option (ℕ → Sample) → Sys → Ret × Sys
install bytes none s = (err enomem, s)
install bytes (some memory) s =
    let dev = record s.dev {
      buf = memory;
      mapped = true;
      size = bytes;
      capacity = bytes / s.dev.entry_size;
    } in
    (ok 0, record s { dev = reset_ibs_buffer dev })

unfoldable pub setup_ibs_buffer : Kernel → ℕ → Sys → Ret × Sys
unfolding reset_ibs_buffer
setup_ibs_buffer k bytes s =
    if bytes == 0 then (err eacces, s) else install bytes (k.vmalloc s.log bytes) s

unfoldable pub free_ibs_buffer : Sys → Sys
free_ibs_buffer s = record s { dev = record s.dev { mapped = false }; log = freed ∷ s.log }
