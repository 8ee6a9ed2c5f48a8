-- ===== src/Driver/Load/Fresh.antt =====
-- `init_cpu`, the set-up of the devices of a CPU in driver/ibs-core.c.
use amd_ibs_toolkit.Base.{ℕ, ◌≡◌, refl, arith, some, true, ◌==◌, []}
use amd_ibs_toolkit.Driver.Registers.{ibs_op, ibs_fetch}
use amd_ibs_toolkit.Driver.Device.{IbsDev, Kernel, Log, Sample, ok}
use amd_ibs_toolkit.Driver.Buffer.{setup_ibs_buffer, reset_ibs_buffer}
use amd_ibs_toolkit.Driver.Support.{Support}
use amd_ibs_toolkit.Driver.Ring.{IsValid, contents}
use amd_ibs_toolkit.Driver.Cpus.{init_ibs_dev}
use amd_ibs_toolkit.Driver.Cpus.{init_ibs_op_dev, init_ibs_fetch_dev, Devices, init_cpu}

-- A device with memory, an empty ring and no user.
pub record IsReady (dev : IbsDev) : Type 0 where
  pub mapped : dev.mapped ≡ true
  pub unused : dev.in_use ≡ 0
  pub empty : contents dev ≡ []
  pub valid : IsValid dev

-- If there is memory for the buffers, `ibs_init` leaves both devices of a CPU mapped, not in
-- use, with an empty valid ring, each of its flavor.
init_cpu-IsReady :
    (k : Kernel) (s : Support) (cpu : ℕ) (d : Devices) (memory : ℕ → Sample)
    → ((log : Log) (bytes : ℕ) → k.vmalloc log bytes ≡ some memory)
    → let (r, d') = init_cpu k s cpu d in
      (r ≡ ok 0)
      × ((d'.op cpu).flavor ≡ ibs_op)
      × ((d'.fetch cpu).flavor ≡ ibs_fetch)
      × IsReady (d'.op cpu)
      × IsReady (d'.fetch cpu)
unfolding init_cpu init_ibs_op_dev init_ibs_fetch_dev init_ibs_dev setup_ibs_buffer reset_ibs_buffer
init_cpu-IsReady k s cpu d memory some_memory =
    let same : (cpu == cpu) ≡ true = ground arith in
    simp (some_memory, same)
      (
        refl,
        refl,
        refl,
        record { mapped = refl; unused = refl; empty = refl; valid = ground arith },
        record { mapped = refl; unused = refl; empty = refl; valid = ground arith },
      )
