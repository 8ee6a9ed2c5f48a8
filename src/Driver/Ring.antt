-- ===== src/Driver/Ring.antt =====
-- The sample buffer as a queue: what the entries between `rd` and `wr` hold, and the invariant
-- that ties `rd`, `wr` and `entries` together.
pub mod Window
pub mod Put
pub mod Copy
pub mod Read
pub mod Race
pub mod Sequence
use amd_ibs_toolkit.Base.{
  ℕ, zero, suc, ◌+◌, ◌^◌, ◌≤◌, ◌<◌, ◌/◌, ◌≡◌, ◌⊎◌, List, [], ◌∷◌, ◌++◌, ◌==◌,
}
use amd_ibs_toolkit.Base.{if◌then◌else◌}
use amd_ibs_toolkit.Driver.Device.{IbsDev, Sample, Log, copied, wrmsr, udelay, acquire, release}

-- The slot behind `h` in a ring of `cap` slots.
abbrev pub next_slot : ℕ → ℕ → ℕ
next_slot cap h = if h + 1 == cap then 0 else h + 1

-- The `n` entries from slot `h` on, round the ring.
abbrev pub window : (ℕ → Sample) → ℕ → ℕ → ℕ → List Sample
window buf cap h zero = []
window buf cap h (suc n) = buf h ∷ window buf cap (next_slot cap h) n

-- The samples that wait to be read, oldest first.
abbrev pub contents : IbsDev → List Sample
contents dev = window dev.buf dev.capacity dev.rd dev.entries

-- `n` steps from slot `h` lead to slot `i`, at most once round.
abbrev pub Leads : ℕ → ℕ → ℕ → ℕ → Type 0
Leads cap h n i = (h + n ≡ i) ⊎ (h + n ≡ i + cap)

-- The indices fit `unsigned int`, and one slot always stays free.
pub record IsValid (dev : IbsDev) : Type 0 where
  pub entry_pos : 0 < dev.entry_size
  pub fits : dev.capacity < 2 ^ 32
  pub sized : dev.capacity ≡ dev.size / dev.entry_size
  pub wr_in : dev.wr < dev.capacity
  pub rd_in : dev.rd < dev.capacity
  pub free_slot : dev.entries < dev.capacity
  pub occupied : Leads dev.capacity dev.rd dev.entries dev.wr

-- What was copied to the user, oldest first.
abbrev pub delivered : Log → List Sample
delivered [] = []
delivered (copied xs ∷ log) = delivered log ++ xs
delivered (_ ∷ log) = delivered log
