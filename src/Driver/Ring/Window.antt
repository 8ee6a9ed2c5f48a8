-- ===== src/Driver/Ring/Window.antt =====
-- Lists of the entries in a ring: as straight runs of slots, their parts, and a write behind them.
use amd_ibs_toolkit.Base.{ℕ, zero, suc, ◌+◌, ◌-◌, ◌≤◌, ◌<◌, ◌≡◌, refl, arith, ap, ap₂, ◌∙◌}
use amd_ibs_toolkit.Base.{true, false, [], ◌∷◌, ◌++◌, ◌==◌, take, drop, length}
use amd_ibs_toolkit.Driver.Device.{Sample}
use amd_ibs_toolkit.Driver.Fops.{slots}
use amd_ibs_toolkit.Driver.Interrupt.{store}
use amd_ibs_toolkit.Driver.Ring.{next_slot, window, Leads}

pub Leads-next :
    (cap h k i : ℕ) → h < cap → i < cap → Leads cap h (suc k) i → Leads cap (next_slot cap h) k i
Leads-next cap h k i hh hi at = ground arith

module _ (buf : ℕ → Sample) (cap : ℕ) where
  -- Entries that do not go round the end are a run of slots.
  pub window-slots : (n h : ℕ) → h + n ≤ cap → window buf cap h n ≡ slots buf h n
  window-slots zero h fits = refl
  window-slots (suc zero) h fits = refl
  window-slots (suc (suc n)) h fits =
      let e : (h + 1 == cap) ≡ false = ground arith in
      rw e (ap (λ xs. buf h ∷ xs) (window-slots (suc n) (h + 1) (omega arith)))

  -- Entries that go round the end are two runs of slots.
  pub window_around :
      (m n k h : ℕ)
      → 0 < m
      → h + m ≡ cap
      → k ≡ m + n
      → n ≤ cap
      → window buf cap h k ≡ slots buf h m ++ slots buf 0 n
  window_around zero n k h pos e f g = absurd (omega arith)
  window_around (suc m) n zero h pos e f g = absurd (omega arith)
  window_around (suc zero) n (suc k) h pos e f g =
      let last : (h + 1 == cap) ≡ true = ground arith in
      let same : k ≡ n = omega arith in
      rw (last, same) (ap (λ xs. buf h ∷ xs) (window-slots n 0 (omega arith)))
  window_around (suc (suc m)) n (suc k) h pos e f g =
      let more : (h + 1 == cap) ≡ false = ground arith in
      rw more (
        ap (λ xs. buf h ∷ xs)
          (window_around (suc m) n k (h + 1) (omega arith) (omega arith) (omega arith) g))

  pub take-window : (k n h : ℕ) → k ≤ n → take k (window buf cap h n) ≡ window buf cap h k
  take-window zero n h le = refl
  take-window (suc k) zero h le = absurd (omega arith)
  take-window (suc k) (suc n) h le =
      ap (λ xs. buf h ∷ xs) (take-window k n (next_slot cap h) (omega arith))

  pub drop-window :
      (k n h i : ℕ)
      → k ≤ n
      → k ≤ cap
      → h < cap
      → i < cap
      → Leads cap h k i
      → drop k (window buf cap h n) ≡ window buf cap i (n - k)
  drop-window zero n h i le lc hh hi at =
      let e : h ≡ i = omega arith in
      let f : n ≡ n - 0 = omega arith in ap₂ (λ a b. window buf cap a b) e f
  drop-window (suc k) zero h i le lc hh hi at = absurd (omega arith)
  drop-window (suc k) (suc n) h i le lc hh hi at =
      drop-window k n (next_slot cap h) i (omega arith) (omega arith) (ground arith) hi
        (Leads-next cap h k i hh hi at)
      ∙ ap (window buf cap i) (omega arith)

-- A write behind the entries adds one more.
pub window-store :
    (buf : ℕ → Sample) (cap : ℕ) (x : Sample) (n h i : ℕ)
    → h < cap
    → n < cap
    → i < cap
    → Leads cap h n i
    → window (store buf i x) cap h (suc n) ≡ window buf cap h n ++ (x ∷ [])
window-store buf cap x zero h i hh hn hi at =
    let e : i ≡ h = omega arith in let f : (i == h) ≡ true = ground arith in rw f
window-store buf cap x (suc n) h i hh hn hi at =
    let f : (i == h) ≡ false = ground arith in
    ap₂ ◌∷◌ (rw f) (
      window-store buf cap x n (next_slot cap h) i (ground arith) (omega arith) hi
        (Leads-next cap h n i hh hi at))

pub length-window : (buf : ℕ → Sample) (cap n h : ℕ) → length (window buf cap h n) ≡ n
length-window buf cap zero h = refl
length-window buf cap (suc n) h = ap suc (length-window buf cap n (next_slot cap h))
