-- ===== src/Driver/Ring/Put.antt =====
-- `put_sample`, the write of the interrupt handlers into the ring, against a bounded queue.
use amd_ibs_toolkit.Base.{ℕ, ◌+◌, ◌%◌, ◌^◌, ◌<◌, ◌≡◌, refl, arith, inl, inr}
use amd_ibs_toolkit.Base.{List, [], ◌∷◌, ◌++◌, ◌==◌, if◌then◌else◌, length}
use amd_ibs_toolkit.Base.{Bool-cases, ==_iff}
use native.Mathlib.Numerals.{add-one}
use amd_ibs_toolkit.Driver.Device.{IbsDev, Sample}
use amd_ibs_toolkit.Driver.Interrupt.{next_wr, is_full, store, put_sample}
use amd_ibs_toolkit.Driver.Ring.{next_slot, contents, IsValid}
use amd_ibs_toolkit.Driver.Ring.Window.{window-store, length-window}

-- A queue of fewer than `cap` samples: the newest is dropped when one more would fill it up.
abbrev pub offer : ℕ → Sample → List Sample → List Sample
offer cap x q = if length q + 1 == cap then q else q ++ (x ∷ [])

next_wr-eq : {dev : IbsDev} → IsValid dev → next_wr dev ≡ next_slot dev.capacity dev.wr
next_wr-eq {dev} v = elim (Bool-cases (dev.wr + 1 == dev.capacity)) [
  | inl last ↦ rw last (let e : dev.wr + 1 ≡ dev.capacity = (==_iff _ _).0 last in grind arith)
  | inr more ↦ rw more (let e : dev.wr + 1 < dev.capacity = ground arith in grind arith)
]

next_wr-lt : {dev : IbsDev} → IsValid dev → next_slot dev.capacity dev.wr < dev.capacity
next_wr-lt v = ground arith

is_full-eq : {dev : IbsDev} → IsValid dev → is_full dev ≡ (dev.entries + 1 == dev.capacity)
is_full-eq {dev} v = rw (next_wr-eq v) (ground arith)

abbrev pub dropped : IbsDev → IbsDev
dropped dev = record dev { lost = dev.lost + 1 }

abbrev pub stored : Sample → IbsDev → IbsDev
stored x dev = record dev {
  buf = store dev.buf dev.wr x;
  wr = next_slot dev.capacity dev.wr;
  entries = dev.entries + 1;
}

-- The two branches of the write, by the room that is left.
pub put_sample-eq :
    (x : Sample) {dev : IbsDev}
    → IsValid dev
    → put_sample x dev ≡ (if dev.entries + 1 == dev.capacity then dropped dev else stored x dev)
unfolding put_sample
put_sample-eq x {dev} v =
    let small : dev.wr % 2 ^ 32 ≡ dev.wr = omega arith in rw (is_full-eq v, next_wr-eq v, small)

stored-IsValid :
    (x : Sample) {dev : IbsDev}
    → IsValid dev
    → dev.entries + 1 < dev.capacity
    → IsValid (stored x dev)
stored-IsValid x v h = ground arith

-- Storing a sample keeps the invariant.
pub put_sample-IsValid : (x : Sample) {dev : IbsDev} → IsValid dev → IsValid (put_sample x dev)
put_sample-IsValid x {dev} v = elim (Bool-cases (dev.entries + 1 == dev.capacity)) [
  | inl full ↦ rw (put_sample-eq x v, full) (omega arith)
  | inr room ↦ rw (put_sample-eq x v, room) (stored-IsValid x v (ground arith))
]

pub contents-length : (dev : IbsDev) → length (contents dev) ≡ dev.entries
contents-length dev = length-window dev.buf dev.capacity dev.entries dev.rd

contents-stored :
    (x : Sample) {dev : IbsDev} → IsValid dev → contents (stored x dev) ≡ contents dev ++ (x ∷ [])
contents-stored x {dev} v = rw (add-one) (
    window-store dev.buf dev.capacity x dev.entries dev.rd dev.wr v.rd_in v.free_slot v.wr_in
      v.occupied)

-- On a valid ring, storing a sample acts on the waiting samples like `offer` to a queue of
-- fewer than `capacity`, and the waiting and the lost samples together are one more than
-- before.
pub put_sample_refines :
    (x : Sample) {dev : IbsDev}
    → IsValid dev
    → (contents (put_sample x dev) ≡ offer dev.capacity x (contents dev))
      × ((put_sample x dev).lost + length (contents (put_sample x dev))
          ≡ dev.lost + length (contents dev) + 1)
put_sample_refines x {dev} v = elim (Bool-cases (dev.entries + 1 == dev.capacity)) [
  | inl full ↦
      rw (put_sample-eq x v, contents-length dev, full) (refl, omega (arith, contents-length dev))
  | inr room ↦
      rw (put_sample-eq x v, contents-length dev, room)
        (contents-stored x v, omega (arith, contents-length dev, contents-length (stored x dev)))
]
