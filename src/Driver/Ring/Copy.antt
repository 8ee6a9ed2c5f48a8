-- ===== src/Driver/Ring/Copy.antt =====
-- The copies of `do_ibs_read` in entries instead of bytes.
use amd_ibs_toolkit.Base.{ℕ, ◌+◌, ◌-◌, ◌*◌, ◌/◌, ◌%◌, ◌≤◌, ◌<◌, ◌≡◌, sym, arith}
use amd_ibs_toolkit.Base.{false, ◌==◌, ltb, if◌then◌else◌, min}
use amd_ibs_toolkit.Base.{Bool-cases, inl, inr, lt→ltb, le→ltb, ltb→lt}
use amd_ibs_toolkit.Driver.Device.{IbsDev, Kernel, Sys, Log, ok, copied, emit}
use amd_ibs_toolkit.Driver.Fops.{slots, copy_to_user, consume, read_wrapped}
use amd_ibs_toolkit.Driver.Ring.{Leads}
use native.Mathlib.Nat.{
  mul-sub, mul-lt-mul_of_pos_right, mul-le-mul_right, mod-eq_of_lt, mod-eq-sub-mod,
}

-- Byte counts that are whole entries.
module _ (size : ℕ) (pos : 0 < size) where
  pub min-bytes : (a b : ℕ) → min (a * size) (b * size) ≡ min a b * size
  min-bytes a b = grind arith

  pub sub-bytes : (a b : ℕ) → a * size - b * size ≡ (a - b) * size
  sub-bytes a b = omega (arith, mul-sub size a b)

  pub ltb-bytes : (a b : ℕ) → ltb (a * size) (b * size) ≡ ltb a b
  ltb-bytes a b = elim (Bool-cases (ltb a b)) [
    | inl less ↦
        let p : a < b = ground arith in rw less (lt→ltb _ _ (mul-lt-mul_of_pos_right p pos))
    | inr other ↦ let p : b ≤ a = ground arith in rw other (le→ltb _ _ (mul-le-mul_right size p))
  ]

  pub is_zero-bytes : (a : ℕ) → (a * size == 0) ≡ (a == 0)
  is_zero-bytes a = grind arith

  pub div-bytes : (a : ℕ) → a * size / size ≡ a
  div-bytes a = grind arith

-- Where the reads of `rd` land: `(rd + n) % capacity`.
pub Leads-mod : (cap h n : ℕ) → h < cap → n < cap → Leads cap h n ((h + n) % cap)
Leads-mod cap h n hh hn = elim (Bool-cases (ltb (h + n) cap)) [
  | inl less ↦ inl (sym (mod-eq_of_lt (ltb→lt _ _ less)))
  | inr around ↦
      let le : cap ≤ h + n = ground arith in
      inr (
        omega (
          arith,
          mod-eq-sub-mod {n = h + n} {m = cap} le,
          mod-eq_of_lt {n = h + n - cap} {m = cap} (omega arith),
        ))
]

pub ltb→ge : (a b : ℕ) → ltb a b ≡ false → b ≤ a
ltb→ge a b h = ground arith

-- A device with `n` entries taken off.
abbrev pub taken : ℕ → IbsDev → IbsDev
taken n dev = record dev { rd = (dev.rd + n) % dev.capacity; entries = dev.entries - n }

module _ (k : Kernel) (works : (log : Log) (bytes : ℕ) → k.copy_fails log bytes ≡ false) where
  -- A copy of `n` entries.
  pub copy_to_user-eq :
      (start n : ℕ) (s : Sys)
      → 0 < s.dev.entry_size
      → copy_to_user k start (n * s.dev.entry_size) s
        ≡ (false, emit (copied (slots s.dev.buf start n)) s)
  unfolding copy_to_user
  copy_to_user-eq start n s pos =
      rw (works s.log (n * s.dev.entry_size), div-bytes s.dev.entry_size pos n)

  pub consume-eq :
      (rd n : ℕ) (s : Sys)
      → 0 < s.dev.entry_size
      → consume k rd (n * s.dev.entry_size) s ≡ (
        ok (n * s.dev.entry_size),
        record s {
          dev = record s.dev { rd = (rd + n) % s.dev.capacity; entries = s.dev.entries - n };
        },
      )
  unfolding consume
  consume-eq rd n s pos = rw (div-bytes s.dev.entry_size pos n)

  abbrev pub first_copy : ℕ → ℕ → Sys → Sys
  first_copy rd n s = emit (copied (slots s.dev.buf rd (min n (s.dev.capacity - rd)))) s

  -- The wrapped branch in entries: up to the end, then from slot 0 on if that is not enough.
  pub read_wrapped-eq :
      (rd wr n : ℕ) (s : Sys)
      → 0 < s.dev.entry_size
      → read_wrapped k rd wr (n * s.dev.entry_size) s ≡ (
          if ltb (s.dev.capacity - rd) n
          then consume k rd (n * s.dev.entry_size) (
              emit
                (copied (slots s.dev.buf 0 (min (n - (s.dev.capacity - rd)) wr)))
                (first_copy rd n s))
          else consume k rd (n * s.dev.entry_size) (first_copy rd n s))
  unfolding read_wrapped
  read_wrapped-eq rd wr n s pos =
      let e = s.dev.capacity - rd in
      rw (
        min-bytes s.dev.entry_size pos n e,
        copy_to_user-eq rd (min n e) s pos,
        sub-bytes s.dev.entry_size pos n e,
        min-bytes s.dev.entry_size pos (n - e) wr,
        copy_to_user-eq 0 (min (n - e) wr) (first_copy rd n s) pos,
        ltb-bytes s.dev.entry_size pos e n,
      )
