-- ===== src/Driver/Fops/Wait.antt =====
-- `ibs_read` of driver/ibs-fops.c: its answers, its waits and its locks.
use amd_ibs_toolkit.Base.{ℕ, ◌-◌, ◌*◌, ◌/◌, ◌%◌, min, ◌≤◌, ◌<◌, ◌≡◌, refl, arith, ap, ◌∙◌}
use amd_ibs_toolkit.Base.{
  List, [], ◌∷◌, ◌++◌, Bool, true, false, not, ◌||◌, ◌==◌, ltb, if◌then◌else◌, take, drop,
}
use amd_ibs_toolkit.Base.{Bool-cases, inl, inr, ne→==}
use amd_ibs_toolkit.Driver.Device.{
  IbsDev, Kernel, Sys, Log, ok, err, eagain, einval, emit, acquire, release, read_lock, ctl_lock,
}
use amd_ibs_toolkit.Driver.Control.{is_enabled}
use amd_ibs_toolkit.Driver.Locks.{ctl_held, read_held}
use amd_ibs_toolkit.Driver.Locks.Keep.{Keeps}
use amd_ibs_toolkit.Driver.Fops
use amd_ibs_toolkit.Driver.Ring.{IsValid, contents, delivered}
use amd_ibs_toolkit.Driver.Ring.Read.{do_ibs_read_refines}

module _ (k : Kernel) where
  do_ibs_read-Keeps : (count : ℕ) (s : Sys) → Keeps s.log (Fops.do_ibs_read k count s).1.log
  unfolding Fops.do_ibs_read Fops.do_ibs_read_at Fops.read_wrapped Fops.copy_to_user Fops.consume
  do_ibs_read-Keeps count s = ground arith

  -- The read lock is free and the control lock as before.
  abbrev Unlocked : Log → Fops.Outcome × Sys → Type 0
  Unlocked log out = (read_held out.1.log ≡ false) × (ctl_held out.1.log ≡ false)

  finish_read-Unlocked :
      (count : ℕ) (s : Sys) → ctl_held s.log ≡ false → Unlocked s.log (Fops.finish_read k count s)
  finish_read-Unlocked count s free = (refl, (do_ibs_read-Keeps count s).ctl ∙ free)

  read_loop-Unlocked :
      (nonblock : Bool) (count : ℕ) (wakeups : List Fops.Wakeup) (s : Sys)
      → ctl_held s.log ≡ false
      → Unlocked s.log (Fops.read_loop k nonblock count wakeups s)
  unfolding Fops.read_loop
  read_loop-Unlocked nonblock count [] s free = elim (Bool-cases (s.dev.entries == 0)) [
    | inl empty ↦ rw empty (ground arith)
    | inr some ↦ rw some (finish_read-Unlocked count s free)
  ]
  read_loop-Unlocked nonblock count (Fops.signal ∷ later) s free =
      elim (Bool-cases (s.dev.entries == 0)) [
        | inl empty ↦ rw empty (ground arith)
        | inr some ↦ rw some (finish_read-Unlocked count s free)
      ]
  read_loop-Unlocked nonblock count (Fops.woken dev ∷ later) s free =
      let again =
        read_loop-Unlocked nonblock count later
          (record {
            dev = dev;
            log =
                acquire read_lock ∷ release ctl_lock ∷ acquire ctl_lock ∷ release read_lock ∷ s.log;
          })
          refl in
      elim (Bool-cases (s.dev.entries == 0)) [
        | inl empty ↦ rw empty (elim (Bool-cases (is_enabled s.dev)) [
          | inr off ↦ rw off (refl, refl)
          | inl on ↦ elim (Bool-cases nonblock) [
            | inl at_once ↦ rw (on, at_once) (refl, refl)
            | inr waits ↦ rw (on, waits) again
          ]
        ])
        | inr some ↦ rw some (finish_read-Unlocked count s free)
      ]

  -- A read that starts with the read lock and the control lock free ends or sleeps with both
  -- free.
  pub ibs_read-Unlocked :
      (nonblock : Bool) (count : ℕ) (wakeups : List Fops.Wakeup) (s : Sys)
      → ctl_held s.log ≡ false
      → read_held s.log ≡ false
      → let out = (Fops.ibs_read k nonblock count wakeups s).1 in
        (read_held out.log ≡ false) × (ctl_held out.log ≡ false)
  unfolding Fops.ibs_read
  ibs_read-Unlocked nonblock count wakeups s free unread =
      elim (Bool-cases (ltb count s.dev.entry_size || ltb s.dev.size count)) [
        | inl bad ↦ rw bad (unread, free)
        | inr fine ↦
            rw fine (read_loop-Unlocked nonblock _ wakeups (emit (acquire read_lock) s) free)
      ]

  pub read_loop-data :
      (nonblock : Bool) (count : ℕ) (wakeups : List Fops.Wakeup) (s : Sys)
      → 0 < s.dev.entries
      → Fops.read_loop k nonblock count wakeups s ≡ Fops.finish_read k count s
  unfolding Fops.read_loop
  read_loop-data nonblock count [] s some =
      simp (ne→== s.dev.entries 0 (λ e. omega (arith, e))) refl
  read_loop-data nonblock count (Fops.signal ∷ later) s some =
      simp (ne→== s.dev.entries 0 (λ e. omega (arith, e))) refl
  read_loop-data nonblock count (Fops.woken dev ∷ later) s some =
      simp (ne→== s.dev.entries 0 (λ e. omega (arith, e))) refl

  read_loop-empty :
      (nonblock : Bool) (count : ℕ) (wakeups : List Fops.Wakeup) (s : Sys)
      → s.dev.entries ≡ 0
      → (not (is_enabled s.dev) || nonblock) ≡ true
      → (Fops.read_loop k nonblock count wakeups s).0
        ≡ Fops.returned (if is_enabled s.dev then err eagain else ok 0)
  unfolding Fops.read_loop
  read_loop-empty nonblock count [] s empty ready = simp empty (ground arith)
  read_loop-empty nonblock count (Fops.signal ∷ later) s empty ready = simp empty (ground arith)
  read_loop-empty nonblock count (Fops.woken dev ∷ later) s empty ready = simp empty (ground arith)

  -- A read with a size below one entry or above the buffer's is refused with EINVAL.
  pub ibs_read-refused :
      (nonblock : Bool) (count : ℕ) (wakeups : List Fops.Wakeup) (s : Sys)
      → (ltb count s.dev.entry_size || ltb s.dev.size count) ≡ true
      → Fops.ibs_read k nonblock count wakeups s ≡ (Fops.returned (err einval), s)
  unfolding Fops.ibs_read
  ibs_read-refused nonblock count wakeups s bad = rw bad refl

  pub in_range :
      (count : ℕ) (dev : IbsDev)
      → dev.entry_size ≤ count
      → count ≤ dev.size
      → (ltb count dev.entry_size || ltb dev.size count) ≡ false
  in_range count dev large small = ground arith

  -- A read of at least one entry and at most the size of the buffer, on a valid ring with
  -- samples, returns at once, whatever the mode, if no copy fails: it delivers the oldest
  -- samples, as many as fit and at least one, leaves the rest waiting and leaves a valid ring.
  pub ibs_read-delivers :
      (nonblock : Bool) (count : ℕ) (wakeups : List Fops.Wakeup) (s : Sys)
      → ((log : Log) (bytes : ℕ) → k.copy_fails log bytes ≡ false)
      → IsValid s.dev
      → 0 < s.dev.entries
      → s.dev.entry_size ≤ count
      → count ≤ s.dev.size
      → let n = min (count / s.dev.entry_size) s.dev.entries in
        let (out, s') = Fops.ibs_read k nonblock count wakeups s in
        (out ≡ Fops.returned (ok (n * s.dev.entry_size)))
        × (0 < n)
        × (delivered s'.log ≡ delivered s.log ++ take n (contents s.dev))
        × (contents s'.dev ≡ drop n (contents s.dev))
        × IsValid s'.dev
  unfolding Fops.ibs_read
  ibs_read-delivers nonblock count wakeups s works v some large small =
      let held = emit (acquire read_lock) s in
      let whole : count - count % s.dev.entry_size ≡ count / s.dev.entry_size * s.dev.entry_size =
        grind arith in
      let pos : 0 < count / s.dev.entry_size = grind (arith, v.entry_pos) in
      let (value, out, left, valid) =
        do_ibs_read_refines k (count / s.dev.entry_size) held works v in
      rw
        (
          in_range count s.dev large small,
          read_loop-data nonblock (count - count % s.dev.entry_size) wakeups held some,
          whole,
        )
        (ap Fops.returned value, omega arith, out, left, valid)

  -- A read of at least one entry and at most the size of the buffer, on an empty ring, with
  -- IBS off or on a file that is not to block: it returns 0 if IBS is off, and EAGAIN if IBS
  -- is on.
  ibs_read-empty :
      (nonblock : Bool) (count : ℕ) (wakeups : List Fops.Wakeup) (s : Sys)
      → s.dev.entries ≡ 0
      → s.dev.entry_size ≤ count
      → count ≤ s.dev.size
      → (not (is_enabled s.dev) || nonblock) ≡ true
      → (Fops.ibs_read k nonblock count wakeups s).0
        ≡ Fops.returned (if is_enabled s.dev then err eagain else ok 0)
  unfolding Fops.ibs_read
  ibs_read-empty nonblock count wakeups s empty large small ready =
      rw (in_range count s.dev large small)
        (read_loop-empty nonblock _ wakeups (emit (acquire read_lock) s) empty ready)
