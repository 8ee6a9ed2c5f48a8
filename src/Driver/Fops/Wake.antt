-- ===== src/Driver/Fops/Wake.antt =====
-- A blocking `ibs_read` of driver/ibs-fops.c on an empty ring, and the wake-ups that end it.
use amd_ibs_toolkit.Base.{
  ℕ, ◌-◌, ◌*◌, ◌/◌, ◌%◌, min, ◌≤◌, ◌<◌, ◌≡◌, refl, arith, ap, ◌∙◌, List, [], ◌∷◌, ◌++◌, Bool, true,
  false, ◌&&◌, ◌==◌, take, drop,
}
use amd_ibs_toolkit.Driver.Device.{
  IbsDev, Kernel, Sys, Log, ok, emit, acquire, release, read_lock, ctl_lock,
}
use amd_ibs_toolkit.Driver.Control.{is_enabled}
use amd_ibs_toolkit.Driver.Fops
use amd_ibs_toolkit.Driver.Fops.Wait.{in_range, read_loop-data}
use amd_ibs_toolkit.Driver.Ring.{IsValid, contents, delivered}
use amd_ibs_toolkit.Driver.Ring.Read.{do_ibs_read_refines}

-- An empty ring with IBS on: the reader goes to sleep.
abbrev pub is_waiting : IbsDev → Bool
is_waiting dev = dev.entries == 0 && is_enabled dev

abbrev pub all_waiting : List IbsDev → Bool
all_waiting [] = true
all_waiting (dev ∷ devs) = is_waiting dev && all_waiting devs

-- The reader is woken to each of some devices, and then to a last.
abbrev pub wakes : List IbsDev → IbsDev → List Fops.Wakeup
wakes [] last = Fops.woken last ∷ []
wakes (dev ∷ devs) last = Fops.woken dev ∷ wakes devs last

-- The log after a wait, and after as many waits and one more.
abbrev wait_once : Log → Log
wait_once log = acquire read_lock ∷ release ctl_lock ∷ acquire ctl_lock ∷ release read_lock ∷ log

abbrev waited : List IbsDev → Log → Log
waited [] log = wait_once log
waited (dev ∷ devs) log = waited devs (wait_once log)

delivered-waited : (devs : List IbsDev) (log : Log) → delivered (waited devs log) ≡ delivered log
delivered-waited [] log = refl
delivered-waited (dev ∷ devs) log = delivered-waited devs (wait_once log)

module _ (k : Kernel) where
  read_loop-wait :
      (count : ℕ) (next : IbsDev) (later : List Fops.Wakeup) (s : Sys)
      → is_waiting s.dev ≡ true
      → Fops.read_loop k false count (Fops.woken next ∷ later) s
        ≡ Fops.read_loop k false count later (record { dev = next; log = wait_once s.log })
  unfolding Fops.read_loop
  read_loop-wait count next later s waits =
      let empty : (s.dev.entries == 0) ≡ true = ground (arith, waits) in
      let on : is_enabled s.dev ≡ true = ground (arith, waits) in simp (empty, on) refl

  read_loop-wakes :
      (count : ℕ) (devs : List IbsDev) (last : IbsDev) (s : Sys)
      → is_waiting s.dev ≡ true
      → all_waiting devs ≡ true
      → 0 < last.entries
      → Fops.read_loop k false count (wakes devs last) s
        ≡ Fops.finish_read k count (record { dev = last; log = waited devs s.log })
  read_loop-wakes count [] last s waits idle some =
      read_loop-wait count last [] s waits
      ∙ read_loop-data k false count [] (record { dev = last; log = wait_once s.log }) some
  read_loop-wakes count (dev ∷ devs) last s waits idle some =
      read_loop-wait count dev (wakes devs last) s waits
      ∙ read_loop-wakes count devs last (record { dev = dev; log = wait_once s.log })
          (ground (arith, idle)) (ground (arith, idle)) some

  -- A blocking read of at least one entry and at most the size of the buffer, on an empty ring
  -- with IBS on, does return: however often it is woken to an empty ring with IBS on, the
  -- first time that it finds samples in a valid ring with entries of the same size it delivers
  -- the oldest of them, as many as fit and at least one, leaves the rest waiting and leaves a
  -- valid ring, if no copy fails.
  pub ibs_read-wakes :
      (count : ℕ) (devs : List IbsDev) (last : IbsDev) (s : Sys)
      → ((log : Log) (bytes : ℕ) → k.copy_fails log bytes ≡ false)
      → is_waiting s.dev ≡ true
      → all_waiting devs ≡ true
      → IsValid last
      → last.entry_size ≡ s.dev.entry_size
      → 0 < last.entries
      → s.dev.entry_size ≤ count
      → count ≤ s.dev.size
      → let n = min (count / s.dev.entry_size) last.entries in
        let (out, s') = Fops.ibs_read k false count (wakes devs last) s in
        (out ≡ Fops.returned (ok (n * s.dev.entry_size)))
        × (0 < n)
        × (delivered s'.log ≡ delivered s.log ++ take n (contents last))
        × (contents s'.dev ≡ drop n (contents last))
        × IsValid s'.dev
  unfolding Fops.ibs_read
  ibs_read-wakes count devs last s works waits idle v same some large small =
      let ready : Sys = record { dev = last; log = waited devs (acquire read_lock ∷ s.log) } in
      let whole : count - count % s.dev.entry_size ≡ count / s.dev.entry_size * last.entry_size =
        grind arith in
      let pos : 0 < count / s.dev.entry_size = grind (arith, v.entry_pos) in
      let (value, out, left, valid) =
        do_ibs_read_refines k (count / s.dev.entry_size) ready works v in
      rw
        (
          in_range k count s.dev large small,
          read_loop-wakes (count - count % s.dev.entry_size) devs last (emit (acquire read_lock) s)
              waits idle some,
          whole,
        )
        (
          ap Fops.returned
              (value ∙ ap (λ size. ok (min (count / s.dev.entry_size) last.entries * size)) same),
          omega arith,
          out
              ∙ ap (λ l. l ++ take (min (count / s.dev.entry_size) last.entries) (contents last))
                  (delivered-waited devs (acquire read_lock ∷ s.log)),
          left,
          valid,
        )
