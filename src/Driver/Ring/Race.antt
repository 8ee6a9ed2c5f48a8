-- ===== src/Driver/Ring/Race.antt =====
-- A sample that arrives while `do_ibs_read` reads `rd`, `wr` and `entries` one after the other.
use amd_ibs_toolkit.Base.{
  ℕ, zero, suc, ◌+◌, ◌-◌, ◌*◌, ◌<◌, ◌≡◌, refl, sym, arith, ap, ap₂, ◌∙◌, min,
}
use amd_ibs_toolkit.Base.{
  true, false, [], ◌∷◌, ◌++◌, ◌==◌, ltb, append_assoc, lt→ltb, le→ltb, ne→==,
}
use amd_ibs_toolkit.Driver.Device.{Sample, Kernel, Sys, Log, ok}
use amd_ibs_toolkit.Driver.Interrupt.{put_sample, store}
use amd_ibs_toolkit.Driver.Fops.{slots, do_ibs_read_at}
use amd_ibs_toolkit.Driver.Ring.{next_slot, window, contents, Leads, IsValid, delivered}
use amd_ibs_toolkit.Driver.Ring.Window.{window_around, Leads-next}
use amd_ibs_toolkit.Driver.Ring.Put.{put_sample-eq, stored}
use amd_ibs_toolkit.Driver.Ring.Copy.{min-bytes, is_zero-bytes, div-bytes, read_wrapped-eq}

-- A write behind the entries leaves them alone.
window-store_behind :
    (buf : ℕ → Sample) (cap : ℕ) (x : Sample) (n h i : ℕ)
    → h < cap
    → n < cap
    → i < cap
    → Leads cap h n i
    → window (store buf i x) cap h n ≡ window buf cap h n
window-store_behind buf cap x zero h i hh hn hi at = refl
window-store_behind buf cap x (suc n) h i hh hn hi at =
    let f : (i == h) ≡ false = ground arith in
    ap₂ ◌∷◌ (rw f) (
      window-store_behind buf cap x n (next_slot cap h) i (ground arith) (omega arith) hi
        (Leads-next cap h n i hh hi at))

module _ (k : Kernel) (works : (log : Log) (bytes : ℕ) → k.copy_fails log bytes ≡ false) where
  race_stored :
      (x : Sample) (s : Sys)
      → IsValid s.dev
      → s.dev.wr < s.dev.rd
      → s.dev.entries + 1 < s.dev.capacity
      → let n = s.dev.entries + 1 in
        let (ret, s') =
          do_ibs_read_at k s.dev.rd s.dev.wr n
            (n * s.dev.entry_size)
            (record s { dev = stored x s.dev }) in
        (ret ≡ ok (n * s.dev.entry_size))
        × (delivered s'.log ≡ delivered s.log ++ contents s.dev)
        × (contents s'.dev ≡ [])
  unfolding do_ibs_read_at
  race_stored x s v behind room =
      let n = s.dev.entries + 1 in
      let late = record s { dev = stored x s.dev } in
      let e = s.dev.capacity - s.dev.rd in
      let pos = v.entry_pos in
      let same : min n n ≡ n = omega arith in
      let all : min n e ≡ e = omega (arith, v) in
      let rest : min (n - e) s.dev.wr ≡ s.dev.wr = omega (arith, v) in
      let past : ltb e n ≡ true = lt→ltb e n (omega (arith, v)) in
      let nonzero : (n * s.dev.entry_size == 0) ≡ false =
        is_zero-bytes s.dev.entry_size pos n ∙ ne→== n 0 (λ z. omega (arith, z)) in
      let emptied : n - n ≡ 0 = omega arith in
      let buf = late.dev.buf in
      rw
        (
          min-bytes s.dev.entry_size pos n n,
          same,
          nonzero,
          le→ltb s.dev.rd s.dev.wr (omega arith),
          read_wrapped-eq k works s.dev.rd s.dev.wr n late pos,
          past,
          all,
          rest,
          div-bytes s.dev.entry_size pos n,
          emptied,
        )
        (
          refl,
          append_assoc (delivered s.log) (slots buf s.dev.rd e) (slots buf 0 s.dev.wr)
              ∙ ap (λ xs. delivered s.log ++ xs)
                  (sym (
                      window_around buf s.dev.capacity e s.dev.wr s.dev.entries s.dev.rd
                        (omega (arith, v)) (omega (arith, v)) (omega (arith, v)) (omega (arith, v)))
                    ∙ window-store_behind s.dev.buf s.dev.capacity x s.dev.entries s.dev.rd s.dev.wr
                        v.rd_in v.free_slot v.wr_in v.occupied),
          refl,
        )

  -- On a valid ring that goes round the end and has room for one more, if no copy fails: when
  -- a sample is stored after `wr` was read and before `entries` is, a read of all the entries
  -- reports one more than it copies, and takes the new sample off without delivering it.
  pub late_sample-lost :
      (x : Sample) (s : Sys)
      → IsValid s.dev
      → s.dev.wr < s.dev.rd
      → s.dev.entries + 1 < s.dev.capacity
      → let n = s.dev.entries + 1 in
        let late = record s { dev = put_sample x s.dev } in
        let (ret, s') =
          do_ibs_read_at k s.dev.rd s.dev.wr late.dev.entries (n * s.dev.entry_size) late in
        (ret ≡ ok (n * s.dev.entry_size))
        × (delivered s'.log ≡ delivered s.log ++ contents s.dev)
        × (contents s'.dev ≡ [])
  late_sample-lost x s v behind room =
      rw (put_sample-eq x v, ne→== (s.dev.entries + 1) s.dev.capacity (λ e. omega (arith, e)))
        (race_stored x s v behind room)
