-- ===== src/Driver/Ring/Read.antt =====
-- `do_ibs_read` of driver/ibs-fops.c, against the queue of waiting samples.
use amd_ibs_toolkit.Base.{ℕ, ◌+◌, ◌-◌, ◌*◌, ◌%◌, ◌≤◌, ◌<◌, ◌≡◌, refl, sym, arith, ap, ◌∙◌}
use amd_ibs_toolkit.Base.{false, ◌++◌, ◌==◌, ltb, min, take}
use amd_ibs_toolkit.Base.{
  drop, Bool-cases, ==_iff, inl, inr, append_assoc, append-nil, ltb→lt, ne→==,
}
use amd_ibs_toolkit.Driver.Device.{IbsDev, Kernel, Sys, Log, Ret, ok, copied, emit}
use amd_ibs_toolkit.Driver.Fops.{slots, read_wrapped, do_ibs_read_at, do_ibs_read}
use amd_ibs_toolkit.Driver.Ring.{window, contents, Leads, IsValid, delivered}
use amd_ibs_toolkit.Driver.Ring.Window.{window-slots, window_around, take-window, drop-window}
use native.Mathlib.Nat.{mod-lt}
use amd_ibs_toolkit.Driver.Ring.Copy.{
  min-bytes, is_zero-bytes, Leads-mod, ltb→ge, taken, copy_to_user-eq, consume-eq, read_wrapped-eq,
}

module _ (k : Kernel) (works : (log : Log) (bytes : ℕ) → k.copy_fails log bytes ≡ false) where
  -- What a read of `n` entries leaves behind.
  record Took (n : ℕ) (s : Sys) (out : Ret × Sys) : Type 0 where
    value : out.0 ≡ ok (n * s.dev.entry_size)
    dev : out.1.dev ≡ taken n s.dev
    data_out : delivered out.1.log ≡ delivered s.log ++ window s.dev.buf s.dev.capacity s.dev.rd n

  read_wrapped-Took :
      (n : ℕ) (s : Sys)
      → IsValid s.dev
      → 0 < n
      → n ≤ s.dev.entries
      → s.dev.wr ≤ s.dev.rd
      → Took n s (read_wrapped k s.dev.rd s.dev.wr (n * s.dev.entry_size) s)
  read_wrapped-Took n s v some le wrapped =
      let e = s.dev.capacity - s.dev.rd in
      elim (Bool-cases (ltb e n)) [
        | inl past ↦
            let p : e < n = ltb→lt _ _ past in
            let all : min n e ≡ e = omega arith in
            let rest : min (n - e) s.dev.wr ≡ n - e = omega (arith, v) in
            rw
              (
                read_wrapped-eq k works s.dev.rd s.dev.wr n s v.entry_pos,
                past,
                all,
                rest,
                consume-eq k works s.dev.rd n
                    (emit (copied (slots s.dev.buf 0 (n - e)))
                      (emit (copied (slots s.dev.buf s.dev.rd e)) s))
                    v.entry_pos,
              )
              (record {
                value = refl;
                dev = refl;
                data_out =
                    append_assoc (delivered s.log) (slots s.dev.buf s.dev.rd e)
                      (slots s.dev.buf 0 (n - e))
                    ∙ ap (λ xs. delivered s.log ++ xs)
                        (sym (
                          window_around s.dev.buf s.dev.capacity e (n - e) n s.dev.rd (omega arith)
                            (omega arith) (omega arith) (omega arith)));
              })
        | inr within ↦
            let p : n ≤ e = ground arith in
            let all : min n e ≡ n = omega arith in
            rw
              (
                read_wrapped-eq k works s.dev.rd s.dev.wr n s v.entry_pos,
                within,
                all,
                consume-eq k works s.dev.rd n (emit (copied (slots s.dev.buf s.dev.rd n)) s)
                    v.entry_pos,
              )
              (record {
                value = refl;
                dev = refl;
                data_out =
                    ap (λ xs. delivered s.log ++ xs)
                      (sym (window-slots s.dev.buf s.dev.capacity n s.dev.rd (omega arith)));
              })
      ]

  do_ibs_read-none :
      (m : ℕ) (s : Sys)
      → IsValid s.dev
      → min m s.dev.entries ≡ 0
      → do_ibs_read k (m * s.dev.entry_size) s ≡ (ok 0, s)
  unfolding do_ibs_read do_ibs_read_at
  do_ibs_read-none m s v e = rw (
    min-bytes s.dev.entry_size v.entry_pos m s.dev.entries,
    e,
    is_zero-bytes s.dev.entry_size v.entry_pos 0,
  )

  do_ibs_read-Took :
      (m : ℕ) (s : Sys)
      → IsValid s.dev
      → 0 < min m s.dev.entries
      → Took (min m s.dev.entries) s (do_ibs_read k (m * s.dev.entry_size) s)
  unfolding do_ibs_read do_ibs_read_at
  do_ibs_read-Took m s v some =
      let n : ℕ = min m s.dev.entries in
      let pos = v.entry_pos in
      let nonzero : (n * s.dev.entry_size == 0) ≡ false =
        is_zero-bytes s.dev.entry_size pos n ∙ ne→== n 0 (λ e. omega arith) in
      elim (Bool-cases (ltb s.dev.rd s.dev.wr)) [
        | inl ahead ↦
            rw
              (
                min-bytes s.dev.entry_size pos m s.dev.entries,
                nonzero,
                ahead,
                copy_to_user-eq k works s.dev.rd n s pos,
                consume-eq k works s.dev.rd n (emit (copied (slots s.dev.buf s.dev.rd n)) s) pos,
              )
              (record {
                value = refl;
                dev = refl;
                data_out =
                    ap (λ xs. delivered s.log ++ xs)
                      (sym (
                        window-slots s.dev.buf s.dev.capacity n s.dev.rd
                          (omega (arith, v.occupied, ltb→lt _ _ ahead))));
              })
        | inr wrapped ↦
            rw (min-bytes s.dev.entry_size pos m s.dev.entries, nonzero, wrapped)
              (read_wrapped-Took n s v some (omega arith) (ltb→ge _ _ wrapped))
      ]

  drop-contents :
      (n : ℕ) {dev : IbsDev}
      → IsValid dev
      → n ≤ dev.entries
      → drop n (contents dev)
        ≡ window dev.buf dev.capacity ((dev.rd + n) % dev.capacity) (dev.entries - n)
  drop-contents n {dev} v le =
      drop-window dev.buf dev.capacity n dev.entries dev.rd ((dev.rd + n) % dev.capacity) le
        (omega (arith, v)) v.rd_in (mod-lt _ (omega (arith, v)))
        (Leads-mod dev.capacity dev.rd n v.rd_in (omega (arith, v)))

Leads-taken :
    (cap h n e i w : ℕ)
    → h < cap
    → w < cap
    → i < cap
    → n ≤ e
    → Leads cap h e w
    → Leads cap h n i
    → Leads cap i (e - n) w
Leads-taken cap h n e i w hh hw hi le at to = ground arith

pub taken-IsValid : (n : ℕ) {dev : IbsDev} → IsValid dev → n ≤ dev.entries → IsValid (taken n dev)
taken-IsValid n {dev} v le = record {
  entry_pos = v.entry_pos;
  fits = v.fits;
  sized = v.sized;
  wr_in = v.wr_in;
  rd_in = mod-lt _ (omega (arith, v));
  free_slot = omega (arith, v);
  occupied =
      Leads-taken dev.capacity dev.rd n dev.entries ((dev.rd + n) % dev.capacity) dev.wr v.rd_in
        v.wr_in (mod-lt _ (omega (arith, v))) le v.occupied
        (Leads-mod dev.capacity dev.rd n v.rd_in (omega (arith, v)));
}

-- On a valid ring, if no copy to the user fails, a read of `m` entries returns the bytes of as
-- many samples as there are, up to `m`, delivers the oldest ones in order, leaves the rest
-- waiting and leaves a valid ring.
pub do_ibs_read_refines :
    (k : Kernel) (m : ℕ) (s : Sys)
    → ((log : Log) (bytes : ℕ) → k.copy_fails log bytes ≡ false)
    → IsValid s.dev
    → let n = min m s.dev.entries in
      let (ret, s') = do_ibs_read k (m * s.dev.entry_size) s in
      (ret ≡ ok (n * s.dev.entry_size))
      × (delivered s'.log ≡ delivered s.log ++ take n (contents s.dev))
      × (contents s'.dev ≡ drop n (contents s.dev))
      × IsValid s'.dev
do_ibs_read_refines k m s works v = elim (Bool-cases (min m s.dev.entries == 0)) [
  | inl nothing ↦
      let e : min m s.dev.entries ≡ 0 = (==_iff _ _).0 nothing in
      rw (do_ibs_read-none k works m s v e, e) (ap ok (omega arith), sym (append-nil _), refl, v)
  | inr some ↦
      let n : ℕ = min m s.dev.entries in
      let le : n ≤ s.dev.entries = omega arith in
      let took = do_ibs_read-Took k works m s v (ground arith) in
      (
        took.value,
        took.data_out
            ∙ ap (λ xs. delivered s.log ++ xs)
                (sym (take-window s.dev.buf s.dev.capacity n s.dev.entries s.dev.rd le)),
        ap contents took.dev ∙ sym (drop-contents k works n v le),
        rw took.dev (taken-IsValid n v le),
      )
]

-- Such a read changes neither the number of lost samples nor the capacity.
pub do_ibs_read_keeps :
    (k : Kernel) (m : ℕ) (s : Sys)
    → ((log : Log) (bytes : ℕ) → k.copy_fails log bytes ≡ false)
    → IsValid s.dev
    → let dev = (do_ibs_read k (m * s.dev.entry_size) s).1.dev in
      (dev.lost ≡ s.dev.lost) × (dev.capacity ≡ s.dev.capacity)
do_ibs_read_keeps k m s works v = elim (Bool-cases (min m s.dev.entries == 0)) [
  | inl nothing ↦
      let e : min m s.dev.entries ≡ 0 = (==_iff _ _).0 nothing in
      rw (do_ibs_read-none k works m s v e) (refl, refl)
  | inr some ↦
      let took = do_ibs_read-Took k works m s v (ground arith) in
      (ap (λ d. d.lost) took.dev, ap (λ d. d.capacity) took.dev)
]
