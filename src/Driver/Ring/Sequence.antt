-- ===== src/Driver/Ring/Sequence.antt =====
-- Sequences of stored samples and reads, against a queue that counts what it drops.
use amd_ibs_toolkit.Base.{ℕ, zero, suc, ◌+◌, ◌*◌, ◌≡◌, refl, arith, ap, ap₂, ◌∙◌, false, ◌==◌, min}
use amd_ibs_toolkit.Base.{
  List, [], ◌∷◌, ◌++◌, length, length-append, take, drop, if◌then◌else◌, Bool-cases, inl, inr,
}
use amd_ibs_toolkit.Driver.Device.{IbsDev, Kernel, Sys, Log, Sample}
use amd_ibs_toolkit.Driver.Interrupt.{put_sample}
use amd_ibs_toolkit.Driver.Fops.{do_ibs_read}
use amd_ibs_toolkit.Driver.Ring.{contents, IsValid, delivered}
use amd_ibs_toolkit.Driver.Ring.Put.{put_sample_refines, put_sample-IsValid, contents-length}
use amd_ibs_toolkit.Driver.Ring.Read.{do_ibs_read_refines, do_ibs_read_keeps}

-- An interrupt handler stores a sample, or a reader asks for a number of entries.
pub data Event : Type 0 where
  stored : Sample → Event
  asked : ℕ → Event

-- A queue of fewer than `cap` samples, with what has been taken out and how many were dropped.
pub record Queue : Type 0 where
  pub waiting : List Sample
  pub out : List Sample
  pub dropped : ℕ

abbrev pub queue_step : ℕ → Event → Queue → Queue
queue_step cap (stored x) q =
    if length q.waiting + 1 == cap
    then record q { dropped = q.dropped + 1 }
    else record q { waiting = q.waiting ++ (x ∷ []) }
queue_step cap (asked m) q = record q {
  waiting = drop m q.waiting;
  out = q.out ++ take m q.waiting;
}

abbrev pub queue_run : ℕ → List Event → Queue → Queue
queue_run cap [] q = q
queue_run cap (e ∷ events) q = queue_run cap events (queue_step cap e q)

unfoldable pub run_event : Kernel → Event → Sys → Sys
unfolding put_sample do_ibs_read
run_event k (stored x) s = record s { dev = put_sample x s.dev }
run_event k (asked m) s = (do_ibs_read k (m * s.dev.entry_size) s).1

unfoldable pub run_events : Kernel → List Event → Sys → Sys
unfolding run_event
run_events k [] s = s
run_events k (e ∷ events) s = run_events k events (run_event k e s)

-- The device and its readers as a queue.
abbrev pub observe : Sys → Queue
observe s = record { waiting = contents s.dev; out = delivered s.log; dropped = s.dev.lost }

put_sample_capacity : (x : Sample) (dev : IbsDev) → (put_sample x dev).capacity ≡ dev.capacity
unfolding put_sample
put_sample_capacity x dev = ground arith

take-min {ℓ} : {A : Type ℓ} (m n : ℕ) (xs : List A) → length xs ≡ n → take (min m n) xs ≡ take m xs
take-min zero n xs h = let e : min 0 n ≡ 0 = omega arith in rw e refl
take-min (suc m) n [] h = let e : min (suc m) n ≡ 0 = omega (arith, h) in rw e refl
take-min (suc m) zero (x ∷ xs) h = absurd (omega (arith, h))
take-min (suc m) (suc n) (x ∷ xs) h =
    let e : min (suc m) (suc n) ≡ suc (min m n) = omega arith in
    rw e (ap (λ ys. x ∷ ys) (take-min m n xs (omega (arith, h))))

drop-min {ℓ} : {A : Type ℓ} (m n : ℕ) (xs : List A) → length xs ≡ n → drop (min m n) xs ≡ drop m xs
drop-min zero n xs h = let e : min 0 n ≡ 0 = omega arith in rw e refl
drop-min (suc m) n [] h = let e : min (suc m) n ≡ 0 = omega (arith, h) in rw e refl
drop-min (suc m) zero (x ∷ xs) h = absurd (omega (arith, h))
drop-min (suc m) (suc n) (x ∷ xs) h =
    let e : min (suc m) (suc n) ≡ suc (min m n) = omega arith in
    rw e (drop-min m n xs (omega (arith, h)))

same_queue :
    {w w' o o' : List Sample} {d d' : ℕ}
    → w ≡ w'
    → o ≡ o'
    → d ≡ d'
    → Path Queue
        (record { waiting = w; out = o; dropped = d })
        (record { waiting = w'; out = o'; dropped = d' })
same_queue p q r = rw (p, q, r) refl

-- What an event does to a valid ring.
record Happened (e : Event) (s s' : Sys) : Type 0 where
  valid : IsValid s'.dev
  capacity : s'.dev.capacity ≡ s.dev.capacity
  view : observe s' ≡ queue_step s.dev.capacity e (observe s)

stored-Happened :
    (k : Kernel) (x : Sample) (s : Sys)
    → IsValid s.dev
    → Happened (stored x) s (run_event k (stored x) s)
unfolding run_event
stored-Happened k x s v =
    let p = put_sample_refines x v in
    record {
      valid = put_sample-IsValid x v;
      capacity = put_sample_capacity x s.dev;
      view = elim (Bool-cases (length (contents s.dev) + 1 == s.dev.capacity)) [
        | inl full ↦
            let same : contents (put_sample x s.dev) ≡ contents s.dev = p.0 ∙ rw full refl in
            rw full (same_queue same refl (omega (arith, p.1, ap length same)))
        | inr room ↦
            let more : contents (put_sample x s.dev) ≡ contents s.dev ++ (x ∷ []) =
              p.0 ∙ rw room refl in
            rw room (
              same_queue more refl
                (omega (arith, p.1, ap length more, length-append (contents s.dev) (x ∷ []))))
      ];
    }

asked-Happened :
    (k : Kernel) (m : ℕ) (s : Sys)
    → ((log : Log) (bytes : ℕ) → k.copy_fails log bytes ≡ false)
    → IsValid s.dev
    → Happened (asked m) s (run_event k (asked m) s)
unfolding run_event
asked-Happened k m s works v =
    let p = do_ibs_read_refines k m s works v in
    let kept = do_ibs_read_keeps k m s works v in
    record {
      valid = p.3;
      capacity = kept.1;
      view =
          same_queue (p.2 ∙ drop-min m s.dev.entries (contents s.dev) (contents-length s.dev))
            (p.1
              ∙ ap (λ ys. delivered s.log ++ ys)
                  (take-min m s.dev.entries (contents s.dev) (contents-length s.dev)))
            kept.0;
    }

-- Whatever order of stored samples and reads a valid ring goes through, if no copy to the user
-- fails, it acts like a queue of fewer than `capacity` samples: the reads deliver the samples that
-- were not dropped in the order in which they were stored, and the driver counts the others.
pub run_events-refines :
    (k : Kernel) (events : List Event) (s : Sys)
    → ((log : Log) (bytes : ℕ) → k.copy_fails log bytes ≡ false)
    → IsValid s.dev
    → observe (run_events k events s) ≡ queue_run s.dev.capacity events (observe s)
unfolding run_events
run_events-refines k [] s works v = refl
run_events-refines k (stored x ∷ events) s works v =
    let h = stored-Happened k x s v in
    run_events-refines k events (run_event k (stored x) s) works h.valid
    ∙ ap₂ (λ c q. queue_run c events q) h.capacity h.view
run_events-refines k (asked m ∷ events) s works v =
    let h = asked-Happened k m s works v in
    run_events-refines k events (run_event k (asked m) s) works h.valid
    ∙ ap₂ (λ c q. queue_run c events q) h.capacity h.view
