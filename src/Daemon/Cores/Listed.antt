-- ===== src/Daemon/Cores/Listed.antt =====
-- `fill_out_online_cores` of tools/ibs_daemon/ibs_daemon.c finds the CPUs of the line.
use amd_ibs_toolkit.Base.{ℕ, ◌+◌, ◌<◌, ◌≤◌, ◌≡◌, refl, arith, ◌∙◌, true, ◌||◌, leb, if◌then◌else◌}
use amd_ibs_toolkit.Base.{List, [], ◌∷◌}
use amd_ibs_toolkit.Daemon.Cores.{Cores, fill_from, no_cores, fill_out_online_cores}
use amd_ibs_toolkit.Daemon.Cores.Ranges.{
  Range, one, span, print_ranges, covers, listed, size, count, last_of, is_small, all_small,
  add_range, fill_from-range, fill_from-comma, go_on,
}

abbrev add_ranges : Range → List Range → Cores → Cores
add_ranges r [] c = add_range r c
add_ranges r (s ∷ rest) c = add_ranges s rest (add_range r c)

seen-add_range :
    (num_cpus : ℕ) (r : Range) (c : Cores)
    → is_small num_cpus r ≡ true
    → (add_range r c).num_online_seen ≡ c.num_online_seen + size r
seen-add_range num_cpus (one n) c h = refl
seen-add_range num_cpus (span a b) c h = ground (arith, h)

count-positive : (r : Range) (rest : List Range) → 0 < count r rest
count-positive (one n) [] = omega arith
count-positive (span a b) [] = omega arith
count-positive (one n) (s ∷ rest) = omega arith
count-positive (span a b) (s ∷ rest) = omega arith

stop_now : (total seen : ℕ) (x y : Cores) → total ≤ seen → (if leb total seen then x else y) ≡ x
stop_now total seen x y h = let full : leb total seen ≡ true = ground (arith, h) in rw full refl

fill_from-ranges :
    (num_cpus total : ℕ) (r : Range) (rest : List Range) (c : Cores)
    → all_small num_cpus r rest ≡ true
    → c.num_online_seen + count r rest ≡ total
    → fill_from num_cpus total (print_ranges r rest) c ≡ add_ranges r rest c
fill_from-ranges num_cpus total r [] c small room =
    let seen = seen-add_range num_cpus r c small in
    fill_from-range num_cpus total r (10 ∷ []) c small (omega (arith, room))
    ∙ stop_now total (add_range r c).num_online_seen (add_range r c) _ (omega (arith, room, seen))
fill_from-ranges num_cpus total r (s ∷ rest) c small room =
    let first : is_small num_cpus r ≡ true = ground (arith, small) in
    let later : all_small num_cpus s rest ≡ true = ground (arith, small) in
    let seen = seen-add_range num_cpus r c first in
    let more = count-positive s rest in
    fill_from-range num_cpus total r (44 ∷ print_ranges s rest) c first (omega (arith, room))
    ∙ go_on total (add_range r c).num_online_seen (add_range r c) _
        (omega (arith, room, seen, more))
    ∙ fill_from-comma num_cpus total (print_ranges s rest) (add_range r c)
    ∙ fill_from-ranges num_cpus total s rest (add_range r c) later (omega (arith, room, seen))

cpu_list-add_range :
    (num_cpus : ℕ) (r : Range) (c : Cores) (j : ℕ)
    → is_small num_cpus r ≡ true
    → (add_range r c).cpu_list j ≡ (covers r j || c.cpu_list j)
cpu_list-add_range num_cpus (one n) c j h = ground arith
cpu_list-add_range num_cpus (span a b) c j h = ground (arith, h)

procs-add_range :
    (num_cpus : ℕ) (r : Range) (c : Cores) (j : ℕ)
    → is_small num_cpus r ≡ true
    → (add_range r c).procs j ≡ (covers r j || c.procs j)
procs-add_range num_cpus (one n) c j h = ground arith
procs-add_range num_cpus (span a b) c j h = ground (arith, h)

-- The variables agree with a line of ranges, over what was set before.
record Shows (r : Range) (rest : List Range) (c d : Cores) : Type 0 where
  after_previous : d.after_previous ≡ last_of r rest + 1
  cpu_list : (j : ℕ) → d.cpu_list j ≡ (listed r rest j || c.cpu_list j)
  procs : (j : ℕ) → d.procs j ≡ (listed r rest j || c.procs j)

add_ranges-Shows :
    (num_cpus : ℕ) (r : Range) (rest : List Range) (c : Cores)
    → all_small num_cpus r rest ≡ true
    → Shows r rest c (add_ranges r rest c)
add_ranges-Shows num_cpus (one n) [] c h = record {
  after_previous = refl;
  cpu_list = λ j. cpu_list-add_range num_cpus (one n) c j h;
  procs = λ j. procs-add_range num_cpus (one n) c j h;
}
add_ranges-Shows num_cpus (span a b) [] c h = record {
  after_previous = refl;
  cpu_list = λ j. cpu_list-add_range num_cpus (span a b) c j h;
  procs = λ j. procs-add_range num_cpus (span a b) c j h;
}
add_ranges-Shows num_cpus r (s ∷ rest) c h =
    let first : is_small num_cpus r ≡ true = ground (arith, h) in
    let later = add_ranges-Shows num_cpus s rest (add_range r c) (ground (arith, h)) in
    record {
      after_previous = later.after_previous;
      cpu_list = λ j. ground (arith, later.cpu_list j, cpu_list-add_range num_cpus r c j first);
      procs = λ j. ground (arith, later.procs j, procs-add_range num_cpus r c j first);
    }

-- On a line that the kernel prints for the online CPUs, of single numbers and of spans, where all
-- numbers have one digit and as many CPUs are online as the line lists, the tool finds just the
-- CPUs that the line lists, in `cpu_list` and in `procs`, and the last of them.
pub fill_out_online_cores-listed :
    (num_cpus : ℕ) (r : Range) (rest : List Range)
    → all_small num_cpus r rest ≡ true
    → let c = fill_out_online_cores num_cpus (count r rest) (print_ranges r rest) in
      (c.after_previous ≡ last_of r rest + 1)
      × ((j : ℕ) → (c.cpu_list j ≡ listed r rest j) × (c.procs j ≡ listed r rest j))
unfolding fill_out_online_cores
fill_out_online_cores-listed num_cpus r rest h =
    let shown = add_ranges-Shows num_cpus r rest no_cores h in
    rw (fill_from-ranges num_cpus (count r rest) r rest no_cores h (omega arith))
      (shown.after_previous, λ j. (ground (arith, shown.cpu_list j), ground (arith, shown.procs j)))
