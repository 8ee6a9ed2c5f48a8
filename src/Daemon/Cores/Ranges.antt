-- ===== src/Daemon/Cores/Ranges.antt =====
-- `fill_out_online_cores` of tools/ibs_daemon/ibs_daemon.c on the lists of ranges that the kernel
-- prints, as long as all CPU numbers have one digit.
use amd_ibs_toolkit.Base.{
  ℕ, ◌+◌, ◌-◌, ◌<◌, ◌≤◌, ◌≡◌, refl, arith, ap, ◌∙◌, Bool, true, false, ◌&&◌, ◌||◌, ◌==◌, leb, ltb,
  if◌then◌else◌,
}
use amd_ibs_toolkit.Base.{List, [], ◌∷◌, ◌++◌}
use amd_ibs_toolkit.Text.{Bytes}
use amd_ibs_toolkit.Daemon.Cores.{Cores, fill_range, fill_one, fill_from, next_digit}

-- The CPUs of a line: a number, or two with a dash between.
pub data Range : Type 0 where
  one : ℕ → Range
  span : ℕ → ℕ → Range

abbrev pub print_range : Range → Bytes
print_range (one n) = (48 + n) ∷ []
print_range (span a b) = (48 + a) ∷ 45 ∷ (48 + b) ∷ []

-- The line, from a first range on.
abbrev pub print_ranges : Range → List Range → Bytes
print_ranges r [] = print_range r ++ (10 ∷ [])
print_ranges r (s ∷ rest) = print_range r ++ (44 ∷ print_ranges s rest)

abbrev pub covers : Range → ℕ → Bool
covers (one n) j = j == n
covers (span a b) j = leb a j && leb j b

abbrev pub listed : Range → List Range → ℕ → Bool
listed r [] j = covers r j
listed r (s ∷ rest) j = covers r j || listed s rest j

abbrev pub size : Range → ℕ
size (one n) = 1
size (span a b) = b - a + 1

abbrev pub count : Range → List Range → ℕ
count r [] = size r
count r (s ∷ rest) = size r + count s rest

abbrev pub end_of : Range → ℕ
end_of (one n) = n
end_of (span a b) = b

abbrev pub last_of : Range → List Range → ℕ
last_of r [] = end_of r
last_of r (s ∷ rest) = last_of s rest

-- Numbers of one digit, of CPUs that there are, and spans that hold more than one.
abbrev pub is_small : ℕ → Range → Bool
is_small num_cpus (one n) = ltb n 10 && ltb n num_cpus
is_small num_cpus (span a b) = ltb a b && ltb b 10 && ltb b num_cpus

abbrev pub all_small : ℕ → Range → List Range → Bool
all_small num_cpus r [] = is_small num_cpus r
all_small num_cpus r (s ∷ rest) = is_small num_cpus r && all_small num_cpus s rest

-- What a range does to the variables.
abbrev pub add_range : Range → Cores → Cores
add_range (one n) c = fill_one n c
add_range (span a b) c = fill_one b (fill_range b (fill_one a c))

fill_from-digit :
    (num_cpus total n : ℕ) (rest : Bytes) (c : Cores)
    → n < 10
    → n < num_cpus
    → fill_from num_cpus total ((48 + n) ∷ rest) c ≡ (
        if leb total (c.num_online_seen + 1)
        then fill_one n c
        else fill_from num_cpus total rest (fill_one n c))
unfolding fill_from
fill_from-digit num_cpus total n rest c digit there =
    let not_end : (48 + n == 10) ≡ false = ground arith in
    let not_comma : (48 + n == 44) ≡ false = ground arith in
    let not_dash : (48 + n == 45) ≡ false = ground arith in
    let in_range : ltb n num_cpus ≡ true = ground (arith, there) in
    let digit_of : 48 + n - 48 ≡ n = omega arith in
    simp (not_end, not_comma, not_dash, digit_of, in_range) refl

fill_from-dash :
    (num_cpus total : ℕ) (rest : Bytes) (c : Cores)
    → let next = fill_range (next_digit rest) c in
      fill_from num_cpus total (45 ∷ rest) c
      ≡ (if leb total next.num_online_seen then next else fill_from num_cpus total rest next)
unfolding fill_from
fill_from-dash num_cpus total rest c = refl

pub fill_from-comma :
    (num_cpus total : ℕ) (rest : Bytes) (c : Cores)
    → fill_from num_cpus total (44 ∷ rest) c ≡ fill_from num_cpus total rest c
unfolding fill_from
fill_from-comma num_cpus total rest c = refl

-- The conditional where the number of online CPUs is not reached yet.
pub go_on : (total seen : ℕ) (x y : Cores) → seen < total → (if leb total seen then x else y) ≡ y
go_on total seen x y h = let low : leb total seen ≡ false = ground (arith, h) in rw low refl

pub fill_from-range :
    (num_cpus total : ℕ) (r : Range) (rest : Bytes) (c : Cores)
    → is_small num_cpus r ≡ true
    → c.num_online_seen + size r ≤ total
    → fill_from num_cpus total (print_range r ++ rest) c ≡ (
        if leb total (add_range r c).num_online_seen
        then add_range r c
        else fill_from num_cpus total rest (add_range r c))
fill_from-range num_cpus total (one n) rest c small room =
    fill_from-digit num_cpus total n rest c (ground (arith, small)) (ground (arith, small))
fill_from-range num_cpus total (span a b) rest c small room =
    let digits : Bytes = 45 ∷ (48 + b) ∷ rest in
    let digit_of : 48 + b - 48 ≡ b = omega arith in
    let between = fill_range b (fill_one a c) in
    fill_from-digit num_cpus total a digits c (ground (arith, small)) (ground (arith, small))
    ∙ go_on total (c.num_online_seen + 1) _ (fill_from num_cpus total digits (fill_one a c))
        (ground (arith, small, room))
    ∙ fill_from-dash num_cpus total ((48 + b) ∷ rest) (fill_one a c)
    ∙ ap
        (λ n.
          let next = fill_range n (fill_one a c) in
          if leb total next.num_online_seen
          then next
          else fill_from num_cpus total ((48 + b) ∷ rest) next)
        digit_of
    ∙ go_on total between.num_online_seen between _ (ground (arith, small, room))
    ∙ fill_from-digit num_cpus total b rest between (ground (arith, small)) (ground (arith, small))
