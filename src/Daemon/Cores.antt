-- ===== src/Daemon/Cores.antt =====
-- `fill_out_online_cores` of tools/ibs_daemon/ibs_daemon.c. The line of the file is taken to be
-- read, with digits, commas and dashes, and a digit behind each dash.
pub mod Ranges
pub mod Listed
use amd_ibs_toolkit.Base.{ℕ, ◌+◌, ◌-◌, Bool, false, ◌&&◌, ◌||◌, ◌==◌, leb, ltb, if◌then◌else◌}
use amd_ibs_toolkit.Base.{[], ◌∷◌}
use amd_ibs_toolkit.Text.{Bytes}

-- The local variables, `cpu_list` and `procs`; `after_previous` is `previous_cpu + 1`.
pub record Cores : Type 0 where
  pub after_previous : ℕ
  pub num_online_seen : ℕ
  pub cpu_list : ℕ → Bool
  pub procs : ℕ → Bool

abbrev set_range : ℕ → ℕ → (ℕ → Bool) → ℕ → Bool
set_range first last list j = (leb first j && ltb j last) || list j

-- At a dash: the CPUs between the previous one and the next one.
abbrev pub fill_range : ℕ → Cores → Cores
fill_range next_cpu c = record {
  after_previous = next_cpu + 1;
  num_online_seen = c.num_online_seen + (next_cpu - c.after_previous);
  cpu_list = set_range c.after_previous next_cpu c.cpu_list;
  procs = set_range c.after_previous next_cpu c.procs;
}

abbrev pub fill_one : ℕ → Cores → Cores
fill_one cpu_num c = record {
  after_previous = cpu_num + 1;
  num_online_seen = c.num_online_seen + 1;
  cpu_list = set_range cpu_num (cpu_num + 1) c.cpu_list;
  procs = set_range cpu_num (cpu_num + 1) c.procs;
}

-- The character at `i + 1`, less '0'.
abbrev pub next_digit : Bytes → ℕ
next_digit [] = 0
next_digit (ch ∷ rest) = ch - 48

-- The loop over the characters of the line.
unfoldable pub fill_from : ℕ → ℕ → Bytes → Cores → Cores
fill_from num_cpus num_online_cpus [] c = c
fill_from num_cpus num_online_cpus (ch ∷ rest) c =
    let cpu_num = ch - 48 in
    let next = if ch == 45 then fill_range (next_digit rest) c else fill_one cpu_num c in
    let later = fill_from num_cpus num_online_cpus rest (if ch == 44 then c else next) in
    if ch == 10
    then c
    else if ch == 44
    then later
    else if ch == 45
    then (if leb num_online_cpus next.num_online_seen then next else later)
    else if ltb cpu_num num_cpus
    then (if leb num_online_cpus next.num_online_seen then next else later)
    else c

-- The lists are cleared before.
abbrev pub no_cores : Cores
no_cores = record {
  after_previous = 0;
  num_online_seen = 0;
  cpu_list = λ (i : ℕ). false;
  procs = λ (i : ℕ). false;
}

unfoldable pub fill_out_online_cores : ℕ → ℕ → Bytes → Cores
unfolding fill_from
fill_out_online_cores num_cpus num_online_cpus line =
    fill_from num_cpus num_online_cpus line no_cores
