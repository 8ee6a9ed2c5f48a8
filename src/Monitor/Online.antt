-- ===== src/Monitor/Online.antt =====
-- `fill_out_online_cores` of tools/ibs_monitor/ibs_monitor.c. The line of the file holds numbers,
-- commas and dashes; `getline` is taken to return it.
use amd_ibs_toolkit.Base.{ℕ, ◌+◌, ◌-◌, Bool, false, not, ◌&&◌, ◌||◌, ◌==◌, leb, ltb, if◌then◌else◌}
use amd_ibs_toolkit.Base.{[], ◌∷◌}
use amd_ibs_toolkit.Text.{Bytes, number}

-- The local variables and `cpu_list`; `after_previous` is `previous_cpu + 1`.
pub record Cores : Type 0 where
  pub after_previous : ℕ
  pub num_online_seen : ℕ
  pub cpu_list : ℕ → Bool

abbrev mark : ℕ → ℕ → (ℕ → Bool) → ℕ → Bool
mark first last cpu_list j = (leb first j && ltb j last) || cpu_list j

-- At a dash: the CPUs after the previous one and before the next one.
abbrev fill_range : ℕ → Cores → Cores
fill_range next_cpu c = record {
  after_previous = next_cpu + 1;
  num_online_seen = c.num_online_seen + (next_cpu - c.after_previous);
  cpu_list = mark c.after_previous next_cpu c.cpu_list;
}

-- At any other character but a comma: the CPU that `atoi` reads from there on.
abbrev fill_one : ℕ → Cores → Cores
fill_one cpu_num c = record {
  after_previous = cpu_num + 1;
  num_online_seen = c.num_online_seen + 1;
  cpu_list = mark cpu_num (cpu_num + 1) c.cpu_list;
}

-- A number, and not one of a CPU that there is.
abbrev not_a_cpu : ℕ → ℕ → ℕ → Bool
not_a_cpu ch cpu_num num_cpus = not (ch == 45) && leb num_cpus cpu_num

-- The loop over the characters of the line.
unfoldable pub fill_from : ℕ → ℕ → Bytes → Cores → Cores
fill_from num_cpus online [] c = c
fill_from num_cpus online (ch ∷ rest) c =
    let range = fill_range (number 10 0 rest) c in
    let cpu_num = number 10 0 (ch ∷ rest) in
    let single = fill_one cpu_num c in
    let next = if ch == 45 then range else single in
    let later = fill_from num_cpus online rest (if ch == 44 then c else next) in
    if ch == 10
    then c
    else if ch == 44
    then later
    else if not_a_cpu ch cpu_num num_cpus
    then c
    else if leb online next.num_online_seen
    then next
    else later

-- `cpu_list` starts cleared, and is filled without the file where every CPU is online.
unfoldable pub fill_out_online_cores : ℕ → ℕ → Bytes → ℕ → Bool
unfolding fill_from
fill_out_online_cores num_cpus num_online_cpus line cpu =
    let start : Cores = record {
      after_previous = 0;
      num_online_seen = 0;
      cpu_list = λ (i : ℕ). false;
    } in
    if num_cpus == num_online_cpus
    then ltb cpu num_cpus
    else (fill_from num_cpus num_online_cpus line start).cpu_list cpu
