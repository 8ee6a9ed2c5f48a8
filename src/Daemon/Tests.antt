-- ===== src/Daemon/Tests.antt =====
-- The theorems on the daemon tool at concrete values.
use amd_ibs_toolkit.Base.{
  ℕ, ◌≡◌, refl, arith, true, false, not, ◌&&◌, ◌==◌, none, some, [], ◌∷◌, map,
}
use amd_ibs_toolkit.Text.{codes}
use amd_ibs_toolkit.Library.Options
use amd_ibs_toolkit.Library.Initialize
use amd_ibs_toolkit.Library.Tests.{op, system, library}
use amd_ibs_toolkit.Daemon.Rows.{write_op_samples}
use amd_ibs_toolkit.Daemon.Rows.Read.{values}
use amd_ibs_toolkit.Daemon.Rows.File.{read_file, read_file-write_op_samples}
use amd_ibs_toolkit.Daemon.Cores.{fill_out_online_cores}
use amd_ibs_toolkit.Daemon.Cores.Ranges.{one, span, listed}
use amd_ibs_toolkit.Daemon.Cores.Listed.{fill_out_online_cores-listed}
use amd_ibs_toolkit.Daemon.Main
use amd_ibs_toolkit.Daemon.Main.Reserved.{reserve_last-listed, main-stops_daemon, Stopped}

read_file-write_op_samples_example :
    read_file
      (write_op_samples
        (codes "host")
        (op ∷ op ∷ [])
        (record { header_written = false; file = [] })).file
    ≡ map values (op ∷ op ∷ [])
read_file-write_op_samples_example =
    read_file-write_op_samples (codes "host") op (op ∷ []) refl refl

fill_out_online_cores-listed_example :
    let c = fill_out_online_cores 8 4 (codes "0-2,5\n") in
    (c.after_previous ≡ 6)
    × ((j : ℕ)
        → (c.cpu_list j ≡ listed (span 0 2) (one 5 ∷ []) j)
          × (c.procs j ≡ listed (span 0 2) (one 5 ∷ []) j))
fill_out_online_cores-listed_example = fill_out_online_cores-listed 8 (span 0 2) (one 5 ∷ []) refl

-- Of sixteen CPUs the tool finds three.
sixteen :
    map (fill_out_online_cores 16 16 (codes "0-15\n")).cpu_list (0 ∷ 1 ∷ 2 ∷ 5 ∷ 15 ∷ [])
    ≡ true ∷ true ∷ false ∷ true ∷ false ∷ []
unfolding fill_out_online_cores
sixteen = refl

abbrev machine : Main.Machine
machine = record {
  num_cpus = 4;
  num_online_cpus = 4;
  online = codes "0-3\n";
  forked = some 77;
  daemon_list_ptr = 1;
  write_op_ptr = 2;
}

reserve_last-listed_example :
    let plan = Main.reserve_last (fill_out_online_cores 4 4 (codes "0-3\n")) in
    let told = (Initialize.start_of 4 (Main.daemon_options machine plan 5) library).options in
    let shared = not (1 == 3) && listed (span 0 3) [] 1 in
    (plan.procs 1 ≡ shared)
    × (not (told.ibs_cpu_list 1 == 0) ≡ shared)
    × (plan.daemon_cpu_list 1 ≡ (1 == 3))
reserve_last-listed_example =
    reserve_last-listed machine 5 library (span 0 3) [] 1 refl refl refl (omega arith)

abbrev files : Main.Files
files = record { global_op_file = some 5; global_work_dir = none }

abbrev plan : Main.Plan
plan = Main.reserve_last (fill_out_online_cores 4 4 (codes "0-3\n"))

main-stops_daemon_example : Stopped 77 (Main.main system machine files library).1
unfolding Main.main fill_out_online_cores Initialize.ibs_initialize Options.ibs_set_option
main-stops_daemon_example =
    main-stops_daemon system machine files library 5 77 plan.procs refl refl (omega arith) refl
