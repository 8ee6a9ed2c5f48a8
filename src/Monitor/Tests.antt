-- ===== src/Monitor/Tests.antt =====
-- The theorems on the monitor at a concrete processor and a concrete run.
use amd_ibs_toolkit.Base.{
  ℕ, ◌+◌, ◌*◌, ◌/◌, ◌≡◌, refl, arith, true, false, ◌==◌, if◌then◌else◌, none, some, List, [], ◌∷◌,
  ◌++◌, map, length,
}
use amd_ibs_toolkit.Text.{Bytes, codes}
use amd_ibs_toolkit.Driver.Device.{IbsOp, IbsFetch}
use amd_ibs_toolkit.Library.State.{System, some_ready}
use amd_ibs_toolkit.Library.Initialize.Descriptors.{closes}
use amd_ibs_toolkit.Decoder.Parse
use amd_ibs_toolkit.Decoder.Header.{output_op_header}
use amd_ibs_toolkit.Decoder.Entry.{output_op_entry}
use amd_ibs_toolkit.Decoder.Work.{do_op_work}
use amd_ibs_toolkit.Decoder.Stream.{decode_op_file}
use amd_ibs_toolkit.Decoder.Stream.Words.{encode_ops}
use amd_ibs_toolkit.Decoder.Stream.Lines.{concat}
use amd_ibs_toolkit.Monitor.Header.File.{decode_op_file-output_op_header}
use amd_ibs_toolkit.Monitor.Cpu.{Cpuid, cpu_family, cpu_model, check_amd_processor}
use amd_ibs_toolkit.Monitor.Cpu.{
  check_basic_ibs_support, check_ibs_op_support, check_ibs_fetch_support,
}
use amd_ibs_toolkit.Monitor.Online.{fill_out_online_cores}
use amd_ibs_toolkit.Monitor.Header
use amd_ibs_toolkit.Monitor.Header.RoundTrip.{op_features, parse_op_in_header-output_op_header}
use amd_ibs_toolkit.Monitor.Header.RoundTrip.{parse_fetch_in_header-output_fetch_header}
use amd_ibs_toolkit.Monitor.Header.Table.{do_op_work-aligned}
use amd_ibs_toolkit.Monitor.Sampling
use amd_ibs_toolkit.Monitor.Settings.{set_global_defaults, set_global_poll_percent}
use amd_ibs_toolkit.Monitor.Arguments
use amd_ibs_toolkit.Monitor.Arguments.Sound.{IsSound, parse_args-IsSound}
use amd_ibs_toolkit.Monitor.Program
use amd_ibs_toolkit.Monitor.Program.Counts.{main-ends}
use amd_ibs_toolkit.Monitor.Sampling.Statistics.{Counted}
use amd_ibs_toolkit.Monitor.Sampling.Descriptors.{occurs}

-- A processor of family 17h, model 1, with every bit of the IBS identifiers set.
abbrev zen : Cpuid
zen leaf =
    if leaf == 0
    then record { eax = 0xd; ebx = 0x68747541; ecx = 0x444D4163; edx = 0x69746E65 }
    else if leaf == 1
    then record { eax = 0x800f11; ebx = 0; ecx = 0; edx = 0 }
    else record { eax = 0x7ff; ebx = 0; ecx = 0x400; edx = 0 }

abbrev machine : List Bytes
machine =
    codes "AMD Processor Name: AMD Ryzen\n"
    ∷ codes "Memory Size: 15.6 GB\n"
    ∷ codes "Command line: ls -l \n"
    ∷ []

parse_op_in_header-output_op_header_example :
    Parse.parse_op_in_header (Header.op_header_lines zen machine) Parse.no_features
    ≡ op_features zen
unfolding Header.output_op_header check_amd_processor check_basic_ibs_support check_ibs_op_support
parse_op_in_header-output_op_header_example =
    parse_op_in_header-output_op_header zen machine (Header.op_header_lines zen machine) refl refl

parse_fetch_in_header-output_fetch_header_example :
    Parse.parse_fetch_in_header (Header.fetch_header_lines zen machine) Parse.no_features
    ≡ record Parse.no_features {
      family = cpu_family zen;
      model = cpu_model zen;
      fetch_ctl_ext = Header.deep_bit zen 9;
    }
unfolding Header.output_fetch_header check_amd_processor check_basic_ibs_support
    check_ibs_fetch_support
parse_fetch_in_header-output_fetch_header_example =
    parse_fetch_in_header-output_fetch_header zen machine (Header.fetch_header_lines zen machine)
      refl refl

abbrev op : IbsOp
op = record {
  op_ctl = 0x400;
  op_rip = 0x401000;
  op_data = 0;
  op_data2 = 0;
  op_data3 = 0;
  op_data4 = 0;
  dc_lin_ad = 0;
  dc_phys_ad = 0;
  br_target = 0;
  tsc = 9;
  cr3 = 0;
  tid = 1;
  pid = 1;
  cpu = 0;
  kern_mode = 0;
}

abbrev fetch : IbsFetch
fetch = record {
  fetch_ctl = 0;
  fetch_ctl_extd = 0;
  fetch_lin_ad = 0x401000;
  fetch_phys_ad = 0;
  tsc = 9;
  cr3 = 0;
  tid = 1;
  pid = 1;
  cpu = 0;
  kern_mode = 0;
}

do_op_work-aligned_example :
    let table = do_op_work (Header.op_header_lines zen machine) (op ∷ op ∷ []) in
    map length table.rows ≡ length table.columns ∷ length table.columns ∷ []
unfolding Header.output_op_header check_amd_processor check_basic_ibs_support check_ibs_op_support
    cpu_family
do_op_work-aligned_example =
    do_op_work-aligned zen machine (Header.op_header_lines zen machine) (op ∷ op ∷ []) refl refl
      refl

-- A trace of two samples, and a part of a third.
decode_op_file-output_op_header_example :
    decode_op_file
      (concat (Header.op_header_lines zen machine) ++ (encode_ops (op ∷ op ∷ []) ++ (1 ∷ 2 ∷ [])))
    ≡ record {
      columns = output_op_header (op_features zen);
      rows = map (output_op_entry (op_features zen)) (op ∷ op ∷ []);
    }
unfolding Header.output_op_header check_amd_processor check_basic_ibs_support check_ibs_op_support
decode_op_file-output_op_header_example =
    decode_op_file-output_op_header zen machine (Header.op_header_lines zen machine) (op ∷ op ∷ [])
      (1 ∷ 2 ∷ []) refl refl refl refl (omega arith)

-- `read` returns two structures of 104 bytes, and one sample was lost before each `GET_LOST`.
abbrev system : System
system = record {
  ioctl = λ calls fd cmd arg. some 1;
  open_device = λ calls flavor cpu. some (cpu + 3);
  read = λ calls fd bytes.
      some (record { bytes_read = 208; ops = λ (i : ℕ). op; fetches = λ (i : ℕ). fetch });
  select = λ calls fds timeout. some_ready;
  fd_isset = λ calls fd. true;
  is_cpu_online = λ cpu. true;
}

abbrev polls : List Sampling.Polled
polls = Sampling.nothing_ready ∷ Sampling.ready (λ (fd : ℕ). fd == 3) ∷ []

-- Two CPUs, of which the devices can be enabled, and two answers of `poll`.
abbrev willing : System
willing = record system { ioctl = λ calls fd cmd arg. some 0 }

abbrev surroundings : Program.Surroundings
surroundings = record {
  cpuid = zen;
  opens = λ name. true;
  op_machine = machine;
  fetch_machine = machine;
  num_cpus = 2;
  num_online_cpus = 2;
  online = codes "0-1\n";
  system = willing;
  scaled = λ size percent. size * percent / 100;
  environ = codes "HOME=/root" ∷ [];
  cpid = 77;
  polls = polls;
}

abbrev arguments : List Arguments.Argument
arguments = Arguments.op_file (codes "op.bin") ∷ Arguments.poll_percent (codes "50") ∷ []

abbrev accepted : Arguments.Arguments
accepted = record Program.no_arguments {
  settings = record set_global_defaults { poll_percent = 50 };
  opf = some (codes "op.bin");
  wants_op = true;
}

parse_args-IsSound_example : IsSound accepted
unfolding Arguments.parse_args set_global_poll_percent
parse_args-IsSound_example =
    parse_args-IsSound zen (λ name. true) arguments Program.no_arguments accepted
      (record { settings = refl; op_wanted = refl; fetch_wanted = refl }) refl

abbrev headers : Program.Headers
headers = record { op_header = some (Header.op_header_lines zen machine); fetch_header = none }

main-ends_example :
    let enabled = Program.enable_all surroundings accepted in
    (run : Program.Run) × (Program.main surroundings arguments ≡ some run)
    × Counted run.sampler
    × ((fd : ℕ)
        → closes fd run.sampler.calls
          ≡ closes fd enabled.1.calls + occurs fd (enabled.0.0 ++ enabled.0.1))
unfolding Arguments.parse_args set_global_poll_percent Program.output_headers
    Header.output_op_header check_amd_processor check_basic_ibs_support check_ibs_op_support
main-ends_example = main-ends surroundings arguments accepted headers refl refl refl

-- Single digits are read as they should be; each digit of a longer number counts as a CPU.
single_digits :
    map (fill_out_online_cores 8 4 (codes "0-2,5\n")) (0 ∷ 1 ∷ 2 ∷ 3 ∷ 5 ∷ [])
    ≡ true ∷ true ∷ true ∷ false ∷ true ∷ []
unfolding fill_out_online_cores
single_digits = refl

two_digits : map (fill_out_online_cores 16 4 (codes "12\n")) (2 ∷ 12 ∷ []) ≡ true ∷ true ∷ []
unfolding fill_out_online_cores
two_digits = refl
