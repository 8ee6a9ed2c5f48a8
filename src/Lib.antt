-- ===== src/Lib.antt =====
-- The AMD IBS toolkit: a Linux driver for Instruction-Based Sampling and the tools around it.
--
-- The driver (driver/) keeps one device per CPU and flavor (op or fetch). The interrupt handler
-- stores a sample in the device's ring buffer, the file operations open, read, poll and control a
-- device, the workarounds write to further registers around each enable and disable, and the module
-- code checks the processor and sets the devices up. The user library (lib/) opens the devices of
-- all CPUs, enables them and collects samples of both flavors for a program. The monitor
-- (tools/ibs_monitor/) samples while another program runs and writes traces, each with a header
-- that says which fields the processor has; the decoder (tools/ibs_decoder/) reads that header and
-- turns the trace into a table. The daemon tool
-- (tools/ibs_daemon/) runs another program on all CPUs but one, where the library's daemon writes
-- the samples of the others to a file.
--
--   Base          names, Boolean tests and lists over the native numbers
--   Bits          single bits and the digits of the bitwise operations
--   Driver/Registers    include/ibs-msr-index.h, and the flavors and minors of driver/ibs-utils.h
--   Driver/Scatter      scatter_bits and gather_bits of driver/ibs-utils.c, in 64 rounds
--   Driver/Device       struct ibs_dev, ibs_op and ibs_fetch of driver/ibs-structs.h; the log
--   Driver/Buffer       the buffer functions of driver/ibs-utils.c
--   Driver/Workarounds  driver/ibs-workarounds.c
--   Driver/Control      enable, disable and defaults of driver/ibs-fops.c
--   Driver/Fops         ibs_open, ibs_release, ibs_read and ibs_poll of driver/ibs-fops.c
--   Driver/Ioctl        ibs_ioctl of driver/ibs-fops.c, with the fields, the lock and the buffer
--   Driver/Interrupt    driver/ibs-interrupt.c
--   Driver/Support      check_for_ibs_support of driver/ibs-core.c
--   Driver/Cpus         the devices of each CPU and the hotplug callbacks of driver/ibs-core.c
--   Driver/Devnode      the names of the device nodes, of driver/ibs-core.c and lib/ibs.c
--   Driver/Load         ibs_init and ibs_exit of driver/ibs-core.c, and what they leave held
--   Driver/Ring         the ring as a queue, and what the operations do to it
--   Driver/Locks        which locks a log leaves held
--   Text                strncmp, strtok, strtoul, %x, %u and %lx, as the tools use them
--   Decoder             the fields of include/ibs-uapi.h, and tools/ibs_decoder/ibs_decoder.c
--   Decoder/Stream      fgets and fread on the bytes of an op trace, as that file calls them
--   Decoder/Program     its fetch traces, its command line and its main
--   Library/State       the variables of lib/ibs.c, and the system it runs on
--   Library/Options     ibs_set_option of lib/ibs.c
--   Library/Enable      enabling and disabling, one CPU and all, of lib/ibs.c
--   Library/Sample      do_ibs_get_sample, do_ibs_get_all_samples, do_ibs_sample of lib/ibs.c
--   Library/Initialize  do_ibs_initialize, ibs_initialize and ibs_finalize of lib/ibs.c
--   Library/Daemon      ibs_sample and start_ibs_daemon of lib/ibs.c
--   Monitor/Cpu         tools/ibs_monitor/cpu_check.c
--   Monitor/Header      the trace headers of tools/ibs_monitor/ibs_monitor.c
--   Monitor/Settings    the functions of that file that check a setting
--   Monitor/Arguments   the command line of that file
--   Monitor/Online      fill_out_online_cores of that file
--   Monitor/Sampling    that file from enable_ibs_flavors to disable_ibs, and the loop of main
--   Monitor/Program     the environment of the child and main of that file
--   Daemon/Rows         the rows that tools/ibs_daemon/ibs_daemon.c writes
--   Daemon/Cores        fill_out_online_cores of that file
--   Daemon/Main         the arguments, the options for the library and main of that file
--
-- Each operation passes the device and a log of effects: writes of registers, copies to the user,
-- locks, wake-ups. What the kernel and the hardware answer is a record of functions of that log
-- (Driver/Device.Kernel), so an answer may depend on all that happened before. The buffer is read
-- by entries, and sizes stay in bytes where the source has bytes. Machine words keep their
-- wrap-around: 64 bits for registers, 32 for the write index of the handler; atomic counters are
-- natural numbers. The loops of `scatter_bits` and `gather_bits` run for the 64 rounds of the
-- source; the loop of `ibs_read` runs on the list of what ends each of its waits, and is asleep
-- when the list is used up. Preprocessor branches are those of kernels from 4.10 on.
--
-- The user library and the monitor run on a system of functions of the calls made before
-- (Library/State.System): open, ioctl, read and select are outside the repository. A file that is
-- read is the list of what fgets or fread returns, a file that is written the list of what is
-- written to it. Loops over CPUs are recursive in the number of rounds left, loops over lines and
-- descriptors in the list; the polling loop of main runs on the list of what poll answers until
-- the child ends, and the daemon's loop for a number of rounds. Numbers
-- print in at most 8 or 16 hexadecimal and 20 decimal digits, enough for 32 and 64 bits. The loops
-- over the bytes of a trace run at most as often as there are bytes, enough since each round takes
-- at least one.
--
-- Not modelled: ibs_uevent, init_workaround_initialize and what is for kernels before 4.10 in
-- the driver; is_cpu_online of the library, which is a parameter; fork and exec of the tools,
-- the signals of the daemon tool, and the test programs under tools/, which are examples of I/O
-- on top of the driver.
pub mod Base
pub mod Bits
pub mod Driver
pub mod Text
pub mod Decoder
pub mod Library
pub mod Monitor
pub mod Daemon
