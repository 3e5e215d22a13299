-- ===== src/Lib.antt =====
-- CPU-X: what it reads out of the firmware's DMI (SMBIOS) tables, the daemon that reads it, the
-- benchmark, and the options.
--
-- CPU-X shows data on the machine. The data on the mainboard, the BIOS and the memory sticks comes
-- from src/core/dmidecode, a copy of dmidecode that was extended for CPU-X and that runs with the
-- rights of the daemon, on bytes that the firmware supplies. This library models that decoder:
-- from the search for an entry point over the walk through the table to the texts that are stored
-- in the structures of src/daemon/daemon.h. From there it follows the data: the packets of the
-- daemon, which runs as root, and its clients, the loop of the daemon, and the helpers that set
-- the units of what is shown. The benchmark of src/core/benchmarks.cpp stands for itself. The
-- options of src/options.cpp, which every part reads and the interfaces change, are modelled with
-- the start of src/main.cpp, which fills them from the arguments, the settings and the
-- environment.
--
-- How the parts interact: an entry point gives the place, the length and the count of the table
-- (Dmi/EntryPoint). dmi_table_decode walks over the table twice. The first pass (Dmi/Table)
-- remembers the vendor (Dmi/Vendor) and the kind of Processor ID (Dmi/CpuidType). The second pass
-- (Dmi/Decode) hands each structure that is asked for to the code behind it, for CPU-X
-- dmi_decode_cpux (Dmi/Cpux, Dmi/Cpux/Stick), which reads fields and strings (Dmi/Memory,
-- Dmi/Strings), turns them into text (Dmi/MemoryDevice, Dmi/MemorySize, Dmi/Print) and stores it.
-- Dmi/Cpux/Table puts the walk and dmi_decode_cpux together with the options that CPU-X sets. The
-- daemon (Daemon/Server) calls the decoder at a client's request (Daemon/Client) and sends the
-- structures one by one (Daemon/Bytes); Daemon/Firmware joins the decoder and the call. Each
-- client has a thread of the daemon, started and counted by its main loop (Daemon/MainLoop). The
-- sizes that the decoder writes with tokens for units get their units in Util/SizeUnit. The
-- arguments (Main/Arguments) and then the settings (Main/Startup) set the options (Options) before
-- the processor is known; then its types and cores bound them (Options/Calls). As a command of its
-- own, dmidecode reads its arguments in Dmi/CommandLine.
--
-- Files and what they model (paths in src/core/dmidecode where no other is given):
--   Dmi/Memory           WORD, DWORD, QWORD of types.h, checksum of util.c
--   Dmi/Strings          is_printable, ascii_filter, _dmi_string, dmi_string of dmidecode.c
--   Dmi/Vendor           dmi_set_vendor of dmioem.c
--   Dmi/CpuidType        dmi_get_cpuid_type of dmidecode.c
--   Dmi/Loop             while loops with a bound on the rounds
--   Dmi/Table            to_dmi_header and the first pass of dmi_table_decode
--   Dmi/Decode           dmi_fixup_type_34, the second pass and the end of dmi_table_decode
--   Dmi/MemorySize       the choice of number and unit in the functions that print sizes
--   Dmi/Print            strncpy, snprintf and the printing of numbers, as the C standard has them
--   Dmi/MemoryDevice     the functions with names in _str, and their static buffers
--   Dmi/Cpux, Cpux/Stick dmi_decode_cpux, on the structures of src/daemon/daemon.h
--   Dmi/Cpux/WellFormed  tables in the form of the SMBIOS standard, as an independent description
--   Dmi/EntryPoint       smbios3_decode, smbios_decode, legacy_decode, the search in memory and
--                        overwrite_dmi_address, overwrite_smbios3_address
--   Dmi/Lookup, Names    the functions that look a code up in an array of names
--   Dmi/ProcessorFamily  dmi_processor_family, its table family2 and its binary search
--   Dmi/Cpux/Sizes       the arrays of the structures of src/daemon/daemon.h, as an invariant
--   Daemon               SEND_DATA and RECEIVE_DATA of src/daemon/daemon.h: two ends of a connection
--   Daemon/Bytes         the structures of src/daemon/daemon.h as bytes
--   Daemon/Server        request_handler of src/daemon/server.cpp and the functions that it calls
--   Daemon/Client        load_module of src/util.cpp, call_libcpuid_msr_static and _dynamic of
--                        src/core/libcpuid.cpp, can_access_sys_debug_dri of src/core/libpci.cpp and
--                        call_dmidecode of src/core/dmidecode/libdmidecode.cpp
--   Daemon/Runs, Calls, Sticks, Dmidecode, Firmware   the calls from their start to their end
--   Daemon/Determinacy   the order in which the two ends run
--   Daemon/Labels        the labels of a stick in src/core/dmidecode/libdmidecode.cpp
--   Daemon/MainLoop      main and cleanup_thread of src/daemon/server.cpp
--   Util/SizeUnit        string_set_size_unit of src/util.cpp; below it, the sizes that dmidecode.c
--                        hands to it
--   Util/Prefix          PrefixUnit of src/util.cpp and src/util.hpp
--   Bench                the threads of src/core/benchmarks.cpp that count prime numbers
--   Bench/Primes, Reference   prime numbers, the test of both modes, and counting one by one
--   Bench/Threads        the counters, whatever the order of the threads
--   Dmi/CommandLine      parse_command_line and the functions that it calls, of dmiopt.c
--   Dmi/TypeOption       parse_opt_type of dmiopt.c
--   Dmi/Numbers          strtoul, strcmp and strcasecmp, as the C standard has them
--   Options              the static members of the class of src/options.hpp
--   Options/Selected     the type, core, stick and graphic card of src/options.cpp
--   Options/Pages        its pages, and the caches of the selected type of src/data.cpp
--   Options/Settings     its other settings
--   Options/Calls        the calls that change the options; how src/core/libcpuid.cpp sets the
--                        numbers of cores
--   Main/Texts           what src/main.cpp uses of the C++ library to read texts
--   Main/Table           cpux_options of src/main.cpp
--   Main/Arguments       parse_arguments of src/main.cpp
--   Main/Startup         main of src/main.cpp, load_settings of src/ui/gtk.cpp
--   Shared               the libraries' names, Boolean tests on numbers, lists, texts
--   Examples             (and below) the theorems at concrete inputs
-- The modules below these hold the proofs.
--
-- Memory: the table is a list of bytes, a pointer into it is an offset, and a read or a write
-- outside of it is a fault, the result `none`; so is a read outside an array of names. A theorem
-- that the result is not `none` therefore says that the code reads nothing outside. ascii_filter
-- changes the table in place, so the block is part of the state. The static buffers of the _str
-- functions are state too. A char[80] is its list of 80 bytes.
--
-- Fuel: both passes have one round more than the table has bytes, since each round moves the
-- position by at least two; the search for the next handle has as many, since it moves by one. The
-- binary search has as many rounds as the table has entries. Twenty digits are enough for a number
-- below 2 ^ 64. string_set_size_unit has as many rounds as its text has characters: each round
-- that moves on takes at least one, and a round that does not is repeated for ever. The loop of
-- the benchmark has one round more than its bound. The loop over the types of core has 257 rounds,
-- as a type is a byte, and those over the pages have 8; the loop over a list of types has one
-- round more than its text has characters, since each round reads one at least. Running out of
-- fuel is the result `none` as well, so no theorem takes it for an end.
--
-- Processes: an end of a connection is a program that sends, receives, runs a command or ends, and
-- a run takes steps of either end in some order; the socket keeps packets apart (SOCK_SEQPACKET),
-- and a packet longer than the room for it is cut. The main loop and the handlers of the daemon
-- take steps in some order too, where the mutex lets them; handlers are counted, since they differ
-- in their sockets only. ints are values modulo 2 ^ 32, in little-endian order.
--
-- Parameters: whether realloc succeeds, the printing of a voltage (a double, by printf) and the
-- translation of messages, in the record Surroundings. The bus frequency is kept as the whole
-- number that it is set from. For the daemon the record Machine stands for libcpuid, for the value
-- that dmidecode returns with its data, for the bytes of a double and for the file system; the
-- shell is a function from commands to exit statuses. The translation of a unit is a function, and
-- so is the C library's sqrt, cut off to an integer, with the conversion of a number to a double
-- and back. What getopt_long finds on a command line is a list, in its order, and
-- BANDWIDTH_LAST_TEST is a number. An `at` out of range throws, which is the result `none` too.
--
-- Not modelled: reading the table from a file, the EFI variables and sysfs (input and output);
-- dmi_decode and dmioem.c beyond dmi_set_vendor, which print and are not reached from CPU-X; the
-- messages, signal handlers and locales of src/main.cpp; writes to a closed socket, the start of
-- the daemon and of its clients, and what the clients make of the structures but for the sticks;
-- the timer and the score of the benchmark; the collection of system data and the user interfaces;
-- and src/core/bandwidth, which is a copy of another program.
pub mod Shared
pub mod Dmi
pub mod Daemon
pub mod Util
pub mod Bench
pub mod Options
pub mod Main
pub mod Examples
