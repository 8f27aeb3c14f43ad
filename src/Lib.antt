-- ===== src/Lib.antt =====
-- A model of the programs that exercise page-table metadata, and of the parts of sysbench that they
-- use. The metadata belongs to a page, and four system calls serve it: enable_pte_meta expands the
-- page table of an address, disable_pte_meta collapses it, set_pte_meta stores metadata for a page,
-- a number (MDP=0) or a buffer with a header (MDP=1), and get_pte_meta reads it back.
--
-- test1 to test9 are programs of one thread each. They fill pages with a pattern, make the calls and
-- compare what they read. test10/sysbench is a benchmark; its memory test makes the same calls
-- beside its loads and stores, and its timers, counters, histogram and barrier serve all of its
-- tests: worker threads meet at the barrier, add to the counters and to the histogram, and run one
-- timer each; the main thread merges these into reports.
--
--   Prelude     names, lists and little-endian words that all parts share.
--   Pte         what the test programs share. Pte.Machine is the system below them, a parameter:
--               the system calls, posix_memalign, malloc, mlock, munlock and free. Pte.Process is
--               a program as an outcome (done, exited with EXIT_FAILURE, undefined behaviour)
--               with fill, verify_pattern, call_or_die_1 and call_or_die_3 of test2/test2.c.
--               Pte.Contract states what the kernel promises, which its code is not here to
--               show: enabling an expanded table fails with EEXIST, disabling a collapsed one
--               with EINVAL, reading from a collapsed one with ENODATA; metadata that was set is
--               read back, and no call changes the pages.
--   Suite       test1/test1.c to test9/test9.c, a main and its test function in each module:
--               Basic (test1), Direct (test2), Structured (test3), Errors (test4, test6, test7),
--               Pages (test5), Update (test8), Repeat (test9). Suite.Passing is about their
--               runs under the contract, Suite.Detection about runs of test2 without it, and
--               Suite.Reference is a machine that keeps the contract.
--   MemoryTest  test10/sysbench/src/tests/memory/sb_memory.c: memory_init in Init, the events and
--               memory_next_event in Events. An event is the list of its accesses in order.
--   CpuTest     test10/sysbench/src/tests/cpu/sb_cpu.c: the search for primes of an event. The
--               comparison with the square root is a parameter.
--   FileTest    test10/sysbench/src/tests/fileio/sb_fileio.c: parse_arguments and the table of
--               options in Arguments and Values, create_files in Create, the requests and
--               check_seq_req in Requests, the blocks with checksum and offset in Buffer,
--               file_execute_event in Execute. The files, crc32 and the random numbers are
--               parameters; the loop that draws again runs over the list of the draws.
--   Rand        test10/sysbench/src/sb_rand.c: the unique numbers in Unique, with the arithmetic that
--               they rest on in Residues, Modulus and Bits; uniform numbers, random strings and the
--               loop of the Zipf distribution in Generate; sb_rand_init and the seeding in Init. The
--               generator of 64 bits, the sums of doubles and random() are parameters.
--   Runner      test10/sysbench/src/sysbench.c: sb_more_events and the loops of the worker threads
--               as steps of the threads in any order. A thread that waits for an event of the queue
--               gets what the other threads do meanwhile as an argument.
--   Main        test10/sysbench/src/sysbench.c: the table of the general options in GeneralArgs, the
--               two passes over the command line in CommandLine, init, with sb_thread_init of
--               sb_thread.c, in Init, and main in Dispatch. qsort, the arithmetic on doubles, the
--               Lua interface and what the operations of a test return are parameters.
--   Timer       test10/sysbench/src/sb_timer.c and sb_timer.h.
--   Histogram   test10/sysbench/src/sb_histogram.c.
--   Counter     test10/sysbench/src/sb_counter.c and sb_counter.h.
--   Barrier     test10/sysbench/src/sb_barrier.c, as a step relation on its callers.
--   Options     test10/sysbench/src/sb_options.c and sb_options.h, the list of the program's options:
--               opt_name_cmp in Names, the list and its operations in Store, configuration files
--               in Config, set_option, sb_register_arg_set and sb_opt_copy in Set, sizes and
--               integers in Size, reading them by name in Get, and what their callers make of
--               them in Outcome. What a validator and the file system answer is a parameter.
--
-- Numbers are the native ones. A 64-bit counter is reduced modulo 2^64 and a 32-bit one modulo 2^32
-- where the code computes it; a number that is read as signed is compared with 2^63. Memory is a
-- function from addresses to bytes. Loops are recursion on the rounds that are left, so no fuel is
-- needed: fill and verify_pattern take the page size, test9 its 10000 rounds, an event its words. The
-- loop over the values of a configuration line gets as many rounds as the line has bytes, each of
-- which reads at least one, and the loop over the buffers of a configuration file as many as the file
-- has bytes. The loop over the divisors of a number gets that number of rounds, and the
-- rejection loop of the Zipf distribution any number. The loop that writes a file gets as many
-- rounds as the file shall have bytes, of which each writes one at least.
--
-- Not modelled: output and the times that test1 to test9 print, with the statistics of test9; the
-- floating-point functions of the histogram, whose results are arguments; memory that is freed;
-- HugeTLB pages; the options' help, their numbers of type double and failing allocations; the
-- file test's removal of its files, its asynchronous and mapped input and output; the rest of
-- sysbench (run_test and the reports, the Gaussian and the Pareto distribution, the tests of mutexes
-- and of threads, database drivers, Lua) and its third-party code. An operation of the timers, the
-- counters and the histogram is one step: their locks and atomic instructions are taken at their word, and only the
-- histogram's lock is kept, to say when an operation waits for ever. The callback of a barrier has
-- the same outcome in each round.

pub mod Barrier
pub mod Counter
pub mod CpuTest
pub mod FileTest
pub mod Histogram
pub mod MemoryTest
pub mod Options
pub mod Main
pub mod Prelude
pub mod Pte
pub mod Rand
pub mod Runner
pub mod Suite
pub mod Timer
