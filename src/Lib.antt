-- ===== src/Lib.antt =====
-- PMCTrack, a tool that reads performance counters from within the Linux scheduler and that
-- partitions the shared cache: a model of core parts of its kernel module, in src/modules/pmcs of
-- the repository.
--
-- The parts of the program that are modelled, and their files here:
--
-- CBuffer.antt has the byte ring of cbuffer.c and include/pmc/data_str/cbuffer.h, in which the
-- kernel leaves counter samples that the monitoring program reads. Every operation but the one
-- that frees it. `cbuffer_t` is the record CBuffer, with the storage as a list; memcpy and the
-- accesses of the storage are those of Memory.antt, which are a fault (`none`) outside of it.
-- Allocator.antt has the index allocator of include/pmc/data_str/mc_allocator.h, a stack of
-- blocks of free indices, with all its operations. Allocator/Client.antt runs any client against
-- it.
-- CachePart.antt has cache partitions, of cache_part_set.c and include/pmc/cache_part.h. Of the
-- type `cat_cache_part_t` the record Partition has the fields that the layout uses; the two sized
-- lists of a `cache_part_set_t` are lists of partitions, and a pointer to a partition is its
-- part_index.
-- CachePart/Resize.antt has do_insert_partition and deallocate_partition, which lay out all
-- partitions over the ways, and CachePart/Manage.antt what chooses, creates and removes
-- partitions.
-- CachePart/Apps.antt has the applications of the partitions: adding, moving and removing one. A
-- write to the hardware is an entry of a list.
-- SizedList.antt has the linked lists with their length of include/pmc/data_str/sized_list.h,
-- which the partitions and applications above are kept in: an element is its address, the list is
-- the addresses in order, and the comparison of two elements is an argument.
-- Lookahead.antt has the lookahead algorithm of cache_partitioning.c, which decides how many ways
-- each application gets: lookahead_algorithm, lookahead_algorithm_list and get_max_mu_gen. The
-- partitions above are then laid out by such numbers.
-- PhaseTable.antt has the phase table of mc_experiments.c, the list of program phases that a
-- monitoring module has seen: creating it, looking up the most similar phase, moving an entry to
-- the front, and inserting a phase. The bitmap of free entries is a word, and a node its index.
-- Experiments.antt has the sets of counter configurations among which a thread or CPU multiplexes,
-- of mc_experiments.c and include/pmc/mc_experiments.h: a pointer to a configuration is the
-- configuration or `none`, and their copying and rotation are all that is modelled of them.
-- SampleBuffer.antt has the buffer of samples that the kernel shares with a monitoring program, of
-- the same files: a byte ring of CBuffer.antt with a reference count and a semaphore.
-- Metrics.antt has the performance metrics that monitoring modules define over event counts
-- (include/pmc/hl_events.h and mc_experiments.c): compute_value, compute_performance_metrics, the
-- estimates of the speedup factor, and the running average. A set of metrics is a list.
-- Smoother.antt has the average of the last values of a metric, of include/pmc/hl_events.h, and the
-- ring of numbers that holds them (include/pmc/data_str/mc_cbuffer.h). An `unsigned long` is a
-- number that wraps at 2 ^ 64.
-- ChangeHistory.antt has the history of the last ten changes of a metric, of the same file, as a
-- word of bits and its counters.
-- BitField.antt has the fields of 64-bit registers of include/pmc/data_str/bit_field.h, with the
-- native operations on binary digits for those of C.
-- Syswide.antt has system-wide monitoring, of syswide.c: its state with the lock, the timer and the
-- data of each CPU as the record Syswide, starting and stopping it (Syswide/Control.antt), and the
-- timer that takes a sample of each CPU (Syswide/Timer.antt) and pushes it to a sample buffer.
-- Syswide/Taking.antt and Syswide/Sampling.antt say, apart from the code, what a sample holds and
-- leaves behind. Taking a lock that is held never returns, and is `none`.
-- Rmid.antt has the pool of resource monitoring ids of intel_rdt_core.c, with the static data of
-- that file as the record Pool: initialize_rmid_pool, get_rmid, put_rmid, use_rmid, the policy, and
-- the bandwidth counter of update_local_bandwidth. Rmid/Users.antt relates a pool to the number of
-- users of each RMID.
--
-- Prelude.antt passes on library names and has what the parts share: tests into Bool, lists over
-- the native numbers, 32-bit arithmetic, signed integers and chains of steps that may fault.
-- `Ensures` is total correctness: the code does not fault, and the result has the property. Each
-- part has its lemmas and theorems in the files of the folder of its name. Tests.antt has runs at
-- concrete inputs, and each theorem that has hypotheses at an input that meets them.
--
-- Numbers: an `unsigned int` is a number that wraps at 2 ^ 32 where the code can reach it, and an
-- `int` its bit pattern or, where its sign matters, an integer. In Lookahead.antt and
-- Metrics/Running.antt a result outside of the range of `int` is a fault. Loops are structural
-- recursion over the list or the count; only the loop of the lookahead algorithm, which ends when
-- no way is left or none gains, runs on fuel. Its fuel is the number of ways, and each round takes
-- at least one.
--
-- Of code outside the repository's sources the model takes: random numbers and readings of the
-- hardware as arguments, without any assumption, and what kmalloc gives for a size as an argument.
-- Interrupts, DEBUG output and, but for syswide.c, locks are not modelled: each operation is one
-- step. Not modelled are the scheduler framework (pmcsched.c and its plugins), the other policies
-- of cache_partitioning.c, the assignment of new applications to partitions, the set-up of counters
-- (pmu_config_*.c, mchw_core.c), the programming of counters in mc_experiments.c, sensor drivers,
-- the user library and the tools: they are not yet translated, or are input and output.
pub mod Prelude
pub mod Memory
pub mod CBuffer
pub mod Allocator
pub mod CachePart
mod Tests
pub mod Lookahead
pub mod Rmid
pub mod SizedList
pub mod PhaseTable
pub mod Experiments
pub mod SampleBuffer
pub mod Syswide
pub mod Metrics
pub mod Smoother
pub mod ChangeHistory
pub mod BitField
