-- ===== src/Lib.antt =====
-- tailslayer_win32: a C++ library that hedges the latency of a memory read. It keeps N replicas of a
-- vector of values in one huge page, each in a memory channel of its own, and lets N threads, each
-- pinned to a processor, read the same element: the first to return wins.
--
-- The parts, and the files that model them:
--
--   * tailslayer/include/tailslayer/hedged_reader.hpp, `HedgedReader`: Reader. `configure` is the
--     constructor up to the call of `setup_memory`, `attach_page` the end of `setup_memory`, once the
--     region is found; Reader/Memory has `setup_memory` on Windows, with its error paths, and the
--     destructor once the workers are joined; then `insert`, `get_next_logical_index_address` and the
--     read of `worker_func`. The T objects of the page are a function of the byte address; sizes are
--     64-bit and wrap. Reader/Workers has the threads as a step relation: the owner starts the workers
--     and then destroys the reader, and each worker takes its steps in between.
--     Reader/Layout has where an element lies, Reader/Contents and Reader/Vector what the page holds,
--     Reader/Channels which channel a replica is in, Reader/Cores where the workers run.
--   * tailslayer/include/tailslayer/proc.hpp and tailslayer/source/proc.cpp, the machine's processors and
--     how they are found, `ProcessorConfigurationVector`: Processors. Processors/Windows has
--     `ProcessCurrentConfiguration` on Windows, over the list of records that the operating system
--     returns; Processors/Linux the one on Linux, over the topology files, which Processors/Sysfs reads;
--     Processors/Affinity `getPhysicalCoreThreadAffinity`. Manager/Start/Detected joins the detection on
--     Windows to the manager, Manager/Start/Uncounted the one on Linux.
--   * tailslayer/include/tailslayer/proc.hpp and tailslayer/source/proc.cpp, `DynamicThreadManager`:
--     Manager, with `initialize` and `destroy` in Manager itself, the allocations in Manager/Allocate
--     and the releases in Manager/Release. Its maps are association lists; the order in which
--     `std::unordered_map` iterates is unspecified, so every operation that takes `begin()` has a
--     function for that order as its argument. Manager/Valid states the invariant: the two maps of
--     free threads against the map of all cores, and the two counters. Manager/Start shows where it
--     comes from, Manager/Handover, Manager/Return and Manager/Cores how the operations keep it.
--   * tailslayer/include/tailslayer/utilities.hpp, with the records of types.hpp beside it:
--     `compute_channel` in Platform/Channel, `FindLargestPhysicalRegion` in Platform/Region,
--     `verifyHugePageIsContiguous` in Platform/Contiguity,
--     `allocateLargePageMin`, `freeLargePage` and `SetLockMemoryPrivilege` in Platform/Allocation,
--     `allocateLargePageMax` and `allocateLargePage` in Platform/LargePages, the clock, the affinity
--     mask, `VirtToPhys` and the halves of the time stamp counter in Platform/Host.
--     The answers of Windows and of MemProcFS are the fields of a record `Os` and may differ at each
--     attempt; `IsOs` has what is relied on of them. The blocks in use are a list.
--   * benchmark/source/benchmark.cpp, `pair_samples_n2`, which pairs the samples of the channels:
--     Benchmark.
--   * probe/trefi_probe.cpp and probe/trefi_probe.hpp: Probe, with the calibration and the main loop in
--     Probe itself, the analysis of the intervals in Probe/Analysis and `main` in Probe/Program. The
--     probe uses `allocateLargePage`, `freeLargePage` and `SetLockMemoryPrivilege`. `double` is a record
--     of operations; Probe/Tally has what its counts and bins are counts of, and Probe/Bands what is
--     relied on of `double` for the bands not to overlap.
--   * sandbox/tailslayer_alloc.cpp, `AddressWindowExtensionsContiguousRegion`: Sandbox, with what the
--     process holds as a state; Sandbox/Lifetime follows a region from its allocation to its
--     destructor. The other allocator of the sandbox is not modelled.
--
-- Common has the shared helpers: lists with native indices, 64-bit words, bit masks, association
-- lists, and the outcome of a run, which is a value, a failed assertion or undefined behaviour.
--
-- The loops run over a list, a number of replicas, of bits or of multipliers and need no fuel, but for
-- the loop over the offsets in `FindLargestPhysicalRegion`, whose fuel is one more than the number of
-- pages, a number of steps that reaches the end of the request. A run of the workers has no bound of
-- its own: its length is a theorem. The assertions are those of a build without NDEBUG. Not modelled:
-- the parts of utilities.hpp for Linux that do not compile, priorities and messages, the option
-- parsers, which are a library, the rest of the benchmark, whose measurements are timing, the rest of
-- the sandbox and the example.
pub mod Common
pub mod Platform
pub mod Processors
pub mod Manager
pub mod Reader
pub mod Benchmark
pub mod Probe
pub mod Sandbox
