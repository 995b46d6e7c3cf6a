-- ===== src/Lib.antt =====
-- The verification library of prototype_bundle, a collection of independent C++ prototypes. It
-- models nine groups of them, each in a module of its own, and shares the module Prelude between them.
--
-- Prelude: tests on numbers, lists and their lemmas, sorted lists and permutations by counts, on the
--   native numbers, and maps changed at one number, Prelude/Places.
--
-- Radix: benchmarks/radix_benchmark.cpp, the radix sorters `reference_radix`, `shortcut_radix` and
--   `precalc_shortcut_radix`. A vector is a list, `swap` another one. The accesses by an index that
--   may be out of range, to `swap` in a round and to `items` in `sort_insert`, check it, and a call
--   that would make one out of range gives `none`; a histogram has 256 counters, and its index is a
--   byte. The other loops go over the items themselves. Radix/Digits reads bytes of items,
--   Radix/Histogram and Radix/Scatter are the two halves of a round, Radix/Buckets and Radix/Passes
--   put the rounds together, Radix/Insertion is `sort_insert`, Radix/Precalc counts all histograms
--   first, Radix/Agreement compares the sorters, and Radix/Evaluate is the test the benchmark runs on
--   a result. Every loop goes over a list, over the eight bytes of an item, or, in `sort_insert`, over
--   the indexes of a vector.
--
-- Tmap: binary_search.cpp, where types `seq<...>` are sorted and searched at compile time. A type
--   sequence is the list of its ids; the recursion of `seq_sort` and of `map_node` is on the length,
--   by accessibility, so that it needs no fuel. Tmap/Split is the splitting of sequences, Tmap/Sort
--   the sort, Tmap/Search the tree of nodes and `search`, which records what it prints and calls, and
--   Tmap/Main the lines that `main` writes.
--
-- Ring: benchmarks/static_ring_buffer.hpp, a buffer in place. A slot is empty or has a live object;
--   reading or destroying an empty slot, any access outside the storage, and constructing an object
--   at a null pointer are faults, and constructing in a live slot is not. Ring/Deque is the abstract
--   queue, Ring/Refine and Ring/Steps relate the two, Ring/Ranges is destruction by ranges, Ring/Copy
--   assignment, and Ring/Copies copy construction and self-assignment.
--
-- Binalloc: benchmarks/binalloc, the allocator of namespace sgc2. `bin_alloc` takes blocks from the
--   bin of the thread, which takes the blocks of a page from the page cache, which takes pages from
--   clusters, which the cluster cache reserves from the system. Binalloc/Word is arithmetic of words
--   of <bit>, Binalloc/Config is config.cpp, Binalloc/Address utils.h, Binalloc/Stack stack.h,
--   Binalloc/Memory the members of objects by their addresses, Binalloc/PageList the doubly linked
--   lists of page_cache.cpp, and Binalloc/Heap the operations: Heap/Clusters (cluster.cpp,
--   cluster_cache.cpp), Heap/Pages (page.cpp, page_cache.cpp), Heap/Bins (bin_cache.cpp), with the
--   laws in Heap/Laws, Heap/Flow, Heap/Allocation and Heap/Making. The `next` members of the blocks
--   are cells of their own, which is the memory of the source where no two blocks overlap. What the
--   system's `reserve` gives is a parameter, and so are the addresses of the sentinels of the page
--   cache.
--
-- Lockfree: lockfree_stack.h, `lf::atomics::push` and `pop`. A state has the head, the links and the
--   place of each thread in its call; a step is one access of one thread to the memory, and the
--   compare and swap may fail for no reason. Lockfree/Refine is the list that a state stands for,
--   Lockfree/Pushes and Lockfree/Pops the steps, Lockfree/Interleaving the runs of all threads. The
--   memory is sequentially consistent, and there a node is pushed once only. Lockfree/Container is
--   `lf::stack` itself, with its values, its size and its collector, as one thread uses it, with
--   Container/Laws on the stack and Container/Kept on the nodes that the collector deletes.
--   Lockfree/Collector is `lf::stack` between threads: `push`, `pop` and `clear`, the guard that counts
--   the critical clients, and the collector, each by its accesses to memory. A node there has a
--   stage of its life, and the allocator gives new addresses only, or also those of deleted nodes. Its
--   children are Stages, Locals (what a thread holds), Chains, Sound (the invariant), Maps and Nodes
--   (how stages go on), Pushes, Pops, Clears, Collections and Deletions (the steps), Safety (the runs),
--   and Reuse (a run with an address that is used again).
--
-- Spinlock: `spin_mutex` of benchmarks/spinlock_benchmark.cpp, which benchmarks/binalloc/utils.h
--   repeats, with a step for each access of a thread to the flag; Spinlock/Exclusion is about runs of
--   all threads. Spinlock/Shared is `shared_spin_mutex`, with Spinlock/Readers on who has it and
--   Spinlock/Sharing on the runs; its counter is not bounded there.
--
-- Buddy: benchmarks/gc_prototype.cpp, the buddy allocator `memory::buddy::page`. A header stands at
--   its offset in the buffer, and the chain of a level is the list of its free blocks; a node of a
--   chain is the offset of its header. Buddy/Xor is the offset of a buddy, Buddy/Tree the tree of
--   blocks that a page shows, with the way down to a block, Buddy/Moves what taking, freeing, splitting
--   and merging a block do to it, Buddy/Allocate and Buddy/Free the two operations, and Buddy/Pages
--   both together. The number of levels bounds each loop. `32U << level` has 32 bits, as in the source,
--   which the size of a block outgrows from level 27 on; `new` of the nodes and the double of
--   `std::log2` are not modelled: `level_of` is exact on powers of two.
--
-- Marking: `collect` of benchmarks/gc_prototype.cpp, the same in `collector` and in `collector_buddy`.
--   Objects are numbers, with their references and marks. Marking/Rounds is what the marking has yet
--   to follow, Marking/Reach its end, on two rounds of fuel for each object and one more, Marking/Sweep
--   the sweep and the removal of objects, and Marking/Collect all of `collect`. The root is no object of
--   the table, so its mark is never reset.
--
-- Programs: the small programs. Programs/StackRun is lockfree_stack_run.cpp, its arguments and the
--   runs that it dispatches; Programs/Console console_input.cpp, its loop on what `read` gives in turn
--   and the modes of the terminal; Programs/StaticList static_initializer_list.cpp.
--
-- Bounds and fuel: words of `w` bits that a theorem lets wrap are `% 2 ^ w`. Not so the counter of
--   `shared_spin_mutex` and the count of critical clients, which the number of threads bounds, the
--   sizes of bins, whose shift stays below 31, the lengths of type sequences, and the addresses of
--   blocks and members, which lie in memory. Four loops of one thread run on fuel:
--   `find_tail` and `try_collect`, with more rounds than nodes, `format_stack`, with as many as the
--   buffer has bytes, which is no fewer than the nodes it formats, and the marking of `collect`.
--
-- Not modelled: threads outside Lockfree and Spinlock, so that a lock is no state; time
--   measurement and the benchmark drivers; calls of the operating system; placement of objects in
--   memory beyond their addresses; the rest of benchmarks/gc_prototype.cpp, and the prototypes
--   make_it.cpp, benchmarks/tracing_ptr.cpp, benchmarks/streaming_tasks.cpp, benchmarks/bitset.cpp,
--   benchmarks/bitmap_vs_atomic_stack.cpp, the other locks of benchmarks/spinlock_benchmark.cpp, and
--   benchmarks/thread_safe_linked_list.cpp.
pub mod Prelude
pub mod Radix
pub mod Tmap
pub mod Ring
pub mod Programs
pub mod Spinlock
pub mod Lockfree
pub mod Binalloc
pub mod Buddy
pub mod Marking
