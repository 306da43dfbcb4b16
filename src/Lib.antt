-- ===== src/Lib.antt =====
-- Linux kernel modules of the course work under Linux_kernel: models of their C code and the
-- theorems that make it correct. The modules do not call each other; each is loaded by itself and
-- is driven from user space through the parameters or the sysfs files that it registers. What they
-- share is the kernel.
--
-- Base/ holds what all parts share: lists measured by native numbers, the integers of C, decisions
-- on numbers. Kernel/ holds the interfaces of the kernel that the code calls, as records of
-- operations with records of the laws that the kernel's documentation gives: the queue of
-- linux/kfifo.h (Kfifo), the hash table of linux/hashtable.h as its visits (Hashtable) and as its
-- buckets (Buckets), sort and bsearch (Sort), a sort of data that may change meanwhile (LiveSort),
-- a sort that is told how to exchange two elements (SwapSort), texts that end at a 0 (Text), calls
-- of scnprintf that fill a buffer one after the other (Print), and the files by which user space
-- reaches a module (Files): the operations and the mode of each, and sequences of reads and writes
-- of them, which are refused where the mode or a missing operation says so. Kernel/Lists.antt fills
-- Hashtable and Sort with functions on lists, Kernel/LiveSort.antt and Kernel/SwapSort/Model.antt
-- fill LiveSort and SwapSort, Kernel/Kfifo/Model.antt fills Kfifo, and Search/Examples.antt fills
-- Buckets. Memory allocation is always an argument: whether it succeeds, and the address that it
-- gives where one is stored.
--
-- Alloc/: Linux_kernel/HW_05_bit_maps/src, a pool of 2560 blocks of 4096 bytes. Alloc/Bitmap.antt
-- is bitmap.c over an array of bytes, and its child modules prove each function against the bits as
-- a function of their index. Alloc/Allocator.antt is allocator.c; the static `alloc` is the record
-- MemoryAllocator, which every operation takes and returns. IsValid (Allocator/Invariant) says that
-- the table of allocations and the bitmap agree, Calls runs sequences of operations, and Reclaim
-- releases all that is live. Alloc/Params.antt is params.c and main.c, and Alloc/Files.antt the
-- parameters that params.c registers; Files/Loaded runs any reads and writes of them after a load.
--
-- Fifo/: Linux_kernel/HW_04_kernel_fifo/src. Fifo/Ops.antt is fifo_ops.c and main.c over the
-- kernel's queue of bytes, Fifo/Params.antt is params.c, and Fifo/Files.antt the parameters that it
-- registers. Files/Promise gives each parameter over a list of integers, Files/Refine relates the
-- two, and Files/Loaded starts at a load. Fifo/Queue.antt is the bounded queue of integers that the
-- device promises; Models relates the two.
--
-- Traffic/: Linux_kernel/final_work_kprobe/src. Traffic/Stats.antt is stats.c and params.c: the
-- table of counters per pair of addresses, whose entries live in a heap, and the report, which
-- reads them without the lock: what it reads is the parameter Live. Traffic/Probe.antt is
-- kprobe_handler.c and main.c: the handlers that feed it, their registration, init and exit.
-- Traffic/Events.antt runs sequences of the return handlers.
--
-- Search/: Linux_kernel/HW_06_binary_hashtable/src. Search/Table.antt is build.c and search.c,
-- Search/Params.antt is params.c and main.c, and Search/Files.antt the parameters that params.c
-- registers; Files/Serving and Files/Result run any reads and writes of them after a load.
--
-- Stack/: Linux_kernel/HW_03_kernel_stack. Stack/Ops.antt is lib/stack_ops.c, Stack/Sysfs.antt is
-- the functions of src/sysfs.c and src/main.c, and Stack/Files.antt the attributes of sysfs.c,
-- which Files/Promise gives over a list of integers. The code takes no lock: Stack/Race.antt is
-- stack_pop one access to the shared stack at a time, with the entries in memory, and runs any
-- schedule of any calls of it; Race/Alone, Race/Exclusive and Race/Fault are the call alone, the
-- calls that do not overlap and two that do.
--
-- Hello/: Linux_kernel/HW_02_hello_world. Hello/Params.antt is update.c and the functions of the
-- three parameters, Hello/Files.antt their registration, and Hello/Spell.antt writes a whole text
-- with them.
--
-- LinkedFifo/: Linux_kernel/Lesson 9/fifo.c. Memory.antt is the memory that malloc and free act on;
-- an access at an address without a node has no result. Program.antt is the program; Chain.antt
-- says which memory holds a chain of nodes, and Queue.antt what each operation does to the list
-- that the chain holds.
--
-- Lessons/: Lesson 6/docs/my_module.c (MyModule, and MyModule/Files for its parameters as files),
-- Lesson 12/hashtable_example-510203-42ce9b.c (Objects),
-- Lesson 12/sort_list_0-510203-39c27f.c (SortList) and Lesson 12/bsearch_list-510203-441135.c
-- (BsearchList). The last two declare the same array, comparison and exchange, which are
-- Lessons/Arrays.antt.
--
-- State is passed explicitly: static variables and pointers to a context are an argument and a
-- result, and a NULL context is `none`. Operations that hold a lock from their first access to
-- their last are one step; an operation that returns an error returns the state that it leaves.
--
-- Bounds and loops: `size_t` and `u64` arithmetic wraps at 2 ^ 64, the stack's size at 2 ^ 32.
-- Loops are structural over the number of rounds or over the list that they visit: the rounds of
-- the bitmap loops are the number of blocks, those of ht_build the array size. Two loops take fuel:
-- the one that empties the queue of Lesson 9, where one round more than there are nodes is enough,
-- and the search loop of the bsearch module, where 966 rounds are, as it counts from 35 on and the
-- values are below 1000.
--
-- Not modelled: the log output (pr_info, pr_err), the descriptions of modules and parameters, the
-- parameters that are plain numbers (initial_size, array_size, top_n), whose values are arguments,
-- freed memory beyond the nodes and entries that are given back, and what mixes with the accesses
-- of operations that take no lock, but for calls of stack_pop with each other and what the traffic
-- report reads of its entries. Left aside are the copies of kernel source (Lesson
-- 3/docs/start_kernel.c, Lesson 3/docs/setup_arch.c and final_work_kprobe/samples), and the
-- programs in other languages.
pub mod Base
pub mod Kernel
pub mod Alloc
pub mod Fifo
pub mod Traffic
pub mod Search
pub mod Stack
pub mod Hello
pub mod LinkedFifo
pub mod Lessons
