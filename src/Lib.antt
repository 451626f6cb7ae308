-- ===== src/Lib.antt =====
-- Kernel of Truth: the core of an x64 kernel written in C.
--
-- The kernel hands out memory in layers. kernel/core/region_vector.c keeps sets of address ranges in
-- chains of pages; kernel/core/heap.c keeps one such set for the free and one for the used blocks of a
-- heap of 16 pages and fences each block with red zones, using the loops of kernel/core/string.c on the
-- bytes. kernel/core/hashtable.c is the map that other parts look names up in, its array from the heap.
-- kernel/core/lock.c is the lock that the other parts take, kernel/core/object.c counts the references
-- to threads, processes and files, and kernel/core/scheduler.c keeps the ring of threads that run in turn.
-- kernel/core/mt19937_64.c and kernel/core/random.c make random bytes.
--
-- Below them, kernel/core/physical_allocator.c keeps the free pages of memory,
-- kernel/arch/x64/paging.c maps pages into address spaces, and kernel/core/slab.c puts both and a region
-- vector together to hand out pages of the higher half. kernel/device/vga.c is the console that
-- kernel/device/ps2_keyboard.c writes keys to, kernel/core/format.c prints to any file, and
-- kernel/arch/x64/interrupts.c calls the handlers of interrupts.
--
-- kernel/core/module.c loads modules, which kernel/core/elf.c takes apart and kernel/core/symbols.c links
-- through a hash table. kernel/core/process.c keeps processes and their threads, and kernel/core/file.c
-- the tree of files. kernel/core/entropy.c, kernel/core/bitmap.c and kernel/core/sorted_list.c are small
-- containers.
--
-- The files:
--   Base, Base/*             shared names: tests on numbers, list lemmas, and `Run`, the outcome of a
--                            call: a result, a failed assertion (`panic`), undefined behaviour
--                            (`fault`), or a wait that does not end (`stuck`)
--   Types                    include/truth/types.h: `Status`, the 64-bit word
--   String                   kernel/core/string.c: `memset`, `memcpy`, `memmove`, `memcmp`, `strncmp`,
--                            `strlen`, on a memory that is a function from addresses to bytes
--   String/Memory, /Compare  what the copying and the comparing routines do
--   RegionVector             kernel/core/region_vector.c, function by function and loop by loop; a
--                            section is the list of its used slots, a vector the list of its sections
--   RegionVector/Cover       the bytes that a vector stands for, as a count for each address
--   RegionVector/Alloc, /Search, /Find, /Free, /Every, /RoundTrip
--                            taking, giving back and finding regions
--   Heap                     kernel/core/heap.c: the globals as the record `Heap`, one definition for
--                            each function, `kmalloc` and `kfree` cut at their calls
--   Heap/Invariant           the invariant: each byte of the heap in exactly one region, free or used
--   Heap/Init, /Alloc, /Free, /Live
--                            `heap_init`, `kmalloc`, `kfree`, and the two after one another
--   Hashtable                kernel/core/hashtable.c: linear probing with tombstones, over an interface
--                            `Key` of a hash and a comparison
--   Hashtable/Probe          the order in which the slots are visited
--   Hashtable/Lookup, /Update, /Change, /Failure
--                            the well-formed table; search, insertion, removal, and what fails
--   Lock                     kernel/core/lock.c: the two words, and the places of a thread
--   Lock/Step                one atomic access of one thread as a step, and runs
--   Lock/Writers, /Intrusion runs of writers only; a reader that meets a writer
--   Object, Object/Balance   kernel/core/object.c: the count of references; when an object is freed
--   Scheduler                kernel/core/scheduler.c: links between threads as two functions on addresses,
--                            written one pointer at a time
--   Scheduler/Ring, /Add, /Failure
--                            the closed ring as a list; `scheduler_add_thread` and `scheduler_yield` on it;
--                            where the scheduler comes to a stop
--   Mt19937, Mt19937/Supply  kernel/core/mt19937_64.c: the Mersenne twister; the numbers that it gives
--   Random, Random/Bytes     kernel/core/random.c: `random_bytes`, over the numbers drawn
--   PhysicalAllocator        kernel/core/physical_allocator.c: the stack of free ranges, each with a header
--                            in its first page
--   PhysicalAllocator/Ranges, /States, /Alloc, /Remove
--                            the stack as a list; taking a page, giving back, and removal
--   PhysicalAllocator/Boot, /Boot/Regions, /Boot/Inserted
--                            `insert_regions`: which memory is free at the start
--   Paging                   kernel/arch/x64/paging.c: the tables as functions of their indices, and each
--                            function on pages and ranges of them
--   Paging/Walk, /Mapping, /Translate, /Ranges, /Access, /Teardown
--                            the mapping that the tables stand for, and what the functions do to it
--   Paging/Outside           the same for the addresses at which no table is seen
--   Paging/Index, /Window    the indices of an address; where the tables are seen
--   Slab, Slab/Request, /RoundTrip, /Init
--                            kernel/core/slab.c over the region vectors and the tables
--   Vga, Vga/Scroll, /Cursor kernel/device/vga.c: the cells and the cursor
--   Format, Format/Digits, /Text
--                            kernel/core/format.c: directives, digits, and the buffer
--   Keyboard, Keyboard/Shift kernel/device/ps2_keyboard.c: the handler, over the console
--   Interrupts, Interrupts/Handlers
--                            kernel/arch/x64/interrupts.c and kernel/arch/x64/pic.c
--   String/Words             numbers of 16, 32 and 64 bits in memory
--   Elf                      include/truth/elf.h and kernel/core/elf.c: the layout, the checks, sections
--   Elf/Dynamic              relocations, and the functions that a module runs at its start and end
--   Elf/Symbols              the search for the address of a symbol, and which one it finds
--   Elf/Verified, /Names, /Sections, /Lowest, /Plan, /Relocated
--                            which files are accepted; names, sections and the base that are found;
--                            memory after the relocations
--   Module, Module/Load      kernel/core/module.c: signatures, the symbols of a module, `module_load`
--   Symbols, Symbols/Enter   kernel/core/symbols.c over the hash table; the symbols of the kernel
--   File                     kernel/core/file.c: a store of files, and each operation
--   File/Children, /Attach, /Names
--                            the children of a file as a count; attaching and detaching; names and paths
--   Process, Process/Pool, /Threads
--                            kernel/core/process.c: identifiers, the array of threads, `thread_init`
--   SortedList, SortedList/Chain
--                            kernel/core/sorted_list.c: links, and the list of entries they make
--   Entropy, Entropy/Pool    kernel/core/entropy.c: the pool of bytes as a stack
--   Bitmap, Bitmap/Index     kernel/core/bitmap.c: the words, and the entry that is reported
--   Tests, Tests/*           runs at concrete inputs
--
-- Words of 64 bits are numbers, with the wrap of each sum and difference written out. Addresses in
-- memory accesses do not wrap. Loops over an array are recursions on what is left of it; the probing
-- loops of the hash table run on fuel equal to the number of slots, which is enough, since after so
-- many steps a probe is back where it began; `strlen` takes its fuel as an argument. `hashtable_put`
-- calls itself through `hashtable_rebalance` and is unrolled to depth two: the new table has twice the
-- size and takes at most as many entries as the old one had. The loop of `scheduler_fini` takes its
-- number of rounds as an argument, and what is stated of it holds for every number.
--
-- Locks other than in Lock are taken by one processor: a lock is free or is its caller's, and to take
-- the latter is to be `stuck`.
--
-- The loop of `physical_page_remove` runs on fuel, of which one step for each free range and one more are
-- enough; that of `vfprintf` has its format's length, which is enough, since each step takes a
-- character.
--
-- Names and paths are read with fuel for every address, so that only a string without an end is `stuck`;
-- the search for an identifier of a process has 2^32 rounds, one for each; the loops of the sorted list
-- take their fuel as an argument, and what is stated of them says how much is enough or holds for all.
-- `file_fini` takes the depth of the tree. In Elf, sums of addresses wrap, as the contents of a file are
-- not trusted, and NULL is 0. A module's functions, the check of a signature and, in Elf, `symbol_get`
-- are arguments; symbols are known by the addresses of their names.
--
-- In Paging and Slab the pages of `physical_alloc` are a supply, whose end stands for `invalid_phys_addr`,
-- and distinct pages are distinct memory. Entry 256 of the first table is that table again, so that the
-- addresses below it show the tables, and `physical_alloc` maps `Kernel_Pivot_Page` anew: neither is in the
-- tables of `Space`, and what is stated of whole address spaces is of the other, ordinary addresses. The
-- vector `slab_higher_half` is extended by a page that it gives up itself, as in kernel/core/slab.c; other
-- vectors are told by a Boolean whether they get one. The results of other calls are arguments: whether a page or
-- `kmalloc` has been served, the base address of the heap, the numbers of `random_bytes`, what a port
-- reads, what a handler of interrupts does, and the `write` of a file. The flushes of the translation
-- buffer, CR3 and log output are left out.
--
-- Not modelled: `region_alloc_random` and what calls it; the string hash of the hash table and
-- `hashtable_destroy`; the `user_` variants of the string routines; `random_init` and `random_address`;
-- `paging_init`, `page_table_init` and `page_table_clone`; `process_init`, `process_fini` and the blocks
-- that `process_free` gives back; `module_set_section_permissions` and `modules_init`; the switch of
-- registers; the attaching of devices; functions that only print; timers, the clock and the serial
-- port, which are port accesses; the cryptography, which is a copy of a library.
pub mod Elf
pub mod File
pub mod Process
pub mod SortedList
pub mod Bitmap
pub mod Entropy
pub mod Module
pub mod Symbols
pub mod Base
pub mod Types
pub mod String
pub mod RegionVector
pub mod Heap
pub mod Hashtable
pub mod Lock
pub mod Object
pub mod Scheduler
pub mod Mt19937
pub mod Random
pub mod Paging
pub mod PhysicalAllocator
pub mod Slab
pub mod Vga
pub mod Format
pub mod Keyboard
pub mod Interrupts
pub mod Tests
