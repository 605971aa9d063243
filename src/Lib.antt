-- ===== src/Lib.antt =====
-- Verification of the kernel of swink, a small AArch64 kernel for the Raspberry Pi.
--
-- The program
--   The kernel (kernel/) boots (core/start), builds its page tables and the physmap
--   (machine/pmap/pmap_init.c, pmap.c), and hands physical memory to the page-frame allocator and
--   metadata store (machine/pmap/pmap_pfa.c), a buddy allocator with six levels of entries, from one
--   4K page to 32. The allocator serialises its callers by a spin lock
--   (machine/synchronization/synchs.c), keeps its free entries in linked lists (lib/list.c) whose
--   elements lie in the free pages themselves, and marks every free entry by a bit in the bitmap of
--   its level. main asks the VideoCore for the memory's size by a message (machine/io/vc), and has
--   the console on a mini UART (machine/io/mini_uart, console). Around this stand the power
--   controller, the exception handlers of core/exception and the boot-time tests of testing.
--
-- What models what
--   Common       Boolean tests, lists, and the outcomes of kernel functions. `assert` is ASSERT and
--                REQUIRE of kernel/lib/assert.h, in builds where both are compiled in.
--   Common.Word  `uint32_t` and `uint64_t` as numbers with the wrap-around written out, and the
--                compiler's `__builtin_ctz` and `__builtin_clzl` with their documented results.
--   LinkedLists  What kernel/lib/list.h documents of the lists, as an interface; kernel/lib/list.c is
--                not modelled. It is met by lists as a function of their address.
--   Synchs       kernel/machine/synchronization/synchs.c: `semaphore_down` for synchs_semaphore_down,
--                `lock_acquire` for synchs_lock_acquire and so on, for one thread.
--     Threads    the loads, compare-exchanges and additions of the same functions as steps of any
--                number of threads, in any order
--   Pmap         kernel/machine/pmap/pmap.c: `kva_to_pa`, `pa_to_kva` and `physmap_kva_to_pa` for the
--                functions pmap_kva_to_pa, pmap_pa_to_kva and pmap_physmap_kva_to_pa. The global
--                `physmap_vm_base` is an argument.
--     Pte        the fields of table entries in kernel/machine/pmap/pmap_asm.h
--     Templates  its templates
--     Tables     vm_init_map_contiguous of kernel/machine/pmap/pmap_init.c and what it calls: Tree
--                says what a walk finds, and Install, Lookup, Reach, Write, Round and Range follow
--                the loop
--     Boot       pmap_vm_init: Kernel has the address space that it maps, Run the mappings in a row,
--                Physmap the physmap in it, and Whole the tables with the allocator behind them
--   Pfa          kernel/machine/pmap/pmap_pfa.c, under the source's names less the prefix `pmap_pfa_`:
--     Levels     page counts, levels, buddies and roots, which read no state
--     State      `struct pmap_pfa` and the bitmaps
--     Insert     buddy_insert_range_freed_locked and get_pfa_free_entry_for_page
--     Alloc      pmap_pfa_alloc_contig and pmap_pfa_alloc_contig_small_locked
--     Free       pmap_pfa_free_contig and buddy_free_pages_locked
--     Metadata   apply_metadata_range_locked, pmap_pfa_mds_get_metadata and
--                pmap_pfa_mds_require_range_type
--     Init       pmap_pfa_init, the sizes of the bitmaps and the addresses of bitmaps and metadata;
--                Memory says what initialisation leaves where the two overlap, Pages follows its calls,
--                and Breaks says what the overlap does to the invariant
--     Debug      pmap_pfa_get_state, and in Debug.Walks pmap_pfa_contains and pmap_pfa_dump_state
--     Invariant  what ties lists, bitmaps and free pages together
--     RoundTrip  an allocation and a free, and two allocations
--     Unique     what the free pages determine of the entries and the lists
--     Ledger     which pages are out after an allocation or a free
--     Reached    the states after any number of them, as a relation
--     Spare      how many entries of the top level are left
--
--   Io           the registers of kernel/machine/io/gpio.h on a bus, and the loops that wait for one
--     Uart       kernel/machine/io/mini_uart/mini_uart.c
--     Console    kernel/machine/io/console/console.c
--     Pmc        kernel/machine/io/pmc/pmc.c
--     Vc         kernel/machine/io/vc/vc_mailbox.c and the messages of vc_functions.c, whose property
--                calls are in Vc.Functions
--   Exceptions   kernel/core/exception/exception.c: the syndrome, the register dump, the handlers
--     Frame      what exception.S saves on the stack of EL1 for them, and restores
--   Panics       kernel/lib/debug.c
--   PlatformRegisters
--                kernel/machine/platform_registers.h
--   Start        main of kernel/core/start/start.c, of a kernel that is not built for testing; Ends
--                follows its questions to the VideoCore, and Boots the whole of it
--   Testing      kernel/testing: Runner for runner.c, Sweeps for tests/test_pmap_pfa.c, whose modules
--                Simple, Multi and Oom follow the three tests and Suite all of them
--
--   A state `Pfa` is the singleton `*pfa` with the memory of the list links; a function that changes
--   it returns the state after it. The page tables are 64-bit words of a memory that is passed along
--   with the arena's pointer (`Arena`). A device is passed along too, and changes with every read and
--   write of a `Bus`, which is hardware: what the drivers need of it are the laws of the records
--   MiniUart and VideoCore. A panic and a loop without end are outcomes (`panic`, `diverges`).
--
-- Bounds and fuel
--   Loops run on fuel, and answer `diverges` without it. The loop of buddy_insert_range_freed_locked
--   has one round more than pages, since each round takes a page; the search of an allocation has
--   seven, one more than the levels; the merge of a free has six, one more than the levels that
--   merge. The loops over
--   the pages of a range, the levels of the bitmaps and the bits of a word recurse on their count; the
--   loop of min_buddy_level_for_size_no_overflow has six rounds where it takes at most five.
--   The loops that wait for a register take a number of reads as fuel, which is enough if the device
--   settles within fewer; a call of the mailbox needs one more for each value that is queued. The loop
--   that dumps registers has eight rounds where it takes seven, and oom_sweep one more than pages.
--   The loop that maps a range recurses on its pages.
--   The invariant bounds page ids by 2 ^ 20, since the code shifts them by 12 in 32 bits, and asks
--   that the first managed page is a multiple of 32, the size of a top-level entry.
--
-- What is not modelled
--   Memory is not bytes. The bitmaps, the metadata and the list links are separate parts of the
--   state. The metadata that pmap_pfa_init lays out begins inside the bitmaps, 264 bytes before their
--   end: initialisation is modelled with that overlap (`bitmaps_written` and `metadata_written` carry
--   what is written to the one over to the other), for more than 1,024 pages; with fewer, the metadata
--   reaches into the structure too. Allocation, freeing and what follows them are modelled with bitmaps
--   and metadata apart, as the comments of the source intend: they start from a state that satisfies
--   the invariant, which is what initialisation builds, and not what it leaves where the metadata has
--   replaced bits. The store of the lists holds the lists of the allocator alone.
--   The allocator runs in one thread: there, a lock that is held makes its next taker spin for ever.
--   The steps of threads on a lock are sequentially consistent; memory orders are not modelled.
--   Memory of page tables, of the allocator and of devices are separate. That pages are mapped twice
--   under different addresses, the caches and the switch to the new tables are not modelled.
--   Text that is printed and the message of a panic are left out; of the dumps of registers and of
--   the allocator the values that are printed are kept. The formatter is a parameter, by the
--   characters that it passes on. Of the assembly of kernel/core, the saving and restoring of
--   registers is modelled for exceptions within the kernel, and nothing else. The copies of another
--   kernel's library in kernel/lib are not modelled. A panic of the kernel is an outcome that ends it;
--   what debug.c does then is in Panics.
pub mod Common
pub mod LinkedLists
pub mod Synchs
pub mod Exceptions
pub mod Io
pub mod Pmap
pub mod Pfa
pub mod Panics
pub mod PlatformRegisters
pub mod Start
pub mod Testing
