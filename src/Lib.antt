-- ===== src/Lib.antt =====
-- prephv is a small hypervisor that runs a 32-bit PowerPC guest on a 64-bit machine. This
-- library models its own C code and states what makes it right.
--
-- The parts, the files that model them, and how they meet:
--   Base: arithmetic with wrap-around, the macros of include/defs.h, bit lemmas, and `Run`, what
--     code does that may stop the machine: BUG_ON and FATAL of include/assert.h and
--     include/log.h end in a loop, and are `halt`.
--   Ppc: the constants of include/ppc-defs.h. Endian: the byte swaps of include/endian.h.
--   Ranges: the address ranges of lib/ranges.c, a list in the order of the circular one
--     (`range_add`, `range_remove`). Ranges/Cut says what a list covers; Add, Remove,
--     Paged and Subtract say what the operations do to that.
--   Mem: `mem_get_pages` of mem.c, which takes pages from a list of ranges, and `mem_init`
--     (Mem/Init), which makes the list from the firmware's tree. Mem/Init/Ends is about its fuel,
--     and Mem/Init/Free about what it leaves free.
--   Mmu: mmu.c and include/mmu.h. Mmu/Slb has the segment buffer behind the interface `SlbUnit`
--     of the processor's instructions; Mmu/Address and Mmu/Encode classify and encode addresses;
--     Mmu/Htab has the loops over the page table, a function from the entry's index to its two
--     big-endian words; Mmu/Map has the entry points (`mmu_map`, `mmu_map_range`, `mmu_init`).
--     Mmu/Htab/Refine states what the table is for: a map from pages to second words (`walk`);
--     Mmu/Htab/Pages, that an entry names one page. Mmu/Map/Region has what an address is found
--     as in the table (`lookup`); Mmu/Map/Spaces the stretches of addresses that have one kind of
--     segment and page; Mmu/Map/Fill, Span and Lookup are about the loop of `mmu_map_range` there;
--     Mmu/Map/Hv and Init about `mmu_init`, Mmu/Map/Sdr1 about its register value,
--     Mmu/Map/GuestPages about the guest's RAM, and Mmu/Map/Keeps about pages that stay.
--   Guest: guest.c and include/guest.h. The global `guest` is an option, the frame of the guest
--     and the buffer stand beside it in `Vm`; each branch of the emulation is a function
--     (Guest/Emulate), and Guest/Trap composes them as `guest_exc_try` does. Guest/Init has
--     `guest_init`, and Guest/Laws/Ram is about the pages that it maps. The `mtmsrd` around
--     `rom_call`, a change of the hypervisor's own state register, is left out.
--     Guest/Memory is the memory that the guest and the hypervisor share.
--   Exc: `exc_handler` of exc.c, over `guest_exc_try`, `mmu_map` and the timers. Exc/Client puts
--     the client interface behind it, and has the states that a running guest reaches
--     (`Reaches`); Exc/Pages, over Rom/Call/Pages, is about the hypervisor's own pages in the
--     table, and Exc/Above about the memory that an exception writes, over Guest/Memory/Above,
--     Rom/Property/Above, Rom/Calls/Above and Rom/Call/Above. Exc/Flags has the helpers for
--     external interrupts, over the interface `Processor` of `mtmsrd` and `mtmsr`, and Exc/Init
--     `exc_init`.
--   Time: the timer queue and the conversions of time.c and include/time.h, and `time_handle`
--     (Time/Handle) and `time_delay` (Time/Delay).
--   Rom: rom.c. Rom/Stdio and Rom/Claim have `rom_stdin`, `rom_stdout` and `rom_claim`;
--     Rom/Device the statics and the cells of a call; Rom/Property `rom_memory_getprop` and
--     `rom_getprop`; Rom/Calls and Rom/Calls/Disk a function for each branch of `rom_call`, and
--     Rom/Call those that reach the guest's state, and the dispatcher, whose names Rom/Call/Names
--     has as a table; Rom/Call/Map is about the method "map"; Rom/Disk has the disk image, and
--     Rom/Init `rom_init`; Rom/Init/Same says that it leaves the page table as it is.
--   Boot: how `c_main` of main.c makes and enters the guest, over `guest_init` and `rom_init`;
--     Boot/Cpu has `cpu_init`, and Boot/Main the whole of `c_main`, with what it does to the
--     state register; Boot/Cpu/Table and Boot/Main/Pages follow the page table through both.
--   Log: `_log` of log.c and the output of console.c, as the characters that are sent. Log/Console
--     has `con_getchar` and `con_puts_len` over the firmware (`Opal`), and Rom/Stdio/Terminal the
--     loop of `rom_stdin` over them; Rom/Stdio takes the list of the characters typed.
--   Examples: concrete inputs for the theorems that have hypotheses.
--
-- The memory (`mem` of `Vm`) is a function of the address that the guest or the client interface
-- writes; the statics of the source and the page table are values beside it. The two go together as
-- long as no write comes to where the statics and the table lie. The code does not see to that: the
-- client interface takes all 64 bits of r3, and the method "map" does not bound what it maps. So
-- where this matters there are hypotheses: 32-bit numbers in the program counter and r3 (Exc/Above),
-- and a guest whose addresses are mapped to its RAM only (`Confined` of Exc/Client).
--
-- Parameters: the allocator (`Malloc`, of lib/malloc.c), the SLB instructions (`SlbUnit`),
-- `mtmsrd` and `mtmsr` (`Processor`, with what the architecture says of them in `IsPower`), the
-- calls of libfdt (`Fdt`), of the FAT library (`Fat`) and of the firmware's console (`Opal`),
-- `strstr`, and, where one part is stated over another, `rom_call` and `time_handle`. Rom/Library
-- has those of rom.c, and puts them together as a `Platform`.
--
-- Bounds and fuel: addresses, entries and lengths are natural numbers below the width that the C
-- type has, and each operation that can leave the width has its `% 2 ^ w`. The loops over lists
-- are structural; the loop over a page group runs over its eight entries; the loop of
-- `mmu_map_vpn` runs once for each base page of the actual page; that of `mmu_map_range` runs on
-- fuel, one round for each page of the range. The loop of `time_handle` has no bound of its own:
-- it runs on a list of the readings of the timebase, and ends in `none` if these run out. The
-- search for memory nodes in `mem_init` runs on fuel, one for each node.
--
-- How the processor reads SDR1 is written out in Mmu/Map/Sdr1 (`sdr1_base`, `sdr1_hash_mask`).
--
-- Not modelled: assembly and inline assembly, among it the calls of the firmware, and the copies
-- of libfdt, the FAT library, dlmalloc and the Linux string functions.
pub mod Base
pub mod Boot
pub mod Endian
pub mod Examples
pub mod Exc
pub mod Guest
pub mod Log
pub mod Mem
pub mod Mmu
pub mod Ppc
pub mod Ranges
pub mod Rom
pub mod Time
