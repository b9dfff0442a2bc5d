-- ===== src/Mmu.antt =====
-- mmu.c and include/mmu.h: effective addresses, the segment lookaside buffer, and the hashed
-- page table of the host. The children hold the parts of mmu.c, and the theorems.
pub mod Types
pub mod Address
pub mod Slb
pub mod Encode
pub mod Htab
pub mod Map
