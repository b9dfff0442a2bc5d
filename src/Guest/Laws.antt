-- ===== src/Guest/Laws.antt =====
-- What guest.c's emulation keeps to: the instruction encodings, the register file, the machine
-- state register and the invariant of the guest.
pub mod Encoding
pub mod Registers
pub mod Msr
pub mod Invariant
pub mod Width
pub mod Opcode31
pub mod Start
pub mod Ram
