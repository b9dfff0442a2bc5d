-- ===== src/Guest.antt =====
-- include/guest.h, guest.c and the `rom_t` of include/rom.h: the state of the virtual machine, and
-- what the hypervisor does for it when it traps.
pub mod State
pub mod Memory
pub mod Vm
pub mod Decode
pub mod Spr
pub mod Emulate
pub mod Trap
pub mod Init
pub mod Laws
