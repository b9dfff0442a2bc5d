-- ===== src/Guest/Laws/Opcode31.antt =====
-- The last branch of the emulation in guest.c, which takes every other word of opcode 31.
