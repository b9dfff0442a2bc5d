-- ===== src/Rom.antt =====
-- rom.c: the client interface that the guest calls. Stdio and Claim are its helpers, Property and
-- Calls the calls, Call the dispatcher.
pub mod Stdio
pub mod Claim
pub mod Library
pub mod Device
pub mod Property
pub mod Calls
pub mod Call
pub mod Disk
pub mod Init
