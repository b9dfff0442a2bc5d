-- ===== src/Examples.antt =====
-- Concrete inputs on which the theorems apply, and runs of the definitions.
pub mod Boot
pub mod Machine
pub mod Table
pub mod Guests
pub mod Memory
pub mod Words
pub mod Interface
pub mod Start
pub mod Processor
pub mod Isolation
pub mod Pages
