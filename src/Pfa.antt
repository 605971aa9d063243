-- ===== src/Pfa.antt =====
-- kernel/machine/pmap/pmap_pfa.c
pub mod Levels
pub mod State
pub mod Insert
pub mod Invariant
pub mod Metadata
pub mod Alloc
pub mod Free
pub mod Init
pub mod Debug
pub mod RoundTrip
pub mod Spare
pub mod Unique
pub mod Ledger
pub mod Reached
pub mod Samples
mod SequenceTests
mod Tests
