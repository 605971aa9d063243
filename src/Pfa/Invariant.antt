-- ===== src/Pfa/Invariant.antt =====
-- What ties the buddy lists to the buddy bitmaps of `struct pmap_pfa`.
mod Defs
mod Changes
mod Entries
mod Pages
pub use Defs.*
pub use Changes.*
pub use Entries.*
pub use Pages.*
