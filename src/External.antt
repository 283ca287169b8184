-- ===== src/External.antt =====
-- What the code relies on and does not implement: `double` arithmetic, the maps of the-macro-library
-- and the buffers of a-memory-library, as interfaces that the components take as instance arguments.
pub mod Double
pub mod Table
pub mod Fixed
pub mod Slots
pub mod Buffer
pub mod Queue
pub mod Bag
