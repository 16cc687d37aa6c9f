-- ===== src/World.antt =====
-- The world as the server stores and sends it: generated terrain, and the players' changes to it.
pub mod Changes
pub mod Blocks
pub mod Section
pub mod Cache
pub mod Sorted
pub mod Store
pub mod Fluids
