-- ===== src/Engine/Compile.antt =====
-- The compilation of a site into its topology (crates/iem-engine/src/topology.rs, `compile`).
-- `Compile.Strips` has its inputs, groups and mixes, `Compile.Whole` what the mixes hear of each
-- other and the whole. The other children prove.
mod Strips
mod Whole
pub mod Parts
pub mod Channels
pub mod Heard
pub mod Echo
pub mod Indices
pub mod Order
pub mod Names
pub mod Entities
pub mod Once
unfoldable pub use Strips.*
unfoldable pub use Whole.*
