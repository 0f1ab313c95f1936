-- ===== src/Engine.antt =====
-- The audio engine's control side (crates/iem-engine): the compiled topology, the commands to the
-- real-time thread and the control core.
pub mod Topology
pub mod Rt
pub mod Dsp
pub mod Processor
pub mod Site
pub mod Compile
pub mod Core
pub mod Control
