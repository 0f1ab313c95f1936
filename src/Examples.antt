-- ===== src/Examples.antt =====
-- Concrete floats, a small site and a core on it, and the theorems applied to them.
mod Decimal
mod Site
mod Tests
mod ServerTests
mod SiteFile
mod ProcessorTests
mod MirrorTests
mod LoopTests
