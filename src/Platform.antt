-- ===== src/Platform.antt =====
-- tailslayer/include/tailslayer/utilities.hpp: what the library asks of the operating system.
pub mod Channel
pub mod Region
pub mod Allocation
pub mod Contiguity
pub mod LargePages
pub mod Host
