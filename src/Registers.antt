-- ===== src/Registers.antt =====
-- internal/registers: read cycles, command handling, write priority and derived values.
pub mod Gate
pub mod Device
pub mod Reader
pub mod Resettle
pub mod Writer
pub mod Values
pub mod Derived
pub mod Cycle
