-- ===== src/Config.antt =====
-- internal/config: the configuration's types, defaults and validation.
pub mod Types
pub mod App
pub mod Check
pub mod Warnings
