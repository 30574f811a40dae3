-- ===== src/Serial.antt =====
-- internal/serial: framed request/response communication over a lossy, shared serial line.
pub mod Errors
pub mod World
pub mod FrameReader
pub mod Config
pub mod SerialPort
pub mod Supervisor
pub mod Response
