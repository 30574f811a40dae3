-- ===== src/Tests.antt =====
-- Inputs at which the theorems are applied, and small runs of the models.
mod Serial
mod SerialPort
mod Fixed
mod Bus
mod Gate
mod Reader
mod Client
mod Resettle
mod Main
mod Session
mod Config
mod Registers
mod Writer
mod Queue
mod Cycle
mod Log
mod Service
mod Announce
mod Load
