-- ===== src/Cmd.antt =====
-- cmd: the program that puts the packages together.
pub mod Queue
pub mod PollLoop
pub mod StartUp
pub mod Load
pub mod Announce
pub mod Service
