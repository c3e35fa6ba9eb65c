-- ===== src/Setup.antt =====
-- How the program starts: its informers, its options, its server and its command.
pub mod Factory
pub mod Signal
pub mod Options
pub mod Server
