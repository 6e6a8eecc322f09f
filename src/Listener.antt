-- ===== src/Listener.antt =====
-- rs/src/main.rs: the start of the process, its only listener, and its shutdown.
pub mod Addresses
pub mod Group
pub mod Effects
pub mod Socket
pub mod Start
pub mod Serving
