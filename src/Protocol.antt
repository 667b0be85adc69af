-- ===== src/Protocol.antt =====
-- utils/src/utils: what the four processes send one another.
pub mod Codes
pub mod Packet
pub mod Receive
pub mod Fields
pub mod Pcb
pub mod Mem
pub mod Io
mod Tests
