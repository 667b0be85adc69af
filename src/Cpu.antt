-- ===== src/Cpu.antt =====
-- cpu/src: the CPU process.
pub mod Tlb
pub mod Mmu
pub mod Registers
pub mod Decode
pub mod Service
pub mod Requests
pub mod Instructions
pub mod Exec
mod Tests
