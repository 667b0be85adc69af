-- ===== src/Kernel.antt =====
-- kernel/src: the kernel process, which starts processes, schedules them on the CPU, and gives them the resources and
-- the interfaces. Its threads work on one state; a step is what one thread does between two waits.
pub mod State
pub mod Corto
pub mod Largo
pub mod Interfaces
pub mod Consola
pub mod Cuentas
pub mod Conserva
pub mod Vuelta
pub mod Pasos
pub mod Hilos
pub mod Lugares
pub mod Errores
pub mod Semaforo
pub mod Vrr
mod Tests
