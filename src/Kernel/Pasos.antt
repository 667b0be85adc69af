-- ===== src/Kernel/Pasos.antt =====
-- kernel/src: the steps of the threads, one by one, keep the state consistent.
pub mod Planes
pub mod Tomas
pub mod Salidas
pub mod Esperas
pub mod Ordenes
