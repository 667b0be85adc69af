-- ===== src/Memory.antt =====
-- memoria/src: the memory process. Its state is that of the global variables of memoria/src/main.c; a
-- request is served from what its connection delivers, and the answer is what goes back on it.
pub mod Frames
pub mod Scripts
pub mod State
pub mod Server
pub mod Ownership
pub mod Tests
