-- ===== src/Fs.antt =====
-- entradasalida/src/dialfs.c and auxiliar.c: the file system of an interface, whose files are runs of blocks that a
-- bitmap keeps.
pub mod Bitmap
pub mod Files
pub mod Truncate
pub mod Ownership
pub mod Dialfs
mod Tests
