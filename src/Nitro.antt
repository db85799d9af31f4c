-- ===== src/Nitro.antt =====
-- `source/nitrofs.c`: the file system in the ROM of a program.
pub mod Files
pub mod Position
pub mod Dirs
pub mod Listing
pub mod Init
mod Tests
