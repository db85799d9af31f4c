-- ===== src/Prober.antt =====
-- `source/dvm_prober.c`: the table of partitions of a disc and the file systems on them.
pub mod Ident
pub mod Table
pub mod Scan
pub mod Populated
pub mod Stored
pub mod Keeps
mod Tests
