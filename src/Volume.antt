-- ===== src/Volume.antt =====
-- `source/dvm_volume.c`: the table of file system drivers, and the volumes.
pub mod Drivers
pub mod Registry
pub mod Mount
pub mod Discs
pub mod Probe
pub mod Owner
pub mod Keeps
pub mod Counts
pub mod Probed
pub mod Machine
pub mod Machined
pub mod Mounts
pub mod Made
mod OwnerTests
mod Tests
