-- ===== src/Startup.antt =====
-- What starts the library on a platform and stops it: `source/dvm_calico.c`, `source/dvm_libogc2.c`
-- and the change of the working directory in `source/dvm_volume.c`.
pub mod WorkingDir
pub mod Calico
pub mod Touches
pub mod Owner
pub mod Ogc
pub mod Linked
pub mod Gba
pub mod Deinit
pub mod Counts
pub mod OgcMachine
pub mod DsMachine
mod MachineTests
mod Tests
mod OgcTests
