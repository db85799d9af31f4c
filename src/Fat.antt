-- ===== src/Fat.antt =====
-- The driver of `source/fat_driver.c` for FAT volumes.
pub mod Errno
pub mod Mode
pub mod Files
pub mod Seek
pub mod Medium
pub mod Window
pub mod Times
pub mod Mount
pub mod Truncate
pub mod Info
pub mod Paths
pub mod Listing
mod VolumeTests
mod Tests
