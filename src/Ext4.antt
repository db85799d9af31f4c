-- ===== src/Ext4.antt =====
-- `source/ext4_driver.c`: the driver of ext2, ext3 and ext4 volumes over the library lwext4.
pub mod Result
pub mod Device
pub mod Mount
pub mod Files
pub mod WriteBack
pub mod Paths
mod Tests
