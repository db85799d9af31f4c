-- ===== src/Volume/Tests.antt =====
-- A run of the registry of drivers.
use libdvm.Base.{[], ◌∷◌, arith}
use libdvm.Prober.Ident.{vfat, ext2}
use libdvm.Volume.Drivers.{DvmFsDriver, register_fs_driver}
use libdvm.Volume.Registry.{Registered, register_fs_driver-Registered}

abbrev fat_driver : DvmFsDriver
fat_driver = record { address = 0x1000; fstype = vfat; device_data_sz = 600 }

abbrev ext_driver : DvmFsDriver
ext_driver = record { address = 0x2000; fstype = ext2; device_data_sz = 800 }

register_fs_driver-Registered_example :
    Registered ext_driver (fat_driver ∷ []) (register_fs_driver ext_driver (fat_driver ∷ []))
register_fs_driver-Registered_example =
    register_fs_driver-Registered ext_driver (fat_driver ∷ []) (tt, tt)
      (λ e. absurd (omega arith), tt) (omega arith)
