-- ===== src/Volume/OwnerTests.antt =====
-- Runs of the mounts of a device on the program put together, with FatFs and lwext4 that mount everything.
use libdvm.Base.{
  ℕ, ◌+◌, ◌-◌, ◌%◌, ◌^◌, ◌<◌, ◌≡◌, refl, Bool, true, false, none, some, [], ◌∷◌, if◌then◌else◌,
  arith,
}
use libdvm.Base.Strings.{str_eq}
use libdvm.Disc.Ram.{Ram, ram_vt}
use libdvm.Cache.Create.{cache_create, page_shift_from}
use libdvm.Disc.Wrap.{DiscInterface, wrap_vt, disc_create}
use libdvm.Prober.Ident.{vfat}
use libdvm.Prober.Table.{DvmPartInfo}
use libdvm.Fat.Errno.{fr_ok}
use libdvm.Fat.Mount.{FatMounts, mount_as, last_mount}
use libdvm.Ext4.Mount.{Ext4Mounts}
use libdvm.Volume.Drivers.{DvmFsDriver, register_fs_driver, register_from, find_driver}
use libdvm.Volume.Mount.{mount_partition}
use libdvm.Volume.Probe.{make_disc, probe_mount_disc_iface, mount_device}
use libdvm.Volume.Machine.{
  DiscSelf, wrapped, fat_data, Machine, Newlib, self_vt, machine_mount, cached_disc,
}
use libdvm.Volume.Mounts.{
  dvm_os, dvm_place, mount_partition-Users, mount_device-Owned, probe_mount_disc_iface-Users,
  mount_device-destroys_twice,
}

abbrev fat_driver : DvmFsDriver
fat_driver = record { address = 0x1000; fstype = vfat; device_data_sz = 600 }

abbrev ram : Ram
ram = record { sectors = λ a. []; broken = false }

-- A device of 64 sectors that is never removed.
abbrev stick : DiscInterface Ram
stick = record {
  startup = λ d. (d, true);
  is_inserted = λ d. (d, true);
  read_sectors = λ d first n b. ram_vt.read_sectors d b first n false;
  write_sectors = λ d first n b. ram_vt.write_sectors d b first n false;
  flush = ram_vt.flush;
  shutdown = λ d. d;
  io_type = 1;
  features = 3;
  number_of_sectors = 64;
  bytes_per_sector = 512;
  sectors_per_block = 8;
}

abbrev fat : FatMounts (DiscSelf Ram) ℕ
fat = record {
  f_mount = λ vol ipart fs self. (fr_ok, fs + 1, self);
  f_umount = λ vol fs self. (fs - 1, self);
  f_mkfs = λ vol ipart opt fs self. (fr_ok, fs, self);
}

abbrev ext : Ext4Mounts (DiscSelf Ram) ℕ
ext = record {
  ext4_mount = λ b ro mp s. (0, mp + 1, s);
  ext4_recover = λ b mp s. (0, mp, s);
  ext4_journal_start = λ b mp s. (0, mp, s);
  ext4_journal_stop = λ b mp s. (0, mp, s);
  ext4_umount = λ b mp s. (0, mp - 1, s);
}

-- The state of newlib is the number of its devices, and it has room for more or none.
abbrev newlib : Bool → Newlib ℕ
newlib room = record {
  add_device = λ v o. (if room then o + 1 else o, room);
  remove_device = λ name o. o - 1;
  device_name = λ name o. none;
  volume_of = λ name o. none;
  chdir = λ dir o. o;
}

abbrev first : Machine Ram ℕ ℕ ℕ
first = record {
  discs = λ q. record {
    self = wrapped ram;
    io_type = 1;
    features = 3;
    num_users = 65535;
    num_sectors = 64;
    sector_sz = 512;
    block_sz = 8;
  };
  destroyed = λ q. 0;
  made = λ q. 0;
  fs = 0;
  mp = 0;
  dev = ram;
  os = 3;
}

abbrev part : DvmPartInfo
part = record { index = 1; type = 12; fstype = some vfat; start_sector = 8; num_sectors = 50 }

-- The counter of the disc is full.
mount_partition-Users_example :
    let r =
      mount_partition
        (dvm_os stick true fat ext 4 2 95 (newlib false) (λ a. []) 9)
        (fat_driver ∷ [])
        vfat
        9
        part
        vfat
        first in
    (r.0.discs 9).num_users ≡ (65535 + (if r.1 then 1 else 0)) % 2 ^ 16
mount_partition-Users_example =
    mount_partition-Users stick true fat ext 4 2 95 (newlib false) (λ a. []) 9 (fat_driver ∷ [])
      vfat part vfat first (omega arith)

mount_device-Owned_example :
    let place = dvm_place stick true fat ext 4 2 95 (newlib true) (λ a. []) 9 in
    let made = (make_disc place true 16 8 first).1 in
    let r =
      mount_device
        (dvm_os stick true fat ext 4 2 95 (newlib true) (λ a. []) 9)
        place
        fat_driver
        vfat
        []
        vfat
        true
        0
        16
        8
        first in
    (r.2 ≡ true → (r.1.destroyed 9 ≡ 0) × ((r.1.discs 9).num_users ≡ 1))
    × (r.2 ≡ false → r.1.destroyed 9 ≡ 0 + (if made then 1 else 0))
mount_device-Owned_example =
    mount_device-Owned stick true fat ext 4 2 95 (newlib true) (λ a. []) 9 (λ v o. refl) fat_driver
      vfat [] vfat true 0 16 8 first

probe_mount_disc_iface-Users_example :
    let place = dvm_place stick true fat ext 4 2 95 (newlib true) (λ a. []) 9 in
    let made = (make_disc place true 16 8 first).1 in
    let r =
      probe_mount_disc_iface
        (dvm_os stick true fat ext 4 2 95 (newlib true) (λ a. []) 9)
        place
        (self_vt (wrap_vt stick) true)
        (λ a. [])
        (fat_driver ∷ [])
        vfat
        true
        16
        8
        first in
    (0 < r.1 → (r.0.destroyed 9 ≡ 0) × ((r.0.discs 9).num_users ≡ r.1 % 2 ^ 16))
    × (r.1 ≡ 0 → r.0.destroyed 9 ≡ 0 + (if made then 1 else 0))
probe_mount_disc_iface-Users_example =
    probe_mount_disc_iface-Users stick true fat ext 4 2 95 (newlib true) (λ a. []) 9 (λ v o. refl)
      (λ a. []) (fat_driver ∷ []) vfat true 16 8 first

mount_device-destroys_twice_example :
    let r =
      mount_device
        (dvm_os stick true fat ext 4 2 95 (newlib false) (λ a. []) 9)
        (dvm_place stick true fat ext 4 2 95 (newlib false) (λ a. []) 9)
        fat_driver
        vfat
        []
        vfat
        true
        0
        16
        8
        first in
    (r.2 ≡ false) × (r.1.destroyed 9 ≡ 0 + 2)
unfolding register_fs_driver register_from find_driver str_eq make_disc disc_create machine_mount
    mount_as last_mount cached_disc cache_create page_shift_from
mount_device-destroys_twice_example =
    mount_device-destroys_twice stick true fat ext 4 2 95 (newlib false) (λ a. []) 9 (λ v o. refl)
      fat_driver vfat [] vfat true 0 16 8 first fat_driver
      (fat_data (record { start_sector = 0; num_sectors = 64 }) 9) refl refl refl refl
