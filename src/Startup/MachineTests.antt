-- ===== src/Startup/MachineTests.antt =====
-- Runs of `dvmInit` on the program put together, with FatFs and lwext4 that mount everything.
use libdvm.Base.{ℕ, ◌+◌, ◌-◌, ◌≡◌, true, false, none, some, [], ◌∷◌, ◌&&◌, ltb, if◌then◌else◌}
use libdvm.Disc.Ram.{Ram, ram_vt}
use libdvm.Disc.Wrap.{DiscInterface}
use libdvm.Prober.Ident.{vfat}
use libdvm.Fat.Errno.{fr_ok}
use libdvm.Fat.Mount.{FatMounts}
use libdvm.Ext4.Mount.{Ext4Mounts}
use libdvm.Volume.Drivers.{DvmFsDriver}
use libdvm.Volume.Machine.{wrapped, Machine, Newlib, self_vt}
use libdvm.Startup.Ogc.{wii, usb, OgcDrivers, OgcSystemCalls, Environment}
use libdvm.Startup.OgcMachine.{ogc_start, has_port, ogc_init-accepted, ogc_init-made}
use libdvm.Startup.Calico.{dldi, BlkDevices, BlkTransfers, Settings, calico_vt, calico_init}
use libdvm.Startup.DsMachine.{machine_blk, ds_os, ds_place, calico_init-accepted}

abbrev fat_driver : DvmFsDriver
fat_driver = record { address = 0x1000; fstype = vfat; device_data_sz = 600 }

abbrev ram_disk : Ram
ram_disk = record { sectors = λ a. []; broken = false }

-- A device of 64 sectors that is never removed.
abbrev stick : DiscInterface Ram
stick = record {
  startup = λ d. (d, true);
  is_inserted = λ d. (d, true);
  read_sectors = λ d first n b. ram_vt.read_sectors d b first n false;
  write_sectors = λ d first n b. ram_vt.write_sectors d b first n false;
  flush = ram_vt.flush;
  shutdown = λ d. d;
  io_type = 1;
  features = 3;
  number_of_sectors = 64;
  bytes_per_sector = 512;
  sectors_per_block = 8;
}

abbrev fat : {D : Type 0} → FatMounts D ℕ
fat = record {
  f_mount = λ vol ipart fs self. (fr_ok, fs + 1, self);
  f_umount = λ vol fs self. (fs - 1, self);
  f_mkfs = λ vol ipart opt fs self. (fr_ok, fs, self);
}

abbrev ext : {D : Type 0} → Ext4Mounts D ℕ
ext = record {
  ext4_mount = λ b ro mp s. (0, mp + 1, s);
  ext4_recover = λ b mp s. (0, mp, s);
  ext4_journal_start = λ b mp s. (0, mp, s);
  ext4_journal_stop = λ b mp s. (0, mp, s);
  ext4_umount = λ b mp s. (0, mp - 1, s);
}

-- The state of newlib is the number of its devices.
abbrev newlib : Newlib ℕ
newlib = record {
  add_device = λ v o. (o + 1, true);
  remove_device = λ name o. o - 1;
  device_name = λ name o. none;
  volume_of = λ name o. none;
  chdir = λ dir o. o;
}

-- No disc has been made yet.
abbrev first_of : {Dev : Type 0} → Dev → Machine Dev ℕ ℕ (ℕ × ℕ)
first_of d = record {
  discs = λ q. record {
    self = wrapped d;
    io_type = 1;
    features = 3;
    num_users = 0;
    num_sectors = 64;
    sector_sz = 512;
    block_sz = 0;
  };
  destroyed = λ q. 0;
  made = λ q. 0;
  fs = 0;
  mp = 0;
  dev = d;
  os = (3, 0);
}

abbrev calls : OgcSystemCalls ℕ
calls = record {
  register_reset_func = λ o. o;
  unregister_reset_func = λ o. o;
  fsync = λ fd o. o;
  device_at = λ i o. none;
}

abbrev drivers : OgcDrivers
drivers = record { vfat_driver = some fat_driver; exfat_driver = none; ext2_driver = none }

abbrev env : Environment
env = record { pwd = none; argv0 = some vfat; path_max = 1024 }

ogc_init-accepted_example :
    let r =
      ogc_start
        (λ dev. stick)
        true
        fat
        ext
        4
        2
        95
        newlib
        calls
        (λ a. [])
        (λ a. [])
        (λ dev. true)
        wii
        drivers
        env
        true
        32
        8
        []
        (first_of (usb, ram_disk)) in
    r.2 ≡ ltb 0 r.1.os.1
ogc_init-accepted_example =
    ogc_init-accepted (λ dev. stick) true fat ext 4 2 95 newlib calls (λ a. []) (λ a. [])
      (λ dev. true) wii drivers env true 32 8 [] (first_of (usb, ram_disk))

ogc_init-made_example :
    let r =
      ogc_start
        (λ dev. stick)
        true
        fat
        ext
        4
        2
        95
        newlib
        calls
        (λ a. [])
        (λ a. [])
        (λ dev. true)
        wii
        drivers
        env
        true
        32
        8
        []
        (first_of (usb, ram_disk)) in
    r.1.made 2 ≡ 0 + (if has_port wii usb && true then 1 else 0)
ogc_init-made_example =
    ogc_init-made (λ dev. stick) true fat ext 4 2 95 newlib calls (λ a. []) (λ a. []) (λ dev. true)
      wii drivers env true 32 8 [] (first_of (usb, ram_disk)) usb

abbrev blk : BlkDevices Ram
blk = record {
  blk_init = λ d. d;
  dev_init = λ dev d. (d, true);
  is_present = λ dev d. (d, true);
  sector_count = λ dev d. 64;
  dldi_features = λ d. 3;
}

abbrev transfers : BlkTransfers Ram
transfers = record {
  read_sectors = λ dev d b first n. ram_vt.read_sectors d b first n false;
  write_sectors = λ dev d b first n. ram_vt.write_sectors d b first n false;
}

abbrev settings : Settings
settings = record { is_twl_mode = true; nand_mount = 0; argv0 = some vfat; path_max = 1024 }

calico_init-accepted_example :
    let r =
      calico_init
        (ds_os blk transfers true fat ext 4 2 95 newlib (λ a. []) (λ a. []) (fat_driver ∷ []))
        (machine_blk blk)
        (ds_place blk transfers true fat ext 4 2 95 newlib (λ a. []) (λ a. []) (fat_driver ∷ []))
        (self_vt (calico_vt transfers) true)
        (λ a. [])
        (fat_driver ∷ [])
        2
        settings
        true
        16
        8
        (first_of (dldi, ram_disk)) in
    r.1 ≡ ltb 0 r.0.os.1
calico_init-accepted_example =
    calico_init-accepted blk transfers true fat ext 4 2 95 newlib (λ a. []) (λ a. [])
      (fat_driver ∷ []) settings true 16 8 (first_of (dldi, ram_disk))
