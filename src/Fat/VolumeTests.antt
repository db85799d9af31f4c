-- ===== src/Fat/VolumeTests.antt =====
-- Runs of the volumes, times and directories of the FAT driver over small stand-ins for FatFs.
use libdvm.Base.{
  ℕ, ◌+◌, ◌≡◌, refl, true, false, ◌==◌, ltb, if◌then◌else◌, List, [], ◌∷◌, map, none, inl, inr,
  arith,
}
use libdvm.Base.Integers.{pos}
use libdvm.Base.Strings.{Str}
use libdvm.Disc.{DiscLaws}
use libdvm.Disc.Memory.{Sector}
use libdvm.Disc.Ram.{Ram, ram_vt, ram_content, RamIsOk, ram_laws}
use libdvm.Disc.Object.{DvmDisc, disc_vt, disc_laws}
use libdvm.Prober.Table.{DvmPartInfo}
use libdvm.Fat.Errno.{FResult, fr_ok, fr_no_filesystem, enoent, failed}
use libdvm.Fat.Files.{FatFs}
use libdvm.Fat.Medium.{FatVolume, disk_write}
use libdvm.Fat.Window.{volume_vt, volume-DiscLaws, disk_write-outside}
use libdvm.Fat.Times.{Tm, make_fattime, make_time, fdate_of, ftime_of, make_time-make_fattime}
use libdvm.Fat.Mount.{FatMounts, mount_as, vfat_parm, mount_as-UsersOk, UsersOk}
use libdvm.Fat.Truncate.{FatSizes, SizeLaws, Truncated, ftruncate_r, ftruncate_r-Truncated}
use libdvm.Fat.Info.{FilInfo, FatLimits}
use libdvm.Fat.Paths.{FatTree}
use libdvm.Fat.Listing.{DirLaws, list_dir, listed, list_dir-lists}

abbrev disc : DvmDisc Ram
disc = record {
  self = record { sectors = λ a. a ∷ []; broken = false };
  io_type = 1;
  features = 3;
  num_users = 1;
  num_sectors = 64;
  sector_sz = 512;
  block_sz = 0;
}

abbrev content : DvmDisc Ram → ℕ → Sector
content d = ram_content d.self

abbrev AnyDisc : DvmDisc Ram → Type 0
AnyDisc d = RamIsOk d.self

-- A volume of 20 sectors behind the first 10.
abbrev vol : FatVolume
vol = record { start_sector = 10; num_sectors = 20 }

volume-DiscLaws_example :
    DiscLaws (volume_vt (disc_vt ram_vt) vol) 20 (λ d a. content d (10 + a)) AnyDisc
volume-DiscLaws_example = volume-DiscLaws (disc_laws (ram_laws 64)) vol (omega arith) (omega arith)

disk_write-outside_example :
    content (disk_write (disc_vt ram_vt) vol disc (λ a. 9 ∷ []) 16 4 false).0 30 ≡ content disc 30
disk_write-outside_example =
    disk_write-outside (disc_laws (ram_laws 64)) vol (omega arith) (omega arith) disc (λ a. 9 ∷ [])
      16 4 false 30 tt (omega arith) (omega arith) (inr (omega arith))

-- The 29th of February 2024, 23:59:59.
abbrev leap_day : Tm
leap_day = record {
  tm_year = 124;
  tm_mon = 1;
  tm_mday = 29;
  tm_hour = 23;
  tm_min = 59;
  tm_sec = 59;
}

make_time-make_fattime_example :
    make_time (fdate_of (make_fattime leap_day)) (ftime_of (make_fattime leap_day))
    ≡ record { year = 124; mon = pos 1; mday = 29; hour = 23; minute = 59; sec = 58 }
make_time-make_fattime_example = make_time-make_fattime leap_day (record {
  from_1980 = omega arith;
  to_2107 = omega arith;
  mon = omega arith;
  mday = omega arith;
  hour = omega arith;
  minute = omega arith;
  sec = omega arith;
})

-- A FatFs that finds a file system on the first partition alone.
abbrev mounts : FatMounts Ram ℕ
mounts = record {
  f_mount = λ vol ipart fs self.
      if vol.start_sector == 10 then (fr_ok, 1, self) else (fr_no_filesystem, 0, self);
  f_umount = λ vol fs self. (0, self);
  f_mkfs = λ vol ipart opt fs self. (fr_ok, 0, self);
}

abbrev part : DvmPartInfo
part = record { index = 1; type = 6; fstype = none; start_sector = 10; num_sectors = 20 }

mount_as-UsersOk_example : UsersOk mounts ram_vt disc (mount_as mounts 4 vfat_parm disc part 0)
mount_as-UsersOk_example = mount_as-UsersOk mounts ram_vt 4 vfat_parm disc part 0 (omega arith)

-- A file is its position and its size.
abbrev files : FatFs ℕ (ℕ × ℕ)
files = record {
  f_open = λ vol path m. (fr_ok, vol, (0, 100));
  f_close = λ vol fp. (fr_ok, vol);
  f_read = λ vol fp n. (fr_ok, fp, n);
  f_write = λ vol fp buf n. (fr_ok, vol, fp, n);
  f_lseek = λ vol fp p. (fr_ok, vol, (p, if ltb fp.1 p then p else fp.1));
  f_tell = λ fp. fp.0;
  f_size = λ fp. fp.1;
}

abbrev sizes : FatSizes ℕ (ℕ × ℕ)
sizes = record {
  f_expand = λ vol fp n. (fr_ok, vol, fp);
  f_truncate = λ vol fp. (fr_ok, vol, (fp.0, fp.0));
  f_sync = λ vol fp. (fr_ok, vol, fp);
}

sizes_laws : SizeLaws files sizes
sizes_laws = record {
  lseek_within = λ vol fp p le ok. (refl, ground arith);
  lseek_behind = λ vol fp p lt ok. (omega arith, omega arith);
  truncate_at = λ vol fp ok. (refl, refl);
  expand_tells = λ vol fp n. refl;
  expand_size = λ vol fp n. inl refl;
}

ftruncate_r-Truncated_example :
    Truncated files (70, 100) (ftruncate_r files sizes 0 (70, 100) (pos 30)).1 30
unfolding ftruncate_r
ftruncate_r-Truncated_example = ftruncate_r-Truncated sizes_laws 0 (70, 100) 30 (omega arith) refl

abbrev info_of : Str → FilInfo
info_of name = record {
  fname = name;
  fsize = 1000;
  fattrib = 1;
  am_rdo = true;
  am_dir = false;
  fclust = 5;
  fdate = 0;
  ftime = 0;
  crdate = 0;
  crtime = 0;
  acdate = 0;
  actime = 0;
}

-- A FatFs whose directories are the lists of their entries.
abbrev read_head : ℕ → List FilInfo → FResult × ℕ × List FilInfo × FilInfo
read_head vol [] = (fr_ok, vol, [], info_of [])
read_head vol (e ∷ es) = (fr_ok, vol, es, e)

abbrev tree : FatTree ℕ (List FilInfo)
tree = record {
  f_stat = λ vol path. (fr_ok, vol, info_of path);
  f_unlink = λ vol path d. (fr_ok, vol);
  f_chdir = λ vol path. (fr_ok, vol);
  f_rename = λ vol old_path new_path. (fr_ok, vol);
  f_mkdir = λ vol path. (fr_ok, vol);
  f_utime = λ vol path t. (fr_ok, vol);
  f_chmod = λ vol path a m. (fr_ok, vol);
  f_getlabel = λ vol. (fr_ok, vol, []);
  f_setlabel = λ vol label. (fr_ok, vol);
  f_opendir = λ vol path. (fr_ok, vol, []);
  f_rewinddir = λ vol dp. (fr_ok, vol, dp);
  f_readdir = read_head;
  f_closedir = λ vol dp. (fr_ok, vol);
  info = λ vol. record { csize = 8; ssize = 512; n_fatent = 100; is_exfat = false };
}

abbrev limits : FatLimits
limits = record { ff_lfn_buf = 255; name_max = 255; path_max = 1024; buffer_align = 32 }

tree_laws : DirLaws tree limits (λ dp. dp)
tree_laws = record {
  ends = λ vol dp h. rw h (refl, refl);
  next = λ vol dp e es h. rw h (refl, refl, refl, refl);
}

abbrev entries : List FilInfo
entries = info_of (97 ∷ []) ∷ info_of (98 ∷ 99 ∷ []) ∷ []

list_dir-lists_example :
    list_dir tree 512 disc limits 3 0 entries
    ≡ (map (listed tree 512 disc limits 0) entries, failed enoent)
list_dir-lists_example =
    list_dir-lists tree 512 disc limits tree_laws entries 0 entries refl
      (λ h. cc, omega arith, omega arith, (λ h. cc, omega arith, omega arith, tt))
