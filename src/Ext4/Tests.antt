-- ===== src/Ext4/Tests.antt =====
-- Runs of the ext4 driver over a small stand-in for lwext4.
use libdvm.Base.{
  ℕ, ◌+◌, ◌-◌, ◌*◌, ◌/◌, ◌≡◌, refl, Bool, true, false, ◌==◌, if◌then◌else◌, none, [], ◌∷◌, arith,
}
use libdvm.Disc.Ram.{Ram, ram_vt}
use libdvm.Disc.Object.{DvmDisc}
use libdvm.Prober.Table.{DvmPartInfo}
use libdvm.Ext4.Device.{block_dev, block_dev-covers}
use libdvm.Ext4.Mount.{Ext4Mounts, MountLaws, Ext4Users, ext4_mount_r, ext4_mount_r-Ext4Users}
use libdvm.Ext4.Files.{Ext4Files, ext4_open_r, ext4_close_r}
use libdvm.Ext4.WriteBack.{
  CountLaws, Clients, FileReach, here, next, opening, closing, syncing, reach-delays,
}

abbrev disc : DvmDisc Ram
disc = record {
  self = record { sectors = λ a. a ∷ []; broken = false };
  io_type = 1;
  features = 3;
  num_users = 0;
  num_sectors = 64;
  sector_sz = 512;
  block_sz = 0;
}

abbrev part : DvmPartInfo
part = record { index = 1; type = 0x83; fstype = none; start_sector = 10; num_sectors = 20 }

block_dev-covers_example :
    let b = block_dev disc part in
    (b.part_offset / b.ph_bsize ≡ 10)
    × (b.part_size / b.ph_bsize ≡ 20)
    × (b.part_offset + b.part_size ≡ (10 + 20) * b.ph_bsize)
block_dev-covers_example =
    block_dev-covers disc part (omega arith) (omega arith) (omega arith) (omega arith)

-- A mount point is whether it is mounted, and the recovery of the journal fails.
abbrev mounts : Ext4Mounts Ram Bool
mounts = record {
  ext4_mount = λ b ro mp s. (0, true, s);
  ext4_recover = λ b mp s. (5, mp, s);
  ext4_journal_start = λ b mp s. (0, mp, s);
  ext4_journal_stop = λ b mp s. (0, mp, s);
  ext4_umount = λ b mp s. (0, false, s);
}

mounts_laws : MountLaws mounts (λ mp. mp)
mounts_laws = record {
  mounts = λ b ro mp s. refl;
  recovers = λ b mp s. refl;
  starts = λ b mp s. refl;
  stops = λ b mp s. refl;
  unmounts = λ b mp s. refl;
}

ext4_mount_r-Ext4Users_example :
    Ext4Users mounts_laws ram_vt disc (ext4_mount_r mounts 2 134 disc part false)
ext4_mount_r-Ext4Users_example =
    ext4_mount_r-Ext4Users mounts_laws ram_vt 2 134 disc part false (omega arith)

-- A volume is the counter of its mode for delayed writes, and the empty path cannot be opened.
abbrev files : Ext4Files ℕ ℕ
files = record {
  ext4_fopen2 = λ v p f. (if f == 0 then 2 else 0, v, 7);
  ext4_fclose = λ v f. (0, v);
  ext4_fwrite = λ v f b n. (0, v, f, n);
  ext4_fread = λ v f n. (0, v, f, (λ a. []), n);
  ext4_fseek = λ f o w. (0, f);
  ext4_ftell = λ f. 0;
  ext4_ftruncate = λ v f n. (0, v, f);
  ext4_cache_write_back = λ v on. (0, if on then v + 1 else v - 1);
  ext4_cache_flush = λ v. (0, v);
  ext4_atime_set = λ v p t. (0, v);
  ext4_mtime_set = λ v p t. (0, v);
}

files_laws : CountLaws files (λ v. v)
files_laws = record {
  turned_on = λ v. (refl, refl);
  turned_off = λ v. refl;
  opens = λ v p f. refl;
  closes = λ v f. refl;
  writes = λ v f b n. refl;
  reads = λ v f n. refl;
  syncs = λ v. refl;
  atimes = λ v p t. refl;
  mtimes = λ v p t. refl;
}

abbrev clients : ℕ → ℕ → Clients ℕ
clients v n = record { vol = v; files = n }

-- Two opens, of which the second fails, a flush and a close.
session : FileReach files (clients 0 0) (clients 0 0)
unfolding ext4_open_r ext4_close_r
session =
    next {t = clients 1 1}
      (next {t = clients 1 1}
        (next {t = clients 1 1} (next here (opening [] 1 refl)) (opening [] 0 refl)) (syncing refl))
      (closing 7 (omega arith) refl)

reach-delays_example : (clients 0 0).vol ≡ (clients 0 0).files
reach-delays_example = reach-delays files_laws {s = clients 0 0} {t = clients 0 0} refl session
