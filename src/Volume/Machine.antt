-- ===== src/Volume/Machine.antt =====
-- The parts of the program put together: discs at addresses, each a wrapped device or a cache of one, with
-- what `source/dvm_disc.c`, `source/dvm_cache.c`, `source/fat_driver.c` and `source/ext4_driver.c` do to
-- them. The devices, FatFs, lwext4 and newlib are parameters.
use libdvm.Base.{ℕ, ◌+◌, Bool, true, false, Option, none, some, ◌==◌, if◌then◌else◌}
use libdvm.Base.Strings.{Str, str_eq}
use libdvm.Disc.{DvmDiscIface, ReadReply, WriteReply}
use libdvm.Disc.Memory.{Buf}
use libdvm.Disc.Object.{DvmDisc, disc_vt}
use libdvm.Prober.Ident.{vfat, ext2}
use libdvm.Prober.Table.{DvmPartInfo}
use libdvm.Cache.Types.{DvmDiscCache}
use libdvm.Cache.Flush.{cache_flush}
use libdvm.Cache.Create.{cache_create, cache_read, cache_write, cache_destroy}
use libdvm.Fat.Medium.{FatVolume}
use libdvm.Fat.Mount.{FatMounts, FatMounted, mount_as, fat_umount, vfat_parm, exfat_parm, MkfsParm}
use libdvm.Ext4.Device.{BlockDev, block_dev}
use libdvm.Ext4.Mount.{Ext4Mounts, Ext4Mounted, ext4_mount_r, ext4_umount_r}
use libdvm.Volume.Drivers.{DvmFsDriver}
use libdvm.Volume.Mount.{Platform, DvmVolume}
use libdvm.Volume.Probe.{DiscPlace}

-- What a disc works on.
pub data DiscSelf (Dev : Type 0) : Type 0 where
  wrapped : Dev → DiscSelf Dev
  cached : DvmDiscCache (DvmDisc Dev) → DiscSelf Dev

-- The disc with other operations.
abbrev pub with_self : {A B : Type 0} → DvmDisc A → B → DvmDisc B
with_self disc self = record {
  self = self;
  io_type = disc.io_type;
  features = disc.features;
  num_users = disc.num_users;
  num_sectors = disc.num_sectors;
  sector_sz = disc.sector_sz;
  block_sz = disc.block_sz;
}

-- The operations of a disc, from those of the device. `is_aligned` is whether the buffer of an access is.
module _ {Dev : Type 0} (vt : DvmDiscIface Dev) (is_aligned : Bool) where
  abbrev pub self_destroy : DiscSelf Dev → DiscSelf Dev
  self_destroy (wrapped d) = wrapped (vt.destroy d)
  self_destroy (cached c) = cached (record c { inner = (cache_destroy vt c).0 })

  -- An access of a cache always ends.
  abbrev pub cache_reply :
      DvmDiscCache (DvmDisc Dev)
      → Buf
      → Option (ReadReply (DvmDiscCache (DvmDisc Dev)))
      → ReadReply (DiscSelf Dev)
  cache_reply c b none = record { state = cached c; buf = b; ok = false }
  cache_reply c b (some r) = record { state = cached r.state; buf = r.buf; ok = r.ok }

  abbrev pub self_read : DiscSelf Dev → Buf → ℕ → ℕ → Bool → ReadReply (DiscSelf Dev)
  self_read (wrapped d) b f n k =
      let r = vt.read_sectors d b f n k in
      record { state = wrapped r.state; buf = r.buf; ok = r.ok }
  self_read (cached c) b f n k = cache_reply c b (cache_read (disc_vt vt) is_aligned c b f n k)

  abbrev pub self_write : DiscSelf Dev → Buf → ℕ → ℕ → Bool → WriteReply (DiscSelf Dev)
  self_write (wrapped d) b f n k =
      let r = vt.write_sectors d b f n k in record { state = wrapped r.state; ok = r.ok }
  self_write (cached c) b f n k =
      let r = cache_reply c b (cache_write (disc_vt vt) is_aligned c b f n k) in
      record { state = r.state; ok = r.ok }

  abbrev pub self_flush : DiscSelf Dev → WriteReply (DiscSelf Dev)
  self_flush (wrapped d) = let r = vt.flush d in record { state = wrapped r.state; ok = r.ok }
  self_flush (cached c) =
      let r = cache_flush (disc_vt vt) c in record { state = cached r.state; ok = r.ok }

  -- The bound of a cache is the field of its disc.
  abbrev pub self_resize : ℕ → DiscSelf Dev → DiscSelf Dev
  self_resize n (wrapped d) = wrapped (vt.set_num_sectors n d)
  self_resize n (cached c) = cached (record c { num_sectors = n })

  abbrev pub self_vt : DvmDiscIface (DiscSelf Dev)
  self_vt = record {
    destroy = self_destroy;
    read_sectors = self_read;
    write_sectors = self_write;
    flush = self_flush;
    set_num_sectors = self_resize;
  }

module _ {Dev : Type 0} (page_data : Buf) where
  -- The disc behind `dvmDiscCacheCreate`, which returns the disc itself where it refuses, as it does
  -- if the loop that calculates the shift finds none.
  abbrev pub cache_made :
      DvmDisc (DiscSelf Dev)
      → Option (Option (DvmDisc (DvmDiscCache (DvmDisc Dev))))
      → DvmDisc (DiscSelf Dev)
  cache_made disc none = disc
  cache_made disc (some none) = disc
  cache_made disc (some (some c)) = with_self c (cached c.self)

  unfoldable pub cached_disc :
      ℕ → ℕ → DvmDisc (DiscSelf Dev) → DiscSelf Dev → DvmDisc (DiscSelf Dev)
  cached_disc pages size disc (wrapped d) =
      cache_made disc (cache_create (with_self disc d) pages size page_data)
  cached_disc pages size disc (cached c) = disc

-- The device data of a volume, with the address of its disc.
pub data VolumeData : Type 0 where
  fat_data : FatVolume → ℕ → VolumeData
  ext_data : BlockDev → ℕ → VolumeData

abbrev pub disc_of : VolumeData → ℕ
disc_of (fat_data vol disc) = disc
disc_of (ext_data bdev disc) = disc

-- The discs at their addresses, how often each was destroyed and `dvmDiscCreate` called for it, the states of FatFs, of lwext4 and of a
-- device without a disc, and that of newlib.
pub record Machine (Dev Fs Mp Os : Type 0) : Type 0 where
  pub discs : ℕ → DvmDisc (DiscSelf Dev)
  pub destroyed : ℕ → ℕ
  pub made : ℕ → ℕ
  pub fs : Fs
  pub mp : Mp
  pub dev : Dev
  pub os : Os

-- What newlib does.
pub record Newlib (Os : Type 0) : Type 0 where
  pub add_device : DvmVolume VolumeData → Os → Os × Bool
  pub remove_device : Str → Os → Os
  pub device_name : Str → Os → Option Str
  pub volume_of : Str → Os → Option (DvmVolume VolumeData)
  pub chdir : Str → Os → Os

-- newlib with the number of times that `AddDevice` accepted a volume.
abbrev pub counted : {Os : Type 0} → Newlib Os → Newlib (Os × ℕ)
counted nl = record {
  add_device = λ v o. let r = nl.add_device v o.0 in ((r.0, if r.1 then o.1 + 1 else o.1), r.1);
  remove_device = λ name o. (nl.remove_device name o.0, o.1);
  device_name = λ name o. nl.device_name name o.0;
  volume_of = λ name o. nl.volume_of name o.0;
  chdir = λ dir o. (nl.chdir dir o.0, o.1);
}

abbrev pub put : {A : Type 0} → ℕ → A → (ℕ → A) → ℕ → A
put p a h q = if q == p then a else h q

abbrev pub parm_of : Str → ℕ → MkfsParm
parm_of fstype = if str_eq fstype vfat then vfat_parm else exfat_parm

module _ {Dev Fs Mp Os : Type 0} where
  -- What the mount of FatFs or of lwext4 leaves, with the disc at `p`.
  abbrev pub fat_mounted :
      ℕ
      → Machine Dev Fs Mp Os
      → FatMounted (DiscSelf Dev) Fs
      → Machine Dev Fs Mp Os × Option VolumeData
  fat_mounted p w r = (
    record w { discs = put p r.disc w.discs; fs = r.fs },
    if r.ok then some (fat_data r.vol p) else none,
  )

  abbrev pub ext_mounted :
      ℕ
      → BlockDev
      → Machine Dev Fs Mp Os
      → Ext4Mounted (DiscSelf Dev) Mp
      → Machine Dev Fs Mp Os × Option VolumeData
  ext_mounted p bdev w r = (
    record w { discs = put p r.disc w.discs; mp = r.mp },
    if r.ok then some (ext_data bdev p) else none,
  )

  -- The disc at `p` behind an unmount, and whether it was destroyed.
  abbrev pub released :
      ℕ → DvmDisc (DiscSelf Dev) → Bool → Machine Dev Fs Mp Os → Machine Dev Fs Mp Os
  released p disc gone w = record w {
    discs = put p disc w.discs;
    destroyed = put p (w.destroyed p + (if gone then 1 else 0)) w.destroyed;
  }

  module _ (vt : DvmDiscIface Dev) (is_aligned : Bool) (ff : FatMounts (DiscSelf Dev) Fs)
      (ext : Ext4Mounts (DiscSelf Dev) Mp) (can_format can_write enotsup : ℕ) (nl : Newlib Os) where
    -- The mount of the drivers: the one of ext4 has its own file system, the others are FatFs's.
    unfoldable pub machine_mount :
        DvmFsDriver
        → Str
        → ℕ
        → DvmPartInfo
        → Machine Dev Fs Mp Os
        → Machine Dev Fs Mp Os × Option VolumeData
    machine_mount d name p part w =
        if str_eq d.fstype ext2
        then ext_mounted p (block_dev (w.discs p) part) w
            (ext4_mount_r ext can_write enotsup (w.discs p) part w.mp)
        else fat_mounted p w (mount_as ff can_format (parm_of d.fstype) (w.discs p) part w.fs)

    unfoldable pub machine_umount : VolumeData → Machine Dev Fs Mp Os → Machine Dev Fs Mp Os
    machine_umount (fat_data vol p) w =
        let r = fat_umount ff (self_vt vt is_aligned) vol w.fs (w.discs p) in
        released p r.1 r.2 (record w { fs = r.0 })
    machine_umount (ext_data bdev p) w =
        let r = ext4_umount_r ext (self_vt vt is_aligned) bdev w.mp (w.discs p) in
        released p r.1 r.2 (record w { mp = r.0 })

    abbrev pub machine_os : Platform (Machine Dev Fs Mp Os) VolumeData
    machine_os = record {
      mount = machine_mount;
      umount = λ d device w. machine_umount device w;
      add_device = λ v w. let r = nl.add_device v w.os in (record w { os = r.0 }, r.1);
      remove_device = λ name w. record w { os = nl.remove_device name w.os };
      device_name = λ name w. nl.device_name name w.os;
      volume_of = λ name w. nl.volume_of name w.os;
      chdir = λ dir w. record w { os = nl.chdir dir w.os };
    }

  module _ (vt : DvmDiscIface Dev) (is_aligned : Bool) (create : Dev → Dev × Option (DvmDisc Dev))
      (page_data : Buf) where
    -- `disc = dvmDiscCreate(iface)`, where `create` is that function and `p` what `malloc` gives.
    abbrev pub place_disc :
        ℕ → Machine Dev Fs Mp Os → Dev × Option (DvmDisc Dev) → Machine Dev Fs Mp Os × Bool
    place_disc p w (d, none) = (record w { dev = d; made = put p (w.made p + 1) w.made }, false)
    place_disc p w (d, some disc) = (
      record w {
        dev = d;
        made = put p (w.made p + 1) w.made;
        discs = put p (with_self disc (wrapped disc.self)) w.discs;
      },
      true,
    )

    -- The disc at `p`.
    abbrev pub machine_place : ℕ → DiscPlace (Machine Dev Fs Mp Os) (DiscSelf Dev)
    machine_place p = record {
      disc = p;
      get_disc = λ w. w.discs p;
      set_disc = λ d w. record w { discs = put p d w.discs };
      disc_create = λ w. place_disc p w (create w.dev);
      disc_cache_create = λ pages size w. record w {
        discs = put p (cached_disc page_data pages size (w.discs p) (w.discs p).self) w.discs;
      };
      disc_destroy = λ w.
          let disc = w.discs p in
          released p (record disc { self = self_destroy vt is_aligned disc.self }) true w;
    }
