-- ===== src/Volume/Probe.antt =====
-- What mounts the volumes of a disc: `dvmProbeMountDisc` and `dvmProbeMountDiscIface` of
-- `source/dvm_prober.c`, `fatInit` and `fatMount` of `source/fat_wrappers.c`, and `ext2Mount` of
-- `source/ext2_wrappers.c`.
use libdvm.Base.{
  ℕ, ◌+◌, Bool, true, false, ◌&&◌, not, Option, none, some, List, [], ◌∷◌, ◌++◌, ◌==◌, ltb,
  if◌then◌else◌,
}
use libdvm.Base.Strings.{Str}
use libdvm.Disc.{DvmDiscIface}
use libdvm.Disc.Memory.{Buf}
use libdvm.Disc.Object.{DvmDisc}
use libdvm.Prober.Ident.{vfat, ext2}
use libdvm.Prober.Table.{DvmPartInfo, read_partition_table}
use libdvm.Volume.Drivers.{DvmFsDriver, DrvTable, register_fs_driver}
use libdvm.Volume.Mount.{Platform, take_str, mount_partition, mount_volume}

-- "exfat"
abbrev pub exfat_name : Str
exfat_name = 101 ∷ 120 ∷ 102 ∷ 97 ∷ 116 ∷ []

-- The address of a disc, where the state of the platform holds the disc, and what `dvmDiscCreate`, `dvmDiscCacheCreate` and
-- the operation `destroy` do to it. `disc_create` is whether there is a disc.
pub record DiscPlace (World D : Type 0) : Type 0 where
  pub disc : ℕ
  pub get_disc : World → DvmDisc D
  pub set_disc : DvmDisc D → World → World
  pub disc_create : World → World × Bool
  pub disc_cache_create : ℕ → ℕ → World → World
  pub disc_destroy : World → World

module _ {World D : Type 0} (place : DiscPlace World D) where
  -- The disc of a device, if there is a device, with a cache if there are pages for it.
  unfoldable pub make_disc : Bool → ℕ → ℕ → World → World × Bool
  make_disc has_iface cache_pages sectors_per_page w =
      let c = if has_iface then place.disc_create w else (w, false) in
      if c.1 && not (cache_pages == 0)
      then (place.disc_cache_create cache_pages sectors_per_page c.0, true)
      else c

module _ {World Device D : Type 0} (os : Platform World Device) (place : DiscPlace World D) where
  -- The name of the volume of a partition: the partitions after the first have their number behind it.
  abbrev pub volname : Str → ℕ → Str
  volname basename index = take_str 14 basename ++ (if ltb 1 index then (48 + index) ∷ [] else [])

  -- A partition without a file system is left out.
  abbrev pub mount_part : DrvTable → Str → DvmPartInfo → Option Str → World → World × Bool
  mount_part table basename part none w = (w, false)
  mount_part table basename part (some fstype) w =
      mount_partition os table (volname basename part.index) place.disc part fstype w

  -- The loop over the partitions, with the number of those that were mounted.
  unfoldable pub mount_parts : DrvTable → Str → List DvmPartInfo → World → ℕ → World × ℕ
  mount_parts table basename [] w num_mounted = (w, num_mounted)
  mount_parts table basename (part ∷ parts) w num_mounted =
      let r = mount_part table basename part part.fstype w in
      mount_parts table basename parts r.0 (if r.1 then num_mounted + 1 else num_mounted)

  -- What is mounted of a disc with these partitions.
  unfoldable pub mount_found : DrvTable → Str → List DvmPartInfo → World → World × ℕ
  unfolding mount_parts
  mount_found table basename [] w =
      let r =
        mount_volume os table basename place.disc (place.get_disc w).num_sectors 0 exfat_name w in
      (r.0, if r.1 then 1 else 0)
  mount_found table basename (part ∷ parts) w = mount_parts table basename (part ∷ parts) w 0

  -- `dvmProbeMountDisc`. `buf` is what the buffer of the prober holds at first.
  unfoldable pub probe_mount_disc : DvmDiscIface D → Buf → DrvTable → Str → World → World × ℕ
  unfolding mount_found
  probe_mount_disc vt buf table basename w =
      let r = read_partition_table vt 4 true buf (place.get_disc w) in
      mount_found table basename r.1 (place.set_disc r.0 w)

  -- `dvmProbeMountDiscIface`: the number of volumes that were mounted.
  unfoldable pub probe_mount_disc_iface :
      DvmDiscIface D → Buf → DrvTable → Str → Bool → ℕ → ℕ → World → World × ℕ
  unfolding make_disc probe_mount_disc
  probe_mount_disc_iface vt buf table basename has_iface cache_pages sectors_per_page w =
      let d = make_disc place has_iface cache_pages sectors_per_page w in
      let r = if d.1 then probe_mount_disc vt buf table basename d.0 else (d.0, 0) in
      if (r.1 == 0) && d.1 then (place.disc_destroy r.0, 0) else r

  -- The mount, where there is a disc and the driver is registered.
  unfoldable pub mount_if : Bool → Str → DrvTable → Str → ℕ → World → World × Bool
  mount_if true fstype table name start_sector w =
      mount_volume os table name place.disc (place.get_disc w).num_sectors start_sector fstype w
  mount_if false fstype table name start_sector w = (w, false)

  -- The destruction of a disc of which nothing was mounted.
  unfoldable pub destroy_if : Bool → World × Bool → World × Bool
  destroy_if is_disc r = if not r.1 && is_disc then (place.disc_destroy r.0, r.1) else r

  -- `fatMount` and `ext2Mount`, which differ in the driver and in the file system.
  unfoldable pub mount_device :
      DvmFsDriver → Str → DrvTable → Str → Bool → ℕ → ℕ → ℕ → World → DrvTable × World × Bool
  unfolding make_disc
  mount_device fsdrv fstype table name has_iface start_sector cache_pages sectors_per_page w =
      let d = make_disc place has_iface cache_pages sectors_per_page w in
      let g = if d.1 then register_fs_driver fsdrv table else (table, false) in
      let m = mount_if (g.1 && d.1) fstype g.0 name start_sector d.0 in
      let r = destroy_if d.1 m in (g.0, r.0, r.1)

  -- `fatMount`, `fatMountSimple` with the default sizes, and `ext2Mount`. The driver is the one that
  -- the code names.
  abbrev pub fat_mount :
      DvmFsDriver → DrvTable → Str → Bool → ℕ → ℕ → ℕ → World → DrvTable × World × Bool
  fat_mount vfat_driver = mount_device vfat_driver vfat

  abbrev pub fat_mount_simple :
      DvmFsDriver → ℕ → ℕ → DrvTable → Str → Bool → World → DrvTable × World × Bool
  fat_mount_simple vfat_driver default_pages default_sectors table name has_iface =
      fat_mount vfat_driver table name has_iface 0 default_pages default_sectors

  abbrev pub ext2_mount :
      DvmFsDriver → DrvTable → Str → Bool → ℕ → ℕ → ℕ → World → DrvTable × World × Bool
  ext2_mount ext2_driver = mount_device ext2_driver ext2

-- `fatInit`, from what `dvmInit` does: the drivers are registered in their order.
unfoldable pub fat_init :
    {World : Type 0}
    → (DrvTable → World → World × Bool)
    → DvmFsDriver
    → DvmFsDriver
    → DrvTable
    → World
    → DrvTable × World × Bool
fat_init dvm_init vfat_driver exfat_driver table w =
    let v = register_fs_driver vfat_driver table in
    let e = register_fs_driver exfat_driver v.0 in
    let i = dvm_init e.0 w in
    if not v.1 then (v.0, w, false) else (if not e.1 then (e.0, w, false) else (e.0, i.0, i.1))
