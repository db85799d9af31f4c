-- ===== src/Volume/Mounts.antt =====
-- What `fatMount`, `ext2Mount` and `dvmProbeMountDiscIface` leave of the discs of the program put together.
use libdvm.Base.{
  ℕ, ◌+◌, ◌-◌, ◌%◌, ◌^◌, ◌<◌, ◌≡◌, refl, subst, Bool, true, false, Option, none, some, ◌==◌,
  if◌then◌else◌, Bool-cases, inl, inr,
}
use libdvm.Base.Strings.{Str}
use libdvm.Disc.Memory.{Buf}
use libdvm.Disc.Object.{DvmDisc}
use libdvm.Disc.Wrap.{DiscInterface, wrap_vt, disc_create, is_bad_geometry}
use libdvm.Prober.Table.{DvmPartInfo}
use libdvm.Fat.Mount.{FatMounts}
use libdvm.Ext4.Mount.{Ext4Mounts}
use libdvm.Volume.Drivers.{DvmFsDriver, DrvTable, register_fs_driver, find_driver}
use libdvm.Volume.Mount.{Platform, DvmVolume, take_str, mount_partition}
use libdvm.Volume.Probe.{DiscPlace, make_disc, probe_mount_disc_iface, mount_device}
use libdvm.Volume.Discs.{mount_partition-users}
use libdvm.Volume.Owner.{OwnerLaws, mounted_device-Owned}
use libdvm.Volume.Probed.{probe_mount_disc_iface-Owned, mount_device-twice}
use libdvm.Volume.Machine.{
  DiscSelf, VolumeData, disc_of, Machine, Newlib, self_vt, machine_os, machine_place,
}
use libdvm.Volume.Machined.{machine-OwnerLaws}

-- The disc has no users, if there is one.
IsIdle : {Dev : Type 0} → Option (DvmDisc Dev) → Type 0
IsIdle none = Unit {0}
IsIdle (some disc) = disc.num_users ≡ 0

disc_create-IsIdle :
    {Dev : Type 0} (iface : DiscInterface Dev) (d : Dev) → IsIdle (disc_create iface d).1
unfolding disc_create IsIdle
disc_create-IsIdle iface d = elim (Bool-cases (iface.startup d).1) [
  | inr off ↦ rw off tt
  | inl on ↦ elim (Bool-cases (iface.is_inserted (iface.startup d).0).1) [
    | inr out ↦ rw (on, out) tt
    | inl there ↦ elim (Bool-cases (is_bad_geometry iface)) [
      | inl bad ↦ rw (on, there, bad) tt
      | inr good ↦ rw (on, there, good) refl
    ]
  ]
]

disc_create-fresh :
    {Dev : Type 0} (iface : DiscInterface Dev) (d : Dev) (disc : DvmDisc Dev)
    → (disc_create iface d).1 ≡ some disc
    → disc.num_users ≡ 0
unfolding IsIdle
disc_create-fresh iface d disc made = subst IsIdle made (disc_create-IsIdle iface d)

module _ {Dev Fs Mp Os : Type 0} (iface : DiscInterface Dev) (is_aligned : Bool)
    (ff : FatMounts (DiscSelf Dev) Fs) (ext : Ext4Mounts (DiscSelf Dev) Mp)
    (can_format can_write enotsup : ℕ) (nl : Newlib Os) (page_data : Buf) (p : ℕ) where
  -- The platform, and the place of the disc of a device at the address `p`.
  abbrev pub dvm_os : Platform (Machine Dev Fs Mp Os) VolumeData
  dvm_os = machine_os (wrap_vt iface) is_aligned ff ext can_format can_write enotsup nl

  abbrev pub dvm_place : DiscPlace (Machine Dev Fs Mp Os) (DiscSelf Dev)
  dvm_place = machine_place (wrap_vt iface) is_aligned (disc_create iface) page_data p

  owner : OwnerLaws dvm_os dvm_place disc_of (λ w. w.destroyed p)
  owner =
      machine-OwnerLaws (wrap_vt iface) is_aligned ff ext can_format can_write enotsup nl
        (disc_create iface) (disc_create-fresh iface) page_data p

  room_of :
      ((v : DvmVolume VolumeData) (o : Os) → (nl.add_device v o).1 ≡ true)
      → (v : DvmVolume VolumeData) (w : Machine Dev Fs Mp Os) → (dvm_os.add_device v w).1 ≡ true
  room_of room v w = room v w.os

  -- A mount of a partition that succeeds makes one user more of its disc, in 16 bits, and one that fails
  -- leaves the number of its users, whichever of its steps fails: of a disc with a number of users of 16
  -- bits.
  pub mount_partition-Users :
      (table : DrvTable) (name : Str) (part : DvmPartInfo) (fstype : Str) (w : Machine Dev Fs Mp Os)
      → (w.discs p).num_users < 2 ^ 16
      → let r = mount_partition dvm_os table name p part fstype w in
        (r.0.discs p).num_users ≡ ((w.discs p).num_users + (if r.1 then 1 else 0)) % 2 ^ 16
  mount_partition-Users table name part fstype w lt =
      mount_partition-users owner.users table name part fstype w lt

  -- `fatMount` and `ext2Mount` leave no disc behind that nobody uses, and destroy none twice: if they
  -- succeed the disc that was made has the volume as its only user and was not destroyed, and if they
  -- fail it was destroyed once, where one was made. This is for a platform that has room for another
  -- device.
  pub mount_device-Owned :
      ((v : DvmVolume VolumeData) (o : Os) → (nl.add_device v o).1 ≡ true)
      → (fsdrv : DvmFsDriver) (fstype : Str) (table : DrvTable) (name : Str) (has_iface : Bool)
        (start_sector cache_pages sectors_per_page : ℕ) (w : Machine Dev Fs Mp Os)
      → let made = (make_disc dvm_place has_iface cache_pages sectors_per_page w).1 in
        let r =
          mount_device dvm_os dvm_place fsdrv fstype table name has_iface start_sector cache_pages
            sectors_per_page w in
        (r.2 ≡ true → (r.1.destroyed p ≡ w.destroyed p) × ((r.1.discs p).num_users ≡ 1))
        × (r.2 ≡ false → r.1.destroyed p ≡ w.destroyed p + (if made then 1 else 0))
  mount_device-Owned room fsdrv fstype table name has_iface start_sector cache_pages
        sectors_per_page w =
      let o =
        mounted_device-Owned owner (room_of room) fsdrv fstype table name has_iface start_sector
          cache_pages sectors_per_page w in
      (o.kept, o.gone)

  -- `dvmProbeMountDiscIface` leaves a disc that it made with as many users as volumes that it mounted, in
  -- 16 bits, and destroys it, once, exactly if it mounted none: on a platform that has room for another
  -- device.
  pub probe_mount_disc_iface-Users :
      ((v : DvmVolume VolumeData) (o : Os) → (nl.add_device v o).1 ≡ true)
      → (buf : Buf) (table : DrvTable) (basename : Str) (has_iface : Bool)
        (cache_pages sectors_per_page : ℕ) (w : Machine Dev Fs Mp Os)
      → let made = (make_disc dvm_place has_iface cache_pages sectors_per_page w).1 in
        let r =
          probe_mount_disc_iface dvm_os dvm_place
            (self_vt (wrap_vt iface) is_aligned)
            buf
            table
            basename
            has_iface
            cache_pages
            sectors_per_page
            w in
        (0 < r.1 → (r.0.destroyed p ≡ w.destroyed p) × ((r.0.discs p).num_users ≡ r.1 % 2 ^ 16))
        × (r.1 ≡ 0 → r.0.destroyed p ≡ w.destroyed p + (if made then 1 else 0))
  probe_mount_disc_iface-Users room buf table basename has_iface cache_pages sectors_per_page w =
      probe_mount_disc_iface-Owned owner (room_of room) (self_vt (wrap_vt iface) is_aligned) buf
        table basename has_iface cache_pages sectors_per_page w

  -- If the platform has no room for another device, `fatMount` and `ext2Mount` fail and destroy the disc
  -- that they made twice, with a cache or without, where the driver can mount it: the unmount of its
  -- last user has destroyed it already.
  pub mount_device-destroys_twice :
      ((v : DvmVolume VolumeData) (o : Os) → (nl.add_device v o).1 ≡ false)
      → (fsdrv : DvmFsDriver) (fstype : Str) (table : DrvTable) (name : Str) (has_iface : Bool)
        (start_sector cache_pages sectors_per_page : ℕ) (w : Machine Dev Fs Mp Os)
        (found : DvmFsDriver) (device : VolumeData)
      → let c = make_disc dvm_place has_iface cache_pages sectors_per_page w in
        c.1 ≡ true
        → (register_fs_driver fsdrv table).1 ≡ true
        → find_driver fstype (register_fs_driver fsdrv table).0 ≡ some found
        → (dvm_os.mount found
            (take_str 32 name)
            p
            (record {
              index = 0;
              type = 0;
              fstype = some fstype;
              start_sector = start_sector;
              num_sectors = if start_sector == 0 then (c.0.discs p).num_sectors else 2 ^ 32 - 1;
            })
            c.0).1
          ≡ some device
        → let r =
            mount_device dvm_os dvm_place fsdrv fstype table name has_iface start_sector cache_pages
              sectors_per_page w in
          (r.2 ≡ false) × (r.1.destroyed p ≡ w.destroyed p + 2)
  mount_device-destroys_twice full fsdrv fstype table name has_iface start_sector cache_pages
        sectors_per_page w found device made reg at there =
      mount_device-twice owner (λ v u. full v u.os) fsdrv fstype table name has_iface start_sector
        cache_pages sectors_per_page w found device made reg at there
