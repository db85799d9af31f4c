-- ===== src/Volume/Probed.antt =====
-- What `dvmProbeMountDiscIface` of `source/dvm_prober.c` leaves of a disc, and what happens to a disc
-- where the platform has no room for another device.
use libdvm.Base.{
  ◌%◌, ℕ, ◌+◌, ◌-◌, ◌^◌, ◌≡◌, refl, ap, ◌∙◌, Bool, true, false, some, ◌==◌, if◌then◌else◌, arith,
  Bool-cases, inl, inr, ◌<◌,
}
use libdvm.Base.Strings.{Str}
use libdvm.Disc.{DvmDiscIface}
use libdvm.Disc.Memory.{Buf}
use libdvm.Prober.Table.{DvmPartInfo, read_partition_table}
use libdvm.Prober.Keeps.{read_partition_table-users}
use libdvm.Volume.Drivers.{DvmFsDriver, DrvTable, register_fs_driver, find_driver}
use libdvm.Volume.Mount.{Platform, DvmVolume, take_str, add_volume, mount_with, mount_partition}
use libdvm.Volume.Discs.{has_value, users_of, one_more, one_less}
use libdvm.Volume.Probe.{
  DiscPlace, probe_mount_disc, make_disc, probe_mount_disc_iface, mount_device, mount_if,
  destroy_if,
}
use libdvm.Volume.Owner.{OwnerLaws, made_lem, mount_found-Owned}

module _ {World Device D : Type 0} {os : Platform World Device} {place : DiscPlace World D}
    {disc_of : Device → ℕ} {destroys : World → ℕ} (laws : OwnerLaws os place disc_of destroys) where
  module _ (free : (v : DvmVolume Device) (w : World) → (os.add_device v w).1 ≡ true) where
    pub probe_mount_disc-Owned :
        (vt : DvmDiscIface D) (buf : Buf) (table : DrvTable) (basename : Str) (w : World)
        → users_of place w < 2 ^ 16
        → let r = probe_mount_disc os place vt buf table basename w in
          (destroys r.0 ≡ destroys w) × (users_of place r.0 ≡ (users_of place w + r.1) % 2 ^ 16)
    unfolding probe_mount_disc
    probe_mount_disc-Owned vt buf table basename w lt =
        let t = read_partition_table vt 4 true buf (place.get_disc w) in
        let users : users_of place (place.set_disc t.0 w) ≡ users_of place w =
          ap (λ d. d.num_users) (laws.set_get t.0 w)
          ∙ read_partition_table-users vt 4 true buf (place.get_disc w) in
        let found =
          mount_found-Owned laws free table basename t.1 (place.set_disc t.0 w)
            (omega (arith, users, lt)) in
        (found.0 ∙ laws.set_destroys t.0 w, omega (arith, found.1, users))

    pub probe_mount_disc_iface-Owned :
        (vt : DvmDiscIface D) (buf : Buf) (table : DrvTable) (basename : Str) (has_iface : Bool)
        (cache_pages sectors_per_page : ℕ) (w : World)
        → let r =
            probe_mount_disc_iface os place vt buf table basename has_iface cache_pages
              sectors_per_page w in
          let made = (make_disc place has_iface cache_pages sectors_per_page w).1 in
          (0 < r.1 → (destroys r.0 ≡ destroys w) × (users_of place r.0 ≡ r.1 % 2 ^ 16))
          × (r.1 ≡ 0 → destroys r.0 ≡ destroys w + (if made then 1 else 0))
    unfolding probe_mount_disc_iface
    probe_mount_disc_iface-Owned vt buf table basename has_iface cache_pages sectors_per_page w =
        let d = make_disc place has_iface cache_pages sectors_per_page w in
        let (same, idle) = made_lem laws has_iface cache_pages sectors_per_page w in
        elim (Bool-cases d.1) [
          | inr e ↦ rw e (λ h. absurd (omega arith), λ h. omega (arith, same))
          | inl e ↦
              let r = probe_mount_disc os place vt buf table basename d.0 in
              let (kept, users) =
                probe_mount_disc-Owned vt buf table basename d.0 (omega (arith, idle e)) in
              elim (Bool-cases (r.1 == 0)) [
                | inl h ↦
                    rw (e, h)
                      (
                        λ p. absurd (omega arith),
                        λ p. omega (arith, laws.destroy_destroys r.0, kept, same),
                      )
                | inr h ↦
                    rw (e, h)
                      (λ p. (kept ∙ same, omega (arith, users, idle e)), λ p. absurd (ground arith))
              ]
        ]

  module _ (full : (v : DvmVolume Device) (w : World) → (os.add_device v w).1 ≡ false) where
    -- A mount by a driver that works, on a platform without room for another device.
    unadded :
        (table : DrvTable) (name : Str) (part : DvmPartInfo) (fstype : Str) (w : World)
        (fsdrv : DvmFsDriver) (device : Device)
        → find_driver fstype table ≡ some fsdrv
        → (os.mount fsdrv (take_str 32 name) place.disc part w).1 ≡ some device
        → users_of place w ≡ 0
        → let m = mount_partition os table name place.disc part fstype w in
          (m.1 ≡ false) × (destroys m.0 ≡ destroys w + 1)
    unfolding mount_partition mount_with add_volume
    unadded table name part fstype w fsdrv device found there idle =
        let v : DvmVolume Device = record {
          name = take_str 32 name;
          fsdrv = fsdrv;
          device_data = device;
        } in
        let r = os.mount fsdrv (take_str 32 name) place.disc part w in
        let added = os.add_device v r.0 in
        let here : has_value r.1 ≡ true = ap has_value there in
        let mounted : users_of place r.0 ≡ 1 =
          laws.users.mount_users fsdrv (take_str 32 name) part w
          ∙ ap (λ b. if b then one_more (users_of place w) else users_of place w) here
          ∙ ap one_more idle in
        let one : (one_less (users_of place added.0) == 0) ≡ true =
          ap (λ u. one_less u == 0) (laws.users.add_users v r.0 ∙ mounted) in
        let on = laws.users.mount_disc fsdrv (take_str 32 name) part w device there in
        let gone : destroys (os.umount fsdrv device added.0) ≡ destroys added.0 + 1 =
          laws.umount_destroys fsdrv device added.0 on
          ∙ ap (λ b. destroys added.0 + (if b then 1 else 0)) one in
        rw (found, there, full v r.0)
          (
            refl,
            omega (
              arith,
              gone,
              laws.add_destroys v r.0,
              laws.mount_destroys fsdrv (take_str 32 name) part w,
            ),
          )

    pub mount_device-twice :
        (fsdrv : DvmFsDriver) (fstype : Str) (table : DrvTable) (name : Str) (has_iface : Bool)
        (start_sector cache_pages sectors_per_page : ℕ) (w : World) (found : DvmFsDriver)
        (device : Device)
        → let c = make_disc place has_iface cache_pages sectors_per_page w in
          c.1 ≡ true
          → (register_fs_driver fsdrv table).1 ≡ true
          → find_driver fstype (register_fs_driver fsdrv table).0 ≡ some found
          → (os.mount found
              (take_str 32 name)
              place.disc
              (record {
                index = 0;
                type = 0;
                fstype = some fstype;
                start_sector = start_sector;
                num_sectors =
                    if start_sector == 0 then (place.get_disc c.0).num_sectors else 2 ^ 32 - 1;
              })
              c.0).1
            ≡ some device
          → let r =
              mount_device os place fsdrv fstype table name has_iface start_sector cache_pages
                sectors_per_page w in
            (r.2 ≡ false) × (destroys r.1 ≡ destroys w + 2)
    unfolding mount_device mount_if destroy_if
    mount_device-twice fsdrv fstype table name has_iface start_sector cache_pages sectors_per_page w
          found device made reg at there =
        let c = make_disc place has_iface cache_pages sectors_per_page w in
        let (same, idle) = made_lem laws has_iface cache_pages sectors_per_page w in
        let t = (register_fs_driver fsdrv table).0 in
        let part : DvmPartInfo = record {
          index = 0;
          type = 0;
          fstype = some fstype;
          start_sector = start_sector;
          num_sectors = if start_sector == 0 then (place.get_disc c.0).num_sectors else 2 ^ 32 - 1;
        } in
        let m = mount_partition os t name place.disc part fstype c.0 in
        let u = unadded t name part fstype c.0 found device at there (idle made) in
        rw (made, reg, u.0) (refl, omega (arith, laws.destroy_destroys m.0, u.1, same))
