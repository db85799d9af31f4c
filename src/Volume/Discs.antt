-- ===== src/Volume/Discs.antt =====
-- The users of a disc over the mounts of `source/dvm_volume.c`.
use libdvm.Base.{
  ℕ, ◌+◌, ◌-◌, ◌%◌, ◌^◌, ◌<◌, ◌≡◌, refl, ◌∙◌, Bool, true, false, Option, none, some, [],
  if◌then◌else◌, arith, Bool-cases, inl, inr,
}
use libdvm.Base.Strings.{Str}
use libdvm.Prober.Table.{DvmPartInfo}
use libdvm.Volume.Drivers.{DvmFsDriver, DrvTable, find_driver}
use libdvm.Volume.Mount.{
  Platform, DvmVolume, take_str, set_default, add_volume, mount_with, mount_partition,
}
use libdvm.Volume.Keeps.{set_default-keeps}
use libdvm.Volume.Probe.{DiscPlace}

abbrev pub has_value : {A : Type 0} → Option A → Bool
has_value none = false
has_value (some a) = true

abbrev pub users_of : {World D : Type 0} → DiscPlace World D → World → ℕ
users_of place w = (place.get_disc w).num_users

-- The counter with one user more and one user less.
abbrev pub one_more : ℕ → ℕ
one_more u = (u + 1) % 2 ^ 16

abbrev pub one_less : ℕ → ℕ
one_less u = (u + 2 ^ 16 - 1) % 2 ^ 16

-- What the drivers and newlib do to the number of users of the disc of a place: a driver that mounts a
-- partition of it becomes a user, and one that unmounts what it mounted of it ceases to be one.
-- `disc_of` is the address of the disc that a volume is on.
pub record UserLaws {World Device D : Type 0} (os : Platform World Device)
    (place : DiscPlace World D) (disc_of : Device → ℕ) : Type 0 where
  pub mount_users :
      (d : DvmFsDriver) (name : Str) (part : DvmPartInfo) (w : World)
      → let r = os.mount d name place.disc part w in
        users_of place r.0
        ≡ (if has_value r.1 then one_more (users_of place w) else users_of place w)
  pub mount_disc :
      (d : DvmFsDriver) (name : Str) (part : DvmPartInfo) (w : World) (device : Device)
      → (os.mount d name place.disc part w).1 ≡ some device
      → disc_of device ≡ place.disc
  pub umount_users :
      (d : DvmFsDriver) (device : Device) (w : World)
      → disc_of device ≡ place.disc
      → users_of place (os.umount d device w) ≡ one_less (users_of place w)
  pub add_users :
      (v : DvmVolume Device) (w : World) → users_of place (os.add_device v w).0 ≡ users_of place w
  pub chdir_users : (dir : Str) (w : World) → users_of place (os.chdir dir w) ≡ users_of place w

module _ {World Device D : Type 0} {os : Platform World Device} {place : DiscPlace World D}
    {disc_of : Device → ℕ} (laws : UserLaws os place disc_of) where
  set_default-users :
      (name : Str) (d : Option Str) (w : World)
      → users_of place (set_default os name d w) ≡ users_of place w
  set_default-users name d w =
      set_default-keeps os (λ u. users_of place u ≡ users_of place w)
        (λ dir u e. laws.chdir_users dir u ∙ e) name d w refl

  add_volume-users :
      (u : ℕ) (name : Str) (fsdrv : DvmFsDriver) (w : World) (device : Option Device)
      → u < 2 ^ 16
      → users_of place w ≡ (if has_value device then one_more u else u)
      → ((v : Device) → device ≡ some v → disc_of v ≡ place.disc)
      → let r = add_volume os name fsdrv w device in
        users_of place r.0 ≡ (u + (if r.1 then 1 else 0)) % 2 ^ 16
  unfolding add_volume
  add_volume-users u name fsdrv w none lt h at = omega arith
  add_volume-users u name fsdrv w (some device) lt h at =
      let v : DvmVolume Device = record { name = name; fsdrv = fsdrv; device_data = device } in
      let r : World × Bool = os.add_device v w in
      elim (Bool-cases r.1) [
        | inl ok ↦
            rw ok (set_default-users name (os.device_name [] r.0) r.0 ∙ laws.add_users v w ∙ h)
        | inr bad ↦ rw bad (
            omega (
              arith,
              laws.umount_users fsdrv device r.0 (at device refl),
              laws.add_users v w,
              h,
              lt,
            ))
      ]

  mount_with-users :
      (name : Str) (part : DvmPartInfo) (w : World) (d : Option DvmFsDriver)
      → users_of place w < 2 ^ 16
      → let r = mount_with os name place.disc part w d in
        users_of place r.0 ≡ (users_of place w + (if r.1 then 1 else 0)) % 2 ^ 16
  unfolding mount_with
  mount_with-users name part w none lt = omega arith
  mount_with-users name part w (some fsdrv) lt =
      let r = os.mount fsdrv (take_str 32 name) place.disc part w in
      add_volume-users (users_of place w) (take_str 32 name) fsdrv r.0 r.1 lt
        (laws.mount_users fsdrv (take_str 32 name) part w)
        (laws.mount_disc fsdrv (take_str 32 name) part w)

  pub mount_partition-users :
      (table : DrvTable) (name : Str) (part : DvmPartInfo) (fstype : Str) (w : World)
      → users_of place w < 2 ^ 16
      → let r = mount_partition os table name place.disc part fstype w in
        users_of place r.0 ≡ (users_of place w + (if r.1 then 1 else 0)) % 2 ^ 16
  unfolding mount_partition
  mount_partition-users table name part fstype w =
      mount_with-users name part w (find_driver fstype table)
