-- ===== src/Volume/Mount.antt =====
-- `dvmMountPartition`, `dvmMountVolume` and `dvmUnmountVolume` of `source/dvm_volume.c`, where the
-- allocation succeeds. What they call of the drivers and of newlib is a parameter.
use libdvm.Base.{
  ℕ, zero, suc, ◌-◌, ◌^◌, Bool, true, false, Option, none, some, [], ◌∷◌, ◌++◌, ◌==◌, ◌||◌,
  if◌then◌else◌,
}
use libdvm.Base.Strings.{Str, str_eq}
use libdvm.Prober.Table.{DvmPartInfo}
use libdvm.Volume.Drivers.{DvmFsDriver, DrvTable, find_driver}

-- The first `n` characters of a string.
abbrev pub take_str : ℕ → Str → Str
take_str zero s = []
take_str (suc n) [] = []
take_str (suc n) (c ∷ cs) = c ∷ take_str n cs

abbrev pub has_char : ℕ → Str → Bool
has_char c [] = false
has_char c (x ∷ xs) = x == c || has_char c xs

-- The name with its colon.
abbrev pub device_of : Str → Str
device_of [] = []
device_of (c ∷ cs) = if has_char 58 (c ∷ cs) then c ∷ cs else take_str 30 (c ∷ cs) ++ (58 ∷ [])

-- A driver's data and the driver, as a `DvmVolume` has them. `Device` is the device data.
pub record DvmVolume (Device : Type 0) : Type 0 where
  pub name : Str
  pub fsdrv : DvmFsDriver
  pub device_data : Device

-- What the drivers and newlib do. `World` is their state, with the discs. `mount` gets the address
-- of a disc and gives the device data on success. `add_device` is whether `AddDevice` found a slot. `device_name` is the name of what
-- `GetDeviceOpTab` finds, and `volume_of` the volume if that is one, as `_dvmIsVolume` tells.
pub record Platform (World Device : Type 0) : Type 0 where
  pub mount : DvmFsDriver → Str → ℕ → DvmPartInfo → World → World × Option Device
  pub umount : DvmFsDriver → Device → World → World
  pub add_device : DvmVolume Device → World → World × Bool
  pub remove_device : Str → World → World
  pub device_name : Str → World → Option Str
  pub volume_of : Str → World → Option (DvmVolume Device)
  pub chdir : Str → World → World

-- "stdnull"
abbrev pub stdnull : Str
stdnull = 115 ∷ 116 ∷ 100 ∷ 110 ∷ 117 ∷ 108 ∷ 108 ∷ []

module _ {World Device : Type 0} (os : Platform World Device) where
  -- The change of the working directory to the first device.
  unfoldable pub set_default : Str → Option Str → World → World
  set_default name none w = os.chdir (take_str 32 name ++ (58 ∷ 47 ∷ [])) w
  set_default name (some d) w =
      if str_eq d stdnull then os.chdir (take_str 32 name ++ (58 ∷ 47 ∷ [])) w else w

  -- The part behind the mount of the driver, which gave `device`.
  unfoldable pub add_volume : Str → DvmFsDriver → World → Option Device → World × Bool
  add_volume name fsdrv w none = (w, false)
  add_volume name fsdrv w (some device) =
      let r = os.add_device (record { name = name; fsdrv = fsdrv; device_data = device }) w in
      if r.1
      then (set_default name (os.device_name [] r.0) r.0, true)
      else (os.umount fsdrv device r.0, false)

  unfoldable pub mount_with : Str → ℕ → DvmPartInfo → World → Option DvmFsDriver → World × Bool
  mount_with name disc part w none = (w, false)
  mount_with name disc part w (some fsdrv) =
      let r = os.mount fsdrv (take_str 32 name) disc part w in
      add_volume (take_str 32 name) fsdrv r.0 r.1

  -- `dvmMountPartition`, for a partition of which the file system is known.
  unfoldable pub mount_partition : DrvTable → Str → ℕ → DvmPartInfo → Str → World → World × Bool
  mount_partition table name disc part fstype w =
      mount_with name disc part w (find_driver fstype table)

  -- `dvmMountVolume`, on a disc at an address, of `disc_sectors` sectors.
  abbrev pub mount_volume : DrvTable → Str → ℕ → ℕ → ℕ → Str → World → World × Bool
  mount_volume table name disc disc_sectors start_sector fstype w =
      let part : DvmPartInfo = record {
        index = 0;
        type = 0;
        fstype = some fstype;
        start_sector = start_sector;
        num_sectors = if start_sector == 0 then disc_sectors else 2 ^ 32 - 1;
      } in
      mount_partition table name disc part fstype w

  unfoldable pub unmount_found : Str → World → Option (DvmVolume Device) → World × Bool
  unmount_found name w none = (w, false)
  unmount_found name w (some vol) =
      (os.umount vol.fsdrv vol.device_data (os.remove_device name w), true)

  -- `dvmUnmountVolume`, of a name that is not NULL.
  unfoldable pub unmount_volume : Str → World → World × Bool
  unmount_volume name w = unmount_found (device_of name) w (os.volume_of (device_of name) w)
