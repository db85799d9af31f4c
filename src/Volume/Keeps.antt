-- ===== src/Volume/Keeps.antt =====
-- What every part that mounts volumes keeps, `dvmProbeMountDisc` of `source/dvm_prober.c` keeps.
use libdvm.Base.{◌≡◌, ℕ, Bool, true, false, Option, none, some, List, [], ◌∷◌, Bool-cases, inl, inr}
use libdvm.Base.Strings.{Str, str_eq}
use libdvm.Disc.{DvmDiscIface}
use libdvm.Disc.Memory.{Buf}
use libdvm.Disc.Object.{DvmDisc}
use libdvm.Prober.Table.{DvmPartInfo, read_partition_table}
use libdvm.Volume.Drivers.{DvmFsDriver, DrvTable, find_driver}
use libdvm.Volume.Mount.{
  stdnull, Platform, DvmVolume, take_str, set_default, add_volume, mount_with, mount_partition,
}
use libdvm.Volume.Probe.{
  DiscPlace, exfat_name, mount_part, mount_parts, mount_found, probe_mount_disc, volname,
}

-- The drivers and newlib keep `I`, an unmount where there is no room for the device.
pub record OsKeeps {World Device : Type 0} (os : Platform World Device) (I : World → Type 0)
    : Type 0 where
  pub mount :
      (d : DvmFsDriver) (name : Str) (disc : ℕ) (part : DvmPartInfo) (w : World)
      → I w
      → I (os.mount d name disc part w).0
  pub umount :
      (d : DvmFsDriver) (v : DvmVolume Device) (w : World)
      → (os.add_device v w).1 ≡ false
      → I (os.add_device v w).0
      → I (os.umount d v.device_data (os.add_device v w).0)
  pub add_device : (v : DvmVolume Device) (w : World) → I w → I (os.add_device v w).0
  pub chdir : (dir : Str) (w : World) → I w → I (os.chdir dir w)

pub set_default-keeps :
    {World Device : Type 0} (os : Platform World Device) (I : World → Type 0)
    → ((dir : Str) (w : World) → I w → I (os.chdir dir w))
    → (name : Str) (d : Option Str) (w : World) → I w
    → I (set_default os name d w)
unfolding set_default
set_default-keeps os I keep name none w i = keep _ w i
set_default-keeps os I keep name (some d) w i = elim (Bool-cases (str_eq d stdnull)) [
  | inl e ↦ rw e (keep _ w i)
  | inr e ↦ rw e i
]

module _ {World Device : Type 0} {os : Platform World Device} {I : World → Type 0}
    (keeps : OsKeeps os I) where
  add_volume-keeps :
      (name : Str) (fsdrv : DvmFsDriver) (w : World) (device : Option Device)
      → I w
      → I (add_volume os name fsdrv w device).0
  unfolding add_volume
  add_volume-keeps name fsdrv w none i = i
  add_volume-keeps name fsdrv w (some device) i =
      let v : DvmVolume Device = record { name = name; fsdrv = fsdrv; device_data = device } in
      let r : World × Bool = os.add_device v w in
      let i' : I r.0 = keeps.add_device v w i in
      elim (Bool-cases r.1) [
        | inl ok ↦ rw ok (set_default-keeps os I keeps.chdir name (os.device_name [] r.0) r.0 i')
        | inr bad ↦ rw bad (keeps.umount fsdrv v w bad i')
      ]

  mount_with-keeps :
      (name : Str) (disc : ℕ) (part : DvmPartInfo) (w : World) (d : Option DvmFsDriver)
      → I w
      → I (mount_with os name disc part w d).0
  unfolding mount_with
  mount_with-keeps name disc part w none i = i
  mount_with-keeps name disc part w (some fsdrv) i =
      add_volume-keeps (take_str 32 name) fsdrv _ _
        (keeps.mount fsdrv (take_str 32 name) disc part w i)

  pub mount_partition-keeps :
      (table : DrvTable) (name : Str) (disc : ℕ) (part : DvmPartInfo) (fstype : Str) (w : World)
      → I w
      → I (mount_partition os table name disc part fstype w).0
  unfolding mount_partition
  mount_partition-keeps table name disc part fstype w =
      mount_with-keeps name disc part w (find_driver fstype table)

module _ {World Device D : Type 0} {os : Platform World Device} {I : World → Type 0}
    (keeps : OsKeeps os I) (place : DiscPlace World D) where
  mount_part-keeps :
      (table : DrvTable) (basename : Str) (part : DvmPartInfo) (fstype : Option Str) (w : World)
      → I w
      → I (mount_part os place table basename part fstype w).0
  mount_part-keeps table basename part none w i = i
  mount_part-keeps table basename part (some fstype) w i =
      mount_partition-keeps keeps table (volname os place basename part.index) place.disc part
        fstype w i

  mount_parts-keeps :
      (table : DrvTable) (basename : Str) (parts : List DvmPartInfo) (w : World) (n : ℕ)
      → I w
      → I (mount_parts os place table basename parts w n).0
  unfolding mount_parts
  mount_parts-keeps table basename [] w n i = i
  mount_parts-keeps table basename (part ∷ parts) w n i =
      mount_parts-keeps table basename parts _ _
        (mount_part-keeps table basename part part.fstype w i)

  mount_found-keeps :
      (table : DrvTable) (basename : Str) (parts : List DvmPartInfo) (w : World)
      → I w
      → I (mount_found os place table basename parts w).0
  unfolding mount_found
  mount_found-keeps table basename [] w i =
      mount_partition-keeps keeps table basename place.disc _ exfat_name w i
  mount_found-keeps table basename (part ∷ parts) w i =
      mount_parts-keeps table basename (part ∷ parts) w 0 i

  pub probe_mount_disc-keeps :
      (set : (d : DvmDisc D) (w : World) → I w → I (place.set_disc d w)) (vt : DvmDiscIface D)
      (buf : Buf) (table : DrvTable) (basename : Str) (w : World)
      → I w
      → I (probe_mount_disc os place vt buf table basename w).0
  unfolding probe_mount_disc
  probe_mount_disc-keeps set vt buf table basename w i =
      let t = read_partition_table vt 4 true buf (place.get_disc w) in
      mount_found-keeps table basename t.1 (place.set_disc t.0 w) (set t.0 w i)
