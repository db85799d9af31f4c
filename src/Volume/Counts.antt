-- ===== src/Volume/Counts.antt =====
-- The number of volumes over the mounts of `source/dvm_volume.c` and `source/dvm_prober.c`.
use libdvm.Base.{
  ℕ, ◌+◌, ◌≡◌, refl, ◌∙◌, Bool, true, false, not, Option, none, some, List, [], ◌∷◌, ◌&&◌, ◌==◌,
  if◌then◌else◌, arith, Bool-cases, inl, inr,
}
use libdvm.Base.Strings.{Str}
use libdvm.Disc.{DvmDiscIface}
use libdvm.Disc.Memory.{Buf}
use libdvm.Disc.Object.{DvmDisc}
use libdvm.Prober.Table.{DvmPartInfo, read_partition_table}
use libdvm.Volume.Drivers.{DvmFsDriver, DrvTable, find_driver}
use libdvm.Volume.Mount.{Platform, DvmVolume, take_str, add_volume, mount_with, mount_partition}
use libdvm.Volume.Keeps.{set_default-keeps}
use libdvm.Volume.Probe.{
  DiscPlace, exfat_name, mount_part, mount_parts, mount_found, probe_mount_disc, make_disc,
  probe_mount_disc_iface, volname,
}

abbrev pub one_if : Bool → ℕ
one_if b = if b then 1 else 0

-- `volumes` counts the volumes among the devices: only `AddDevice` makes one more.
pub record OsCounts {World Device : Type 0} (os : Platform World Device) (volumes : World → ℕ)
    : Type 0 where
  pub mount :
      (d : DvmFsDriver) (name : Str) (disc : ℕ) (part : DvmPartInfo) (w : World)
      → volumes (os.mount d name disc part w).0 ≡ volumes w
  pub umount :
      (d : DvmFsDriver) (device : Device) (w : World) → volumes (os.umount d device w) ≡ volumes w
  pub add_device :
      (v : DvmVolume Device) (w : World)
      → volumes (os.add_device v w).0 ≡ volumes w + one_if (os.add_device v w).1
  pub chdir : (dir : Str) (w : World) → volumes (os.chdir dir w) ≡ volumes w

-- What is done to a disc leaves the volumes.
pub record PlaceCounts {World D : Type 0} (place : DiscPlace World D) (volumes : World → ℕ)
    : Type 0 where
  pub set_disc : (d : DvmDisc D) (w : World) → volumes (place.set_disc d w) ≡ volumes w
  pub disc_create : (w : World) → volumes (place.disc_create w).0 ≡ volumes w
  pub disc_cache_create :
      (n k : ℕ) (w : World) → volumes (place.disc_cache_create n k w) ≡ volumes w
  pub disc_destroy : (w : World) → volumes (place.disc_destroy w) ≡ volumes w

module _ {World Device : Type 0} {os : Platform World Device} {volumes : World → ℕ}
    (counts : OsCounts os volumes) where
  add_volume-volumes :
      (name : Str) (fsdrv : DvmFsDriver) (w : World) (device : Option Device)
      → let r = add_volume os name fsdrv w device in volumes r.0 ≡ volumes w + one_if r.1
  unfolding add_volume
  add_volume-volumes name fsdrv w none = omega arith
  add_volume-volumes name fsdrv w (some device) =
      let v : DvmVolume Device = record { name = name; fsdrv = fsdrv; device_data = device } in
      let r : World × Bool = os.add_device v w in
      let added = counts.add_device v w in
      elim (Bool-cases r.1) [
        | inl ok ↦ rw ok (
            set_default-keeps os (λ u. volumes u ≡ volumes w + 1)
              (λ dir u e. counts.chdir dir u ∙ e) name (os.device_name [] r.0) r.0 (rw ok at added))
        | inr bad ↦ rw bad (counts.umount fsdrv device r.0 ∙ (rw bad at added))
      ]

  mount_with-volumes :
      (name : Str) (disc : ℕ) (part : DvmPartInfo) (w : World) (d : Option DvmFsDriver)
      → let r = mount_with os name disc part w d in volumes r.0 ≡ volumes w + one_if r.1
  unfolding mount_with
  mount_with-volumes name disc part w none = omega arith
  mount_with-volumes name disc part w (some fsdrv) =
      let m = os.mount fsdrv (take_str 32 name) disc part w in
      omega (
        arith,
        add_volume-volumes (take_str 32 name) fsdrv m.0 m.1,
        counts.mount fsdrv (take_str 32 name) disc part w,
      )

  mount_partition-volumes :
      (table : DrvTable) (name : Str) (disc : ℕ) (part : DvmPartInfo) (fstype : Str) (w : World)
      → let r = mount_partition os table name disc part fstype w in
        volumes r.0 ≡ volumes w + one_if r.1
  unfolding mount_partition
  mount_partition-volumes table name disc part fstype w =
      mount_with-volumes name disc part w (find_driver fstype table)

module _ {World Device D : Type 0} {os : Platform World Device} {volumes : World → ℕ}
    (counts : OsCounts os volumes) (place : DiscPlace World D) where
  mount_part-volumes :
      (table : DrvTable) (basename : Str) (part : DvmPartInfo) (fstype : Option Str) (w : World)
      → let r = mount_part os place table basename part fstype w in
        volumes r.0 ≡ volumes w + one_if r.1
  mount_part-volumes table basename part none w = omega arith
  mount_part-volumes table basename part (some fstype) w =
      mount_partition-volumes counts table (volname os place basename part.index) place.disc part
        fstype w

  mount_parts-volumes :
      (table : DrvTable) (basename : Str) (parts : List DvmPartInfo) (w : World) (n : ℕ)
      → let r = mount_parts os place table basename parts w n in volumes r.0 + n ≡ volumes w + r.1
  unfolding mount_parts
  mount_parts-volumes table basename [] w n = refl
  mount_parts-volumes table basename (part ∷ parts) w n =
      let m = mount_part os place table basename part part.fstype w in
      let head = mount_part-volumes table basename part part.fstype w in
      let n' = if m.1 then n + 1 else n in
      let tail = mount_parts-volumes table basename parts m.0 n' in
      let next : n' ≡ n + one_if m.1 = ground arith in omega (arith, tail, head, next)

  mount_found-volumes :
      (table : DrvTable) (basename : Str) (parts : List DvmPartInfo) (w : World)
      → let r = mount_found os place table basename parts w in volumes r.0 ≡ volumes w + r.1
  unfolding mount_found
  mount_found-volumes table basename [] w =
      mount_partition-volumes counts table basename place.disc _ exfat_name w
  mount_found-volumes table basename (part ∷ parts) w =
      omega (arith, mount_parts-volumes table basename (part ∷ parts) w 0)

  pub probe_mount_disc-volumes :
      (set : (d : DvmDisc D) (w : World) → volumes (place.set_disc d w) ≡ volumes w)
      (vt : DvmDiscIface D) (buf : Buf) (table : DrvTable) (basename : Str) (w : World)
      → let r = probe_mount_disc os place vt buf table basename w in volumes r.0 ≡ volumes w + r.1
  unfolding probe_mount_disc
  probe_mount_disc-volumes set vt buf table basename w =
      let t = read_partition_table vt 4 true buf (place.get_disc w) in
      omega (arith, mount_found-volumes table basename t.1 (place.set_disc t.0 w), set t.0 w)

module _ {World Device D : Type 0} {os : Platform World Device} {volumes : World → ℕ}
    (counts : OsCounts os volumes) {place : DiscPlace World D}
    (discs : PlaceCounts place volumes) where
  make_disc-volumes :
      (has_iface : Bool) (n k : ℕ) (w : World)
      → volumes (make_disc place has_iface n k w).0 ≡ volumes w
  unfolding make_disc
  make_disc-volumes false n k w = refl
  make_disc-volumes true n k w =
      let c = place.disc_create w in
      elim (Bool-cases (c.1 && not (n == 0))) [
        | inl e ↦ rw e (discs.disc_cache_create n k c.0 ∙ discs.disc_create w)
        | inr e ↦ rw e (discs.disc_create w)
      ]

  pub probe_mount_disc_iface-volumes :
      (vt : DvmDiscIface D) (buf : Buf) (table : DrvTable) (basename : Str) (has_iface : Bool)
      (n k : ℕ) (w : World)
      → let r = probe_mount_disc_iface os place vt buf table basename has_iface n k w in
        volumes r.0 ≡ volumes w + r.1
  unfolding probe_mount_disc_iface
  probe_mount_disc_iface-volumes vt buf table basename has_iface n k w =
      let d = make_disc place has_iface n k w in
      let made = make_disc-volumes has_iface n k w in
      let r = probe_mount_disc os place vt buf table basename d.0 in
      let found = probe_mount_disc-volumes counts place discs.set_disc vt buf table basename d.0 in
      elim (Bool-cases d.1) [
        | inr e ↦ rw e (omega (arith, made))
        | inl e ↦ elim (Bool-cases (r.1 == 0)) [
          | inl h ↦
              let zero : r.1 ≡ 0 = ground arith in
              rw (e, h) (omega (arith, discs.disc_destroy r.0, found, made, zero))
          | inr h ↦ rw (e, h) (omega (arith, found, made))
        ]
      ]
