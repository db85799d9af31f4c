-- ===== src/Volume/Made.antt =====
-- What the mounts of the program put together accept and make: how often newlib accepts a volume, and how
-- often a disc is made.
use libdvm.Base.{
  ℕ, ◌+◌, ◌≡◌, refl, sym, ap, ◌∙◌, Bool, true, false, not, Option, none, some, ◌&&◌, ◌==◌,
  if◌then◌else◌, arith, Bool-cases, inl, inr,
}
use libdvm.Base.Strings.{Str, str_eq}
use libdvm.Disc.{DvmDiscIface}
use libdvm.Disc.Memory.{Buf}
use libdvm.Disc.Object.{DvmDisc}
use libdvm.Prober.Ident.{ext2}
use libdvm.Prober.Table.{DvmPartInfo}
use libdvm.Fat.Mount.{FatMounts}
use libdvm.Ext4.Mount.{Ext4Mounts}
use libdvm.Volume.Drivers.{DvmFsDriver, DrvTable}
use libdvm.Volume.Probe.{make_disc, probe_mount_disc, probe_mount_disc_iface}
use libdvm.Volume.Keeps.{OsKeeps, probe_mount_disc-keeps}
use libdvm.Volume.Counts.{OsCounts, PlaceCounts}
use libdvm.Volume.Machine.{
  DiscSelf, VolumeData, fat_data, ext_data, Machine, Newlib, put, counted, self_vt, machine_mount,
  machine_umount, machine_os, machine_place, place_disc,
}

bumped : (p q : ℕ) (h : ℕ → ℕ) → put p (h p + 1) h q ≡ h q + (if q == p then 1 else 0)
bumped p q h = elim (Bool-cases (q == p)) [
  | inl e ↦ let same : q ≡ p = ground arith in rw e (ap (λ k. h k + 1) (sym same))
  | inr e ↦ rw e (omega arith)
]

module _ {Dev Fs Mp Os : Type 0} (vt : DvmDiscIface Dev) (is_aligned : Bool)
    (ff : FatMounts (DiscSelf Dev) Fs) (ext : Ext4Mounts (DiscSelf Dev) Mp)
    (can_format can_write enotsup : ℕ) where
  module _ (nl : Newlib Os) where
    -- A driver leaves newlib, and makes no disc.
    mount-rest :
        (d : DvmFsDriver) (name : Str) (p : ℕ) (part : DvmPartInfo) (w : Machine Dev Fs Mp Os)
        → let r =
            machine_mount vt is_aligned ff ext can_format can_write enotsup nl d name p part w in
          (r.0.os ≡ w.os) × (r.0.made ≡ w.made)
    unfolding machine_mount
    mount-rest d name p part w = elim (Bool-cases (str_eq d.fstype ext2)) [
      | inl e ↦ rw e (refl, refl)
      | inr e ↦ rw e (refl, refl)
    ]

    umount-rest :
        (v : VolumeData) (w : Machine Dev Fs Mp Os)
        → let r = machine_umount vt is_aligned ff ext can_format can_write enotsup nl v w in
          (r.os ≡ w.os) × (r.made ≡ w.made)
    unfolding machine_umount
    umount-rest (fat_data vol p) w = (refl, refl)
    umount-rest (ext_data bdev p) w = (refl, refl)

    made_keeps :
        (q n : ℕ)
        → OsKeeps
            (machine_os vt is_aligned ff ext can_format can_write enotsup nl)
            (λ w. w.made q ≡ n)
    made_keeps q n = record {
      mount = λ d name p part w e. ap (λ m. m q) (mount-rest d name p part w).1 ∙ e;
      umount = λ d v w bad e. ap (λ m. m q) (umount-rest v.device_data _).1 ∙ e;
      add_device = λ v w e. e;
      chdir = λ dir w e. e;
    }

    module _ (create : Dev → Dev × Option (DvmDisc Dev)) (page_data : Buf) (p q : ℕ) where
      place_disc-made :
          (w : Machine Dev Fs Mp Os) (c : Dev × Option (DvmDisc Dev))
          → (place_disc vt is_aligned create page_data p w c).0.made q
            ≡ w.made q + (if q == p then 1 else 0)
      place_disc-made w (d, none) = bumped p q w.made
      place_disc-made w (d, some disc) = bumped p q w.made

      make_disc-made :
          (has_iface : Bool) (n k : ℕ) (w : Machine Dev Fs Mp Os)
          → (make_disc (machine_place vt is_aligned create page_data p) has_iface n k w).0.made q
            ≡ w.made q + (if has_iface && (q == p) then 1 else 0)
      unfolding make_disc
      make_disc-made false n k w = omega arith
      make_disc-made true n k w =
          let c = place_disc vt is_aligned create page_data p w (create w.dev) in
          elim (Bool-cases (c.1 && not (n == 0))) [
            | inl e ↦ rw e (place_disc-made w (create w.dev))
            | inr e ↦ rw e (place_disc-made w (create w.dev))
          ]

      -- The probe of a device makes one disc, if there is a device.
      pub probe_mount_disc_iface-made :
          (buf : Buf) (table : DrvTable) (basename : Str) (has_iface : Bool) (n k : ℕ)
          (w : Machine Dev Fs Mp Os)
          → (probe_mount_disc_iface
                (machine_os vt is_aligned ff ext can_format can_write enotsup nl)
                (machine_place vt is_aligned create page_data p)
                (self_vt vt is_aligned)
                buf
                table
                basename
                has_iface
                n
                k
                w).0.made
              q
            ≡ w.made q + (if has_iface && (q == p) then 1 else 0)
      unfolding probe_mount_disc_iface
      probe_mount_disc_iface-made buf table basename has_iface n k w =
          let os = machine_os vt is_aligned ff ext can_format can_write enotsup nl in
          let place = machine_place vt is_aligned create page_data p in
          let d = make_disc place has_iface n k w in
          let made = make_disc-made has_iface n k w in
          let r = probe_mount_disc os place (self_vt vt is_aligned) buf table basename d.0 in
          let kept : r.0.made q ≡ d.0.made q =
            probe_mount_disc-keeps (made_keeps q (d.0.made q)) place (λ x u e. e)
              (self_vt vt is_aligned) buf table basename d.0 refl in
          elim (Bool-cases d.1) [
            | inr e ↦ rw e made
            | inl e ↦ elim (Bool-cases (r.1 == 0)) [
              | inl h ↦ rw (e, h) (kept ∙ made)
              | inr h ↦ rw (e, h) (kept ∙ made)
            ]
          ]

module _ {Dev Fs Mp Os : Type 0} (vt : DvmDiscIface Dev) (is_aligned : Bool)
    (ff : FatMounts (DiscSelf Dev) Fs) (ext : Ext4Mounts (DiscSelf Dev) Mp)
    (can_format can_write enotsup : ℕ) where
  module _ (nl : Newlib Os) where
    -- The times that newlib accepted a volume.
    abbrev pub accepted : Machine Dev Fs Mp (Os × ℕ) → ℕ
    accepted w = w.os.1

    pub os_counts :
        OsCounts
          (machine_os vt is_aligned ff ext can_format can_write enotsup (counted nl))
          accepted
    os_counts = record {
      mount = λ d name p part w.
          ap (λ o. o.1)
            (mount-rest vt is_aligned ff ext can_format can_write enotsup (counted nl) d name p part
              w).0;
      umount = λ d v w.
          ap (λ o. o.1)
            (umount-rest vt is_aligned ff ext can_format can_write enotsup (counted nl) v w).0;
      add_device = λ v w. ground arith;
      chdir = λ dir w. refl;
    }

    place_disc-os :
        (create : Dev → Dev × Option (DvmDisc Dev)) (page_data : Buf) (p : ℕ)
        (w : Machine Dev Fs Mp (Os × ℕ)) (c : Dev × Option (DvmDisc Dev))
        → (place_disc vt is_aligned create page_data p w c).0.os ≡ w.os
    place_disc-os create page_data p w (d, none) = refl
    place_disc-os create page_data p w (d, some disc) = refl

    pub place_counts :
        (create : Dev → Dev × Option (DvmDisc Dev)) (page_data : Buf) (p : ℕ)
        → PlaceCounts (machine_place vt is_aligned create page_data p) accepted
    place_counts create page_data p = record {
      set_disc = λ d w. refl;
      disc_create = λ w. ap (λ o. o.1) (place_disc-os create page_data p w (create w.dev));
      disc_cache_create = λ n k w. refl;
      disc_destroy = λ w. refl;
    }
