-- ===== src/Fat/Mount.antt =====
-- `_FAT_mount_vfat`, `_FAT_mount_exfat` and `_FAT_umount` of `source/fat_driver.c`.
use libdvm.Base.{
  ℕ, ◌+◌, ◌-◌, ◌^◌, ◌<◌, ◌≡◌, refl, Bool, true, false, ◌&&◌, ◌==◌, if◌then◌else◌, arith, Bool-cases,
  inl, inr,
}
use libdvm.Prober.Table.{DvmPartInfo}
use libdvm.Disc.{DvmDiscIface}
use libdvm.Disc.Object.{DvmDisc, add_user, remove_user, removed-users}
use libdvm.Fat.Errno.{FResult, fr_ok, fr_no_filesystem}
use libdvm.Fat.Medium.{FatVolume, has_feature}

-- `MKFS_PARM`, with the bits of its `fmt`.
pub record MkfsParm : Type 0 where
  pub fm_fat : Bool
  pub fm_fat32 : Bool
  pub fm_exfat : Bool
  pub fm_sfd : Bool
  pub n_fat : ℕ
  pub align : ℕ
  pub n_root : ℕ
  pub au_size : ℕ

-- What FatFs does to a `FATFS` and, through the operations of the medium, to what the disc works on.
pub record FatMounts (State Fs : Type 0) : Type 0 where
  pub f_mount : FatVolume → ℕ → Fs → State → FResult × Fs × State
  pub f_umount : FatVolume → Fs → State → Fs × State
  pub f_mkfs : FatVolume → ℕ → MkfsParm → Fs → State → FResult × Fs × State

abbrev pub is_fr_ok : FResult → Bool
is_fr_ok fr = elim fr [ fr_ok ↦ true | _ ↦ false ]

abbrev pub is_no_filesystem : FResult → Bool
is_no_filesystem fr = elim fr [ fr_no_filesystem ↦ true | _ ↦ false ]

-- What a mount leaves: the volume, its `FATFS`, the disc, and the answer.
pub record FatMounted (State Fs : Type 0) : Type 0 where
  pub vol : FatVolume
  pub fs : Fs
  pub disc : DvmDisc State
  pub ok : Bool

abbrev pub vfat_parm : ℕ → MkfsParm
vfat_parm ipart = record {
  fm_fat = true;
  fm_fat32 = true;
  fm_exfat = false;
  fm_sfd = ipart == 0;
  n_fat = 2;
  align = 0;
  n_root = 0;
  au_size = 0;
}

abbrev pub exfat_parm : ℕ → MkfsParm
exfat_parm ipart = record {
  fm_fat = false;
  fm_fat32 = false;
  fm_exfat = true;
  fm_sfd = ipart == 0;
  n_fat = 0;
  align = 0;
  n_root = 0;
  au_size = 0;
}

abbrev pub fat_volume_of : DvmPartInfo → FatVolume
fat_volume_of part = record { start_sector = part.start_sector; num_sectors = part.num_sectors }

abbrev pub ipart_of : DvmPartInfo → ℕ
ipart_of part = if part.start_sector == 0 then part.index else 0

module _ {State Fs : Type 0} (ff : FatMounts State Fs) where
  -- The format and the second mount.
  unfoldable pub format : FatVolume → ℕ → MkfsParm → Fs → State → FResult × Fs × State
  format vol ipart opt fs self =
      let u = ff.f_umount vol fs self in
      let k = ff.f_mkfs vol ipart opt u.0 u.1 in
      if is_fr_ok k.0 then ff.f_mount vol ipart k.1 k.2 else k

  -- The end of a mount.
  abbrev pub mount_end : FatVolume → DvmDisc State → FResult × Fs × State → FatMounted State Fs
  mount_end vol disc r =
      let u = ff.f_umount vol r.1 r.2 in
      if is_fr_ok r.0
      then record { vol = vol; fs = r.1; disc = add_user (record disc { self = r.2 }); ok = true }
      else record { vol = vol; fs = u.0; disc = record disc { self = u.1 }; ok = false }

  -- The first mount, and whether the partition is to be formatted. `can_format` is the bit
  -- `FEATURE_MEDIUM_CANFORMAT`, 0 on a platform without it.
  abbrev pub first_mount : DvmDisc State → DvmPartInfo → Fs → FResult × Fs × State
  first_mount disc part fs = ff.f_mount (fat_volume_of part) (ipart_of part) fs disc.self

  abbrev pub is_formatted : ℕ → DvmDisc State → DvmPartInfo → Fs → Bool
  is_formatted can_format disc part fs =
      is_no_filesystem (first_mount disc part fs).0 && has_feature disc.features can_format

  -- What the last call of FatFs that mounts or formats leaves.
  unfoldable pub last_mount :
      ℕ → (ℕ → MkfsParm) → DvmDisc State → DvmPartInfo → Fs → FResult × Fs × State
  unfolding format
  last_mount can_format opt disc part fs =
      let r = first_mount disc part fs in
      let formatted = format (fat_volume_of part) (ipart_of part) (opt (ipart_of part)) r.1 r.2 in
      if is_formatted can_format disc part fs then formatted else r

  -- A mount, with the options of its format.
  unfoldable pub mount_as :
      ℕ → (ℕ → MkfsParm) → DvmDisc State → DvmPartInfo → Fs → FatMounted State Fs
  unfolding last_mount
  mount_as can_format opt disc part fs =
      mount_end (fat_volume_of part) disc (last_mount can_format opt disc part fs)

  abbrev pub mount_vfat : ℕ → DvmDisc State → DvmPartInfo → Fs → FatMounted State Fs
  mount_vfat can_format = mount_as can_format vfat_parm

  abbrev pub mount_exfat : ℕ → DvmDisc State → DvmPartInfo → Fs → FatMounted State Fs
  mount_exfat can_format = mount_as can_format exfat_parm

  -- `_FAT_umount`: the disc behind it, and whether it was destroyed.
  abbrev pub fat_umount :
      DvmDiscIface State → FatVolume → Fs → DvmDisc State → Fs × DvmDisc State × Bool
  fat_umount vt vol fs disc =
      let u = ff.f_umount vol fs disc.self in
      let d = remove_user vt (record disc { self = u.1 }) in (u.0, d.0, d.1)

module _ {State Fs : Type 0} (ff : FatMounts State Fs) where
  -- A disc is formatted only if it can be and FatFs answers that there is no file system: otherwise
  -- the format, whatever it would do, has no part in what the mount leaves.
  mount_as-not_formatted :
      (can_format : ℕ) (opt : ℕ → MkfsParm) (disc : DvmDisc State) (part : DvmPartInfo) (fs : Fs)
      (mkfs : FatVolume → ℕ → MkfsParm → Fs → State → FResult × Fs × State)
      → is_formatted ff can_format disc part fs ≡ false
      → mount_as ff can_format opt disc part fs
        ≡ mount_as (record ff { f_mkfs = mkfs }) can_format opt disc part fs
  unfolding mount_as last_mount
  mount_as-not_formatted can_format opt disc part fs mkfs e = rw e refl

  -- What a mount did to the number of users of a disc, and what an unmount after it does.
  pub record UsersOk (vt : DvmDiscIface State) (disc : DvmDisc State) (m : FatMounted State Fs)
      : Type 0 where
    pub failed : m.ok ≡ false → m.disc.num_users ≡ disc.num_users
    pub mounted : m.ok ≡ true → m.disc.num_users ≡ disc.num_users + 1
    pub unmounted :
        m.ok ≡ true
        → ((fat_umount ff vt m.vol m.fs m.disc).1.num_users ≡ disc.num_users)
          × ((fat_umount ff vt m.vol m.fs m.disc).2 ≡ (disc.num_users == 0))

  mount_end-UsersOk :
      (vt : DvmDiscIface State) (vol : FatVolume) (disc : DvmDisc State) (r : FResult × Fs × State)
      → disc.num_users < 2 ^ 16 - 1
      → UsersOk vt disc (mount_end ff vol disc r)
  mount_end-UsersOk vt vol disc r lt = elim (Bool-cases (is_fr_ok r.0)) [
    | inl e ↦ rw e (record {
      failed = λ h. cc;
      mounted = λ h. omega arith;
      unmounted = λ h. removed-users vt (record disc { self = (ff.f_umount vol r.1 r.2).1 }) lt;
    })
    | inr e ↦ rw e (record { failed = λ h. refl; mounted = λ h. cc; unmounted = λ h. cc })
  ]

  -- A mount that fails leaves the number of users of the disc. One that succeeds makes a user more, and
  -- an unmount after it makes a user less again and has the disc destroyed exactly if it had no user
  -- before the mount: where the counter of 16 bits is not full.
  pub mount_as-UsersOk :
      (vt : DvmDiscIface State) (can_format : ℕ) (opt : ℕ → MkfsParm) (disc : DvmDisc State)
      (part : DvmPartInfo) (fs : Fs)
      → disc.num_users < 2 ^ 16 - 1
      → UsersOk vt disc (mount_as ff can_format opt disc part fs)
  unfolding mount_as
  mount_as-UsersOk vt can_format opt disc part fs lt =
      mount_end-UsersOk vt (fat_volume_of part) disc (last_mount ff can_format opt disc part fs) lt
