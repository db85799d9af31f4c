-- ===== src/Ext4/Mount.antt =====
-- `_ext4_mount` and `_ext4_umount` of `source/ext4_driver.c`.
use libdvm.Base.{
  ℕ, ◌+◌, ◌-◌, ◌^◌, ◌<◌, ◌≡◌, refl, Bool, true, false, not, ◌||◌, ◌==◌, if◌then◌else◌, arith,
  Bool-cases, inl, inr, ◌∙◌,
}
use libdvm.Prober.Table.{DvmPartInfo}
use libdvm.Disc.{DvmDiscIface}
use libdvm.Disc.Object.{DvmDisc, add_user, remove_user, removed-users}
use libdvm.Fat.Medium.{has_feature}
use libdvm.Ext4.Result.{is_eok}
use libdvm.Ext4.Device.{BlockDev, block_dev}

-- What lwext4 does to a mount point `Mp` and, through the block device, to what the disc works on. The
-- last argument of a mount is whether it is for reading only.
pub record Ext4Mounts (State Mp : Type 0) : Type 0 where
  pub ext4_mount : BlockDev → Bool → Mp → State → ℕ × Mp × State
  pub ext4_recover : BlockDev → Mp → State → ℕ × Mp × State
  pub ext4_journal_start : BlockDev → Mp → State → ℕ × Mp × State
  pub ext4_journal_stop : BlockDev → Mp → State → ℕ × Mp × State
  pub ext4_umount : BlockDev → Mp → State → ℕ × Mp × State

-- What a mount leaves: the mount point, the disc, and the answer.
pub record Ext4Mounted (State Mp : Type 0) : Type 0 where
  pub mp : Mp
  pub disc : DvmDisc State
  pub ok : Bool

module _ {State Mp : Type 0} (ext : Ext4Mounts State Mp) where
  -- A failure behind the mount of lwext4.
  abbrev pub give_up : BlockDev → DvmDisc State → ℕ × Mp × State → Ext4Mounted State Mp
  give_up bdev disc r =
      let u = ext.ext4_umount bdev r.1 r.2 in
      record { mp = u.1; disc = record disc { self = u.2 }; ok = false }

  -- From the start of the journal on.
  abbrev pub start_journal : BlockDev → DvmDisc State → ℕ × Mp × State → Ext4Mounted State Mp
  start_journal bdev disc r =
      let j = ext.ext4_journal_start bdev r.1 r.2 in
      if is_eok j.0
      then record { mp = j.1; disc = add_user (record disc { self = j.2 }); ok = true }
      else give_up bdev disc j

  -- From the recovery on.
  abbrev pub recover : ℕ → BlockDev → DvmDisc State → ℕ × Mp × State → Ext4Mounted State Mp
  recover enotsup bdev disc r =
      let k = ext.ext4_recover bdev r.1 r.2 in
      if is_eok k.0 || k.0 == enotsup then start_journal bdev disc k else give_up bdev disc k

  -- `_ext4_mount`. `can_write` is the bit `FEATURE_MEDIUM_CANWRITE`.
  unfoldable pub ext4_mount_r : ℕ → ℕ → DvmDisc State → DvmPartInfo → Mp → Ext4Mounted State Mp
  ext4_mount_r can_write enotsup disc part mp =
      let bdev = block_dev disc part in
      let r = ext.ext4_mount bdev (not (has_feature disc.features can_write)) mp disc.self in
      if is_eok r.0
      then recover enotsup bdev disc r
      else record { mp = r.1; disc = record disc { self = r.2 }; ok = false }

  -- `_ext4_umount`: the disc behind it, and whether it was destroyed.
  unfoldable pub ext4_umount_r :
      DvmDiscIface State → BlockDev → Mp → DvmDisc State → Mp × DvmDisc State × Bool
  ext4_umount_r vt bdev mp disc =
      let j = ext.ext4_journal_stop bdev mp disc.self in
      let u = ext.ext4_umount bdev j.1 j.2 in
      let d = remove_user vt (record disc { self = u.2 }) in (u.1, d.0, d.1)

-- What lwext4 promises of `is_mounted`: a mount that succeeds makes it so, one that fails does not, an
-- unmount ends it, and the journal does not change it.
pub record MountLaws {State Mp : Type 0} (ext : Ext4Mounts State Mp) (is_mounted : Mp → Bool)
    : Type 0 where
  pub mounts :
      (b : BlockDev) (ro : Bool) (mp : Mp) (s : State)
      → is_mounted (ext.ext4_mount b ro mp s).1 ≡ is_eok (ext.ext4_mount b ro mp s).0
  pub recovers :
      (b : BlockDev) (mp : Mp) (s : State) → is_mounted (ext.ext4_recover b mp s).1 ≡ is_mounted mp
  pub starts :
      (b : BlockDev) (mp : Mp) (s : State)
      → is_mounted (ext.ext4_journal_start b mp s).1 ≡ is_mounted mp
  pub stops :
      (b : BlockDev) (mp : Mp) (s : State)
      → is_mounted (ext.ext4_journal_stop b mp s).1 ≡ is_mounted mp
  pub unmounts :
      (b : BlockDev) (mp : Mp) (s : State) → is_mounted (ext.ext4_umount b mp s).1 ≡ false

module _ {State Mp : Type 0} {ext : Ext4Mounts State Mp} {is_mounted : Mp → Bool}
    (laws : MountLaws ext is_mounted) where
  -- What a mount leaves of a disc, and what an unmount of what it left does.
  pub record Ext4Users (vt : DvmDiscIface State) (disc : DvmDisc State) (m : Ext4Mounted State Mp)
      : Type 0 where
    pub is_there : is_mounted m.mp ≡ m.ok
    pub failed : m.ok ≡ false → m.disc.num_users ≡ disc.num_users
    pub mounted : m.ok ≡ true → m.disc.num_users ≡ disc.num_users + 1
    pub unmounted :
        m.ok ≡ true
        → (bdev : BlockDev)
        → let u = ext4_umount_r ext vt bdev m.mp m.disc in
          (is_mounted u.0 ≡ false)
          × (u.1.num_users ≡ disc.num_users)
          × (u.2 ≡ (disc.num_users == 0))

  module _ (vt : DvmDiscIface State) (disc : DvmDisc State) (lt : disc.num_users < 2 ^ 16 - 1)
      (bdev : BlockDev) where
    give_up-Ext4Users : (r : ℕ × Mp × State) → Ext4Users vt disc (give_up ext bdev disc r)
    give_up-Ext4Users r = record {
      is_there = laws.unmounts bdev r.1 r.2;
      failed = λ h. refl;
      mounted = λ h. cc;
      unmounted = λ h. cc;
    }

    start_journal-Ext4Users :
        (r : ℕ × Mp × State)
        → is_mounted r.1 ≡ true
        → Ext4Users vt disc (start_journal ext bdev disc r)
    unfolding ext4_umount_r
    start_journal-Ext4Users r there =
        let j = ext.ext4_journal_start bdev r.1 r.2 in
        elim (Bool-cases (is_eok j.0)) [
          | inl e ↦ rw e (record {
            is_there = laws.starts bdev r.1 r.2 ∙ there;
            failed = λ h. cc;
            mounted = λ h. omega arith;
            unmounted = λ h b.
                let s = ext.ext4_journal_stop b j.1 j.2 in
                let d : DvmDisc State = record disc { self = (ext.ext4_umount b s.1 s.2).2 } in
                let u = removed-users vt d lt in (laws.unmounts b s.1 s.2, u.0, u.1);
          })
          | inr e ↦ rw e (give_up-Ext4Users j)
        ]

    recover-Ext4Users :
        (enotsup : ℕ) (r : ℕ × Mp × State)
        → is_mounted r.1 ≡ true
        → Ext4Users vt disc (recover ext enotsup bdev disc r)
    recover-Ext4Users enotsup r there =
        let k = ext.ext4_recover bdev r.1 r.2 in
        elim (Bool-cases (is_eok k.0 || k.0 == enotsup)) [
          | inl e ↦ rw e (start_journal-Ext4Users k (laws.recovers bdev r.1 r.2 ∙ there))
          | inr e ↦ rw e (give_up-Ext4Users k)
        ]

  -- A mount that fails, in any of its three steps, leaves nothing mounted and the users of the disc as
  -- they were. One that succeeds leaves the volume mounted and one user more, and an unmount after it
  -- takes both back, and has the disc destroyed exactly if it had no user before: where the counter of
  -- 16 bits is not full, and for an lwext4 that keeps what it promises of mounts.
  pub ext4_mount_r-Ext4Users :
      (vt : DvmDiscIface State) (can_write enotsup : ℕ) (disc : DvmDisc State) (part : DvmPartInfo)
      (mp : Mp)
      → disc.num_users < 2 ^ 16 - 1
      → Ext4Users vt disc (ext4_mount_r ext can_write enotsup disc part mp)
  unfolding ext4_mount_r
  ext4_mount_r-Ext4Users vt can_write enotsup disc part mp lt =
      let bdev = block_dev disc part in
      let ro = not (has_feature disc.features can_write) in
      let r = ext.ext4_mount bdev ro mp disc.self in
      let there = laws.mounts bdev ro mp disc.self in
      elim (Bool-cases (is_eok r.0)) [
        | inl e ↦ rw e (recover-Ext4Users vt disc lt bdev enotsup r (there ∙ e))
        | inr e ↦ rw e (record {
          is_there = there ∙ e;
          failed = λ h. refl;
          mounted = λ h. cc;
          unmounted = λ h. cc;
        })
      ]
