-- ===== src/Volume/Machined.antt =====
-- The discs of the program put together: who destroys them, and how many users they have.
use mathlib.Core.Option
use libdvm.Base.{
  ℕ, ◌+◌, ◌≡◌, refl, sym, ap, ◌∙◌, subst, Bool, true, false, Option, none, some, ◌==◌,
  if◌then◌else◌, arith, Bool-cases, inl, inr,
}
use libdvm.Base.Strings.{Str, str_eq}
use libdvm.Disc.{DvmDiscIface}
use libdvm.Disc.Memory.{Buf}
use libdvm.Disc.Object.{DvmDisc, remove_user}
use libdvm.Prober.Ident.{ext2}
use libdvm.Prober.Table.{DvmPartInfo}
use libdvm.Cache.Create.{created, cache_create, page_size, is_refused, page_shift_from}
use libdvm.Fat.Mount.{FatMounts, MkfsParm, is_fr_ok, mount_as, last_mount}
use libdvm.Ext4.Device.{block_dev}
use libdvm.Ext4.Mount.{Ext4Mounts, ext4_mount_r, ext4_umount_r}
use libdvm.Volume.Drivers.{DvmFsDriver}
use libdvm.Volume.Discs.{UserLaws, one_more, one_less, has_value}
use libdvm.Volume.Owner.{OwnerLaws}
use libdvm.Volume.Machine.{
  DiscSelf, wrapped, cached, with_self, self_vt, VolumeData, disc_of, fat_data, ext_data, Machine,
  Newlib, put, parm_of, machine_mount, machine_umount, machine_os, machine_place, cached_disc,
  cache_made, place_disc,
}

pub put-at : {A : Type 0} (p : ℕ) (a : A) (h : ℕ → A) → put p a h p ≡ a
put-at p a h = let here : (p == p) ≡ true = ground arith in rw here refl

-- A mount of FatFs or lwext4 makes one user more exactly if it succeeds.
mount_as-more :
    {State Fs : Type 0} (ff : FatMounts State Fs) (can_format : ℕ) (opt : ℕ → MkfsParm)
    (disc : DvmDisc State) (part : DvmPartInfo) (fs : Fs)
    → let m = mount_as ff can_format opt disc part fs in
      m.disc.num_users ≡ (if m.ok then one_more disc.num_users else disc.num_users)
unfolding mount_as
mount_as-more ff can_format opt disc part fs =
    elim (Bool-cases (is_fr_ok (last_mount ff can_format opt disc part fs).0)) [
      | inl e ↦ rw e refl
      | inr e ↦ rw e refl
    ]

ext4_mount_r-more :
    {State Mp : Type 0} (ext : Ext4Mounts State Mp) (can_write enotsup : ℕ) (disc : DvmDisc State)
    (part : DvmPartInfo) (mp : Mp)
    → let m = ext4_mount_r ext can_write enotsup disc part mp in
      m.disc.num_users ≡ (if m.ok then one_more disc.num_users else disc.num_users)
unfolding ext4_mount_r
ext4_mount_r-more ext can_write enotsup disc part mp = ground arith

remove_user-less :
    {State : Type 0} (vt : DvmDiscIface State) (d : DvmDisc State)
    → ((remove_user vt d).0.num_users ≡ one_less d.num_users)
      × ((remove_user vt d).1 ≡ (one_less d.num_users == 0))
remove_user-less vt d = elim (Bool-cases (one_less d.num_users == 0)) [
  | inl e ↦ rw e (refl, refl)
  | inr e ↦ rw e (refl, refl)
]

module _ {Dev : Type 0} (discs : ℕ → DvmDisc (DiscSelf Dev)) (p u : ℕ)
    (m : DvmDisc (DiscSelf Dev)) where
  answered :
      (ok : Bool) (of : VolumeData)
      → disc_of of ≡ p
      → m.num_users ≡ (if ok then one_more u else u)
      → let r : Option VolumeData = if ok then some of else none in
        ((put p m discs p).num_users ≡ (if has_value r then one_more u else u))
        × ((v : VolumeData) → r ≡ some v → disc_of v ≡ p)
  answered true of on e = (
    ap (λ d. d.num_users) (put-at p m discs) ∙ e,
    λ v eq. ap disc_of (sym (Option.some-injective _ _ eq)) ∙ on,
  )
  answered false of on e = (ap (λ d. d.num_users) (put-at p m discs) ∙ e, λ v eq. cc)

module _ {Dev Fs Mp Os : Type 0} (vt : DvmDiscIface Dev) (is_aligned : Bool)
    (ff : FatMounts (DiscSelf Dev) Fs) (ext : Ext4Mounts (DiscSelf Dev) Mp)
    (can_format can_write enotsup : ℕ) (nl : Newlib Os) where
  mount-lem :
      (d : DvmFsDriver) (name : Str) (p : ℕ) (part : DvmPartInfo) (w : Machine Dev Fs Mp Os)
      → let r =
          machine_mount vt is_aligned ff ext can_format can_write enotsup nl d name p part w in
        ((r.0.discs p).num_users
          ≡ (if has_value r.1 then one_more (w.discs p).num_users else (w.discs p).num_users))
        × ((v : VolumeData) → r.1 ≡ some v → disc_of v ≡ p)
        × (r.0.destroyed p ≡ w.destroyed p)
  unfolding machine_mount
  mount-lem d name p part w = elim (Bool-cases (str_eq d.fstype ext2)) [
    | inl e ↦
        let m = ext4_mount_r ext can_write enotsup (w.discs p) part w.mp in
        let (users, on) =
          answered w.discs p (w.discs p).num_users m.disc m.ok
            (ext_data (block_dev (w.discs p) part) p) refl
            (ext4_mount_r-more ext can_write enotsup (w.discs p) part w.mp) in
        rw e (users, on, refl)
    | inr e ↦
        let m = mount_as ff can_format (parm_of d.fstype) (w.discs p) part w.fs in
        let (users, on) =
          answered w.discs p (w.discs p).num_users m.disc m.ok (fat_data m.vol p) refl
            (mount_as-more ff can_format (parm_of d.fstype) (w.discs p) part w.fs) in
        rw e (users, on, refl)
  ]

  umount-lem :
      (v : VolumeData) (w : Machine Dev Fs Mp Os)
      → let r = machine_umount vt is_aligned ff ext can_format can_write enotsup nl v w in
        let u = one_less (w.discs (disc_of v)).num_users in
        ((r.discs (disc_of v)).num_users ≡ u)
        × (r.destroyed (disc_of v) ≡ w.destroyed (disc_of v) + (if u == 0 then 1 else 0))
  unfolding machine_umount ext4_umount_r
  umount-lem (fat_data vol p) w =
      let d = record (w.discs p) { self = (ff.f_umount vol w.fs (w.discs p).self).1 } in
      let (less, gone) = remove_user-less (self_vt vt is_aligned) d in
      (
        ap (λ k. k.num_users) (put-at p _ w.discs) ∙ less,
        put-at p _ w.destroyed ∙ ap (λ b. w.destroyed p + (if b then 1 else 0)) gone,
      )
  umount-lem (ext_data bdev p) w =
      let j = ext.ext4_journal_stop bdev w.mp (w.discs p).self in
      let d = record (w.discs p) { self = (ext.ext4_umount bdev j.1 j.2).2 } in
      let (less, gone) = remove_user-less (self_vt vt is_aligned) d in
      (
        ap (λ k. k.num_users) (put-at p _ w.discs) ∙ less,
        put-at p _ w.destroyed ∙ ap (λ b. w.destroyed p + (if b then 1 else 0)) gone,
      )

  module _ (create : Dev → Dev × Option (DvmDisc Dev))
      (fresh : (d : Dev) (disc : DvmDisc Dev) → (create d).1 ≡ some disc → disc.num_users ≡ 0)
      (page_data : Buf) (p : ℕ) where
    user_laws :
        UserLaws
          (machine_os vt is_aligned ff ext can_format can_write enotsup nl)
          (machine_place vt is_aligned create page_data p)
          disc_of
    user_laws = record {
      mount_users = λ d name part w. (mount-lem d name p part w).0;
      mount_disc = λ d name part w. (mount-lem d name p part w).1;
      umount_users = λ d v w on.
          subst
            (λ q.
              ((machine_umount vt is_aligned ff ext can_format can_write enotsup nl v w).discs
                q).num_users
              ≡ one_less (w.discs q).num_users)
            on (umount-lem v w).0;
      add_users = λ v w. refl;
      chdir_users = λ dir w. refl;
    }

    place_disc-fresh :
        (w : Machine Dev Fs Mp Os) (d : Dev) (o : Option (DvmDisc Dev))
        → ((disc : DvmDisc Dev) → o ≡ some disc → disc.num_users ≡ 0)
        → let r = place_disc vt is_aligned create page_data p w (d, o) in
          (r.1 ≡ true → (r.0.discs p).num_users ≡ 0) × (r.0.destroyed p ≡ w.destroyed p)
    place_disc-fresh w d none h = (λ e. cc, refl)
    place_disc-fresh w d (some disc) h =
        (λ e. ap (λ k. k.num_users) (put-at p _ w.discs) ∙ h disc refl, refl)

    cache_made-idle :
        (disc : DvmDisc (DiscSelf Dev)) (inner : DvmDisc Dev) (n k : ℕ)
        → disc.num_users ≡ 0
        → (cache_made page_data disc (cache_create inner n k page_data)).num_users ≡ 0
    unfolding cache_create
    cache_made-idle disc inner n k idle =
        let size = page_size inner k in
        elim (Bool-cases (is_refused n size)) [
          | inl e ↦ rw e idle
          | inr e ↦ rw e (made-idle (page_shift_from 32 0 size))
        ]
      where
        made-idle :
            (o : Option ℕ)
            → (cache_made page_data disc (
                Option.map
                  (λ s. some (created inner n (page_size inner k) page_data s))
                  o)).num_users
              ≡ 0
        made-idle none = idle
        made-idle (some s) = refl

    cached_disc-idle :
        (n k : ℕ) (disc : DvmDisc (DiscSelf Dev)) (self : DiscSelf Dev)
        → disc.num_users ≡ 0
        → (cached_disc page_data n k disc self).num_users ≡ 0
    unfolding cached_disc
    cached_disc-idle n k disc (wrapped d) idle = cache_made-idle disc (with_self disc d) n k idle
    cached_disc-idle n k disc (cached c) idle = idle

    -- The program keeps what `OwnerLaws` asks for.
    pub machine-OwnerLaws :
        OwnerLaws
          (machine_os vt is_aligned ff ext can_format can_write enotsup nl)
          (machine_place vt is_aligned create page_data p)
          disc_of
          (λ w. w.destroyed p)
    machine-OwnerLaws = record {
      users = user_laws;
      mount_destroys = λ d name part w. (mount-lem d name p part w).2;
      umount_destroys = λ d v w on.
          subst
            (λ q.
              (machine_umount vt is_aligned ff ext can_format can_write enotsup nl v w).destroyed q
              ≡ w.destroyed q + (if one_less (w.discs q).num_users == 0 then 1 else 0))
            on (umount-lem v w).1;
      add_destroys = λ v w. refl;
      chdir_destroys = λ dir w. refl;
      set_get = λ d w. put-at p d w.discs;
      set_destroys = λ d w. refl;
      create_users =
          λ w e. (place_disc-fresh w (create w.dev).0 (create w.dev).1 (fresh w.dev)).0 e;
      create_destroys = λ w. (place_disc-fresh w (create w.dev).0 (create w.dev).1 (fresh w.dev)).1;
      cache_users = λ n k w idle.
          ap (λ d. d.num_users) (put-at p _ w.discs)
          ∙ cached_disc-idle n k (w.discs p) (w.discs p).self idle;
      cache_destroys = λ n k w. refl;
      destroy_destroys = λ w. put-at p _ w.destroyed;
    }
