-- ===== src/Volume/Owner.antt =====
-- Who destroys a disc that was made to mount its volumes.
use mathlib.Core.Bool.{false≢true}
use libdvm.Base.{
  ◌%◌, ◌<◌, ℕ, ◌+◌, ◌-◌, ◌^◌, ◌≡◌, refl, sym, ap, ◌∙◌, Bool, true, false, ◌&&◌, Option, none, some,
  List, [], ◌∷◌, ◌==◌, if◌then◌else◌, arith, Bool-cases, inl, inr,
}
use libdvm.Base.Strings.{Str}
use libdvm.Disc.Object.{DvmDisc}
use libdvm.Prober.Table.{DvmPartInfo}
use libdvm.Volume.Drivers.{find_driver, DvmFsDriver, DrvTable, register_fs_driver}
use libdvm.Volume.Mount.{take_str, add_volume, mount_with, Platform, DvmVolume, mount_partition}
use libdvm.Volume.Discs.{UserLaws, users_of, one_less, mount_partition-users}
use libdvm.Volume.Keeps.{set_default-keeps}
use libdvm.Volume.Probe.{
  DiscPlace, exfat_name, mount_part, mount_parts, mount_found, make_disc, mount_if, destroy_if,
  mount_device, volname,
}

-- What the parts promise of the users of the disc of a place and of `destroys`, the number of times that
-- it was destroyed: a driver that unmounts the last user destroys the disc, as `dvmDiscRemoveUser` does,
-- and a disc that was made has no users.
pub record OwnerLaws {World Device D : Type 0} (os : Platform World Device)
    (place : DiscPlace World D) (disc_of : Device → ℕ) (destroys : World → ℕ) : Type 0 where
  pub users : UserLaws os place disc_of
  pub mount_destroys :
      (d : DvmFsDriver) (name : Str) (part : DvmPartInfo) (w : World)
      → destroys (os.mount d name place.disc part w).0 ≡ destroys w
  pub umount_destroys :
      (d : DvmFsDriver) (device : Device) (w : World)
      → disc_of device ≡ place.disc
      → destroys (os.umount d device w)
        ≡ destroys w + (if one_less (users_of place w) == 0 then 1 else 0)
  pub add_destroys :
      (v : DvmVolume Device) (w : World) → destroys (os.add_device v w).0 ≡ destroys w
  pub chdir_destroys : (dir : Str) (w : World) → destroys (os.chdir dir w) ≡ destroys w
  pub set_get : (d : DvmDisc D) (w : World) → place.get_disc (place.set_disc d w) ≡ d
  pub set_destroys : (d : DvmDisc D) (w : World) → destroys (place.set_disc d w) ≡ destroys w
  pub create_users :
      (w : World) → (place.disc_create w).1 ≡ true → users_of place (place.disc_create w).0 ≡ 0
  pub create_destroys : (w : World) → destroys (place.disc_create w).0 ≡ destroys w
  pub cache_users :
      (n k : ℕ) (w : World)
      → users_of place w ≡ 0
      → users_of place (place.disc_cache_create n k w) ≡ 0
  pub cache_destroys : (n k : ℕ) (w : World) → destroys (place.disc_cache_create n k w) ≡ destroys w
  pub destroy_destroys : (w : World) → destroys (place.disc_destroy w) ≡ destroys w + 1

one_small : (b : Bool) → (0 + (if b then 1 else 0)) % 2 ^ 16 ≡ (if b then 1 else 0)
one_small true = refl
one_small false = refl

and_false : (a b : Bool) → b ≡ false → (a && b) ≡ false
and_false a b e = ground arith

module _ {World Device D : Type 0} {os : Platform World Device} {place : DiscPlace World D}
    {disc_of : Device → ℕ} {destroys : World → ℕ} (laws : OwnerLaws os place disc_of destroys) where
  pub made_lem :
      (has_iface : Bool) (cache_pages sectors_per_page : ℕ) (w : World)
      → let d = make_disc place has_iface cache_pages sectors_per_page w in
        (destroys d.0 ≡ destroys w) × (d.1 ≡ true → users_of place d.0 ≡ 0)
  unfolding make_disc
  made_lem false cache_pages sectors_per_page w = (refl, λ h. cc)
  made_lem true cache_pages sectors_per_page w = elim (Bool-cases (place.disc_create w).1) [
    | inr e ↦ rw e (laws.create_destroys w, λ h. cc)
    | inl e ↦
        let c = (place.disc_create w).0 in
        elim (Bool-cases (cache_pages == 0)) [
          | inl h ↦ rw (e, h) (laws.create_destroys w, λ t. laws.create_users w e)
          | inr h ↦
              rw (e, h)
                (
                  laws.cache_destroys cache_pages sectors_per_page c ∙ laws.create_destroys w,
                  λ t. laws.cache_users cache_pages sectors_per_page c (laws.create_users w e),
                )
        ]
  ]

  module _ (free : (v : DvmVolume Device) (w : World) → (os.add_device v w).1 ≡ true) where
    add_volume-destroys :
        (name : Str) (fsdrv : DvmFsDriver) (w : World) (device : Option Device)
        → destroys (add_volume os name fsdrv w device).0 ≡ destroys w
    unfolding add_volume
    add_volume-destroys name fsdrv w none = refl
    add_volume-destroys name fsdrv w (some device) =
        let v : DvmVolume Device = record { name = name; fsdrv = fsdrv; device_data = device } in
        let r = os.add_device v w in
        rw (free v w) (
          set_default-keeps os (λ u. destroys u ≡ destroys w)
            (λ dir u e. laws.chdir_destroys dir u ∙ e) name (os.device_name [] r.0) r.0
            (laws.add_destroys v w))

    mount_with-destroys :
        (name : Str) (part : DvmPartInfo) (w : World) (d : Option DvmFsDriver)
        → destroys (mount_with os name place.disc part w d).0 ≡ destroys w
    unfolding mount_with
    mount_with-destroys name part w none = refl
    mount_with-destroys name part w (some fsdrv) =
        let r = os.mount fsdrv (take_str 32 name) place.disc part w in
        add_volume-destroys (take_str 32 name) fsdrv r.0 r.1
        ∙ laws.mount_destroys fsdrv (take_str 32 name) part w

    mount_partition-destroys :
        (table : DrvTable) (name : Str) (part : DvmPartInfo) (fstype : Str) (w : World)
        → destroys (mount_partition os table name place.disc part fstype w).0 ≡ destroys w
    unfolding mount_partition
    mount_partition-destroys table name part fstype w =
        mount_with-destroys name part w (find_driver fstype table)

    -- Where a disc that was made ended up.
    pub record Owned (w : World) (made : Bool) (r : World) (ok : Bool) (n : ℕ) : Type 0 where
      pub kept : ok ≡ true → (destroys r ≡ destroys w) × (users_of place r ≡ n)
      pub gone : ok ≡ false → destroys r ≡ destroys w + (if made then 1 else 0)

    mount_if-Owned :
        (b : Bool) (fstype : Str) (table : DrvTable) (name : Str) (start_sector : ℕ) (w : World)
        → users_of place w ≡ 0
        → let m = mount_if os place b fstype table name start_sector w in
          (destroys m.0 ≡ destroys w) × (users_of place m.0 ≡ (if m.1 then 1 else 0))
    unfolding mount_if
    mount_if-Owned false fstype table name start_sector w idle = (refl, idle)
    mount_if-Owned true fstype table name start_sector w idle =
        let part : DvmPartInfo = record {
          index = 0;
          type = 0;
          fstype = some fstype;
          start_sector = start_sector;
          num_sectors = if start_sector == 0 then (place.get_disc w).num_sectors else 2 ^ 32 - 1;
        } in
        (
          mount_partition-destroys table name part fstype w,
          mount_partition-users laws.users table name part fstype w (omega (arith, idle))
              ∙ ap
                  (λ u.
                    (u
                      + (if (mount_partition os table name place.disc part fstype w).1
                          then 1
                          else 0))
                    % 2 ^ 16)
                  idle
              ∙ one_small (mount_partition os table name place.disc part fstype w).1,
        )

    mount_if-off :
        (b : Bool) (fstype : Str) (table : DrvTable) (name : Str) (start_sector : ℕ) (w : World)
        → b ≡ false
        → mount_if os place b fstype table name start_sector w ≡ (w, false)
    unfolding mount_if
    mount_if-off false fstype table name start_sector w e = refl
    mount_if-off true fstype table name start_sector w e = cc

    destroy_if-Owned :
        (w d : World) (is_disc : Bool) (m : World × Bool) (n : ℕ)
        → destroys m.0 ≡ destroys w
        → (m.1 ≡ true → users_of place m.0 ≡ n)
        → Owned w is_disc (destroy_if os place is_disc m).0 (destroy_if os place is_disc m).1 n
    unfolding destroy_if
    destroy_if-Owned w d is_disc m n same users = elim (Bool-cases m.1) [
      | inl ok ↦ rw ok (record { kept = λ h. (same, users ok); gone = λ h. cc })
      | inr bad ↦ elim (Bool-cases is_disc) [
        | inl e ↦
            rw (bad, e)
              (record {
                kept = λ h. cc;
                gone = λ h. omega (arith, laws.destroy_destroys m.0, same);
              })
        | inr e ↦ rw (bad, e) (record { kept = λ h. cc; gone = λ h. omega (arith, same) })
      ]
    ]

    pub mounted_device-Owned :
        (fsdrv : DvmFsDriver) (fstype : Str) (table : DrvTable) (name : Str) (has_iface : Bool)
        (start_sector cache_pages sectors_per_page : ℕ) (w : World)
        → let r =
            mount_device os place fsdrv fstype table name has_iface start_sector cache_pages
              sectors_per_page w in
          Owned w (make_disc place has_iface cache_pages sectors_per_page w).1 r.1 r.2 1
    unfolding mount_device
    mounted_device-Owned fsdrv fstype table name has_iface start_sector cache_pages sectors_per_page
          w =
        let d = make_disc place has_iface cache_pages sectors_per_page w in
        let (same, idle) = made_lem has_iface cache_pages sectors_per_page w in
        let g = if d.1 then register_fs_driver fsdrv table else (table, false) in
        let m = mount_if os place (g.1 && d.1) fstype g.0 name start_sector d.0 in
        elim (Bool-cases d.1) [
          | inl e ↦
              let (kept, users) =
                mount_if-Owned (g.1 && d.1) fstype g.0 name start_sector d.0 (idle e) in
              destroy_if-Owned w d.0 d.1 m 1 (kept ∙ same) (λ ok. rw ok at users)
          | inr e ↦
              let none : m ≡ (d.0, false) =
                mount_if-off (g.1 && d.1) fstype g.0 name start_sector d.0 (and_false g.1 d.1 e) in
              destroy_if-Owned w d.0 d.1 m 1 (ap (λ k. destroys k.0) none ∙ same)
                (λ ok. absurd (false≢true (sym (ap (λ k. k.1) none) ∙ ok)))
        ]

    mount_part-Owned :
        (table : DrvTable) (basename : Str) (part : DvmPartInfo) (fstype : Option Str) (w : World)
        → users_of place w < 2 ^ 16
        → let r = mount_part os place table basename part fstype w in
          (destroys r.0 ≡ destroys w)
          × (users_of place r.0 ≡ (users_of place w + (if r.1 then 1 else 0)) % 2 ^ 16)
    mount_part-Owned table basename part none w lt = (refl, omega arith)
    mount_part-Owned table basename part (some fstype) w lt =
        let name = volname os place basename part.index in
        (
          mount_partition-destroys table name part fstype w,
          mount_partition-users laws.users table name part fstype w lt,
        )

    mount_parts-Owned :
        (table : DrvTable) (basename : Str) (parts : List DvmPartInfo) (w : World) (n : ℕ)
        → users_of place w < 2 ^ 16
        → let r = mount_parts os place table basename parts w n in
          (destroys r.0 ≡ destroys w)
          × ((users_of place r.0 + n) % 2 ^ 16 ≡ (users_of place w + r.1) % 2 ^ 16)
          × (users_of place r.0 < 2 ^ 16)
    unfolding mount_parts
    mount_parts-Owned table basename [] w n lt = (refl, refl, lt)
    mount_parts-Owned table basename (part ∷ parts) w n lt =
        let m = mount_part os place table basename part part.fstype w in
        let one = mount_part-Owned table basename part part.fstype w lt in
        let n' = if m.1 then n + 1 else n in
        let next : n' ≡ n + (if m.1 then 1 else 0) = ground arith in
        let small : users_of place m.0 < 2 ^ 16 = omega (arith, one.1) in
        let rest = mount_parts-Owned table basename parts m.0 n' small in
        (rest.0 ∙ one.0, omega (arith, rest.1, one.1, next), rest.2)

    pub mount_found-Owned :
        (table : DrvTable) (basename : Str) (parts : List DvmPartInfo) (w : World)
        → users_of place w < 2 ^ 16
        → let r = mount_found os place table basename parts w in
          (destroys r.0 ≡ destroys w) × (users_of place r.0 ≡ (users_of place w + r.1) % 2 ^ 16)
    unfolding mount_found
    mount_found-Owned table basename [] w lt =
        let part : DvmPartInfo = record {
          index = 0;
          type = 0;
          fstype = some exfat_name;
          start_sector = 0;
          num_sectors = (place.get_disc w).num_sectors;
        } in
        (
          mount_partition-destroys table basename part exfat_name w,
          mount_partition-users laws.users table basename part exfat_name w lt,
        )
    mount_found-Owned table basename (part ∷ parts) w lt =
        let r = mount_parts-Owned table basename (part ∷ parts) w 0 lt in
        (r.0, omega (arith, r.1, r.2))
