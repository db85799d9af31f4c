-- ===== src/Startup/Linked.antt =====
-- The drivers that `dvmInit` of `source/dvm_libogc2.c` registers.
use libdvm.Base.{◌∙◌, ◌≡◌, refl, false, Option, none, some, [], ◌∷◌, ◌==◌}
use libdvm.Base.Strings.{str_eq, str_eq_refl}
use libdvm.Volume.Drivers.{
  DvmFsDriver, DrvTable, register_fs_driver, register_from, find_driver, max_drivers,
}
use libdvm.Startup.Ogc.{register_all}

-- Two drivers at different addresses, for different file systems.
pub record Apart (a b : DvmFsDriver) : Type 0 where
  pub address : (a.address == b.address) ≡ false
  pub fstype : str_eq a.fstype b.fstype ≡ false

abbrev pub AllApart : Option DvmFsDriver → Option DvmFsDriver → Type 0
AllApart none b = Unit {0}
AllApart (some a) none = Unit {0}
AllApart (some a) (some b) = Apart a b

-- What is found for the file system of a driver, if it is linked.
abbrev pub Finds : Option DvmFsDriver → DrvTable → Type 0
Finds none t = Unit {0}
Finds (some d) t = find_driver d.fstype t ≡ some d

found : (a : DvmFsDriver) (t : DrvTable) → find_driver a.fstype (a ∷ t) ≡ some a
unfolding find_driver
found a t = rw (str_eq_refl a.fstype) refl

found_behind :
    (a b : DvmFsDriver) (t : DrvTable)
    → Apart a b
    → find_driver b.fstype (a ∷ t) ≡ find_driver b.fstype t
unfolding find_driver
found_behind a b t h = rw (h.fstype) refl

entered_behind :
    (a b : DvmFsDriver) → Apart a b → register_from max_drivers b (a ∷ []) ≡ some (a ∷ b ∷ [])
unfolding register_from
entered_behind a b h = rw (h.address, h.fstype) refl

entered_third :
    (a b c : DvmFsDriver)
    → Apart a c
    → Apart b c
    → register_from max_drivers c (a ∷ b ∷ []) ≡ some (a ∷ b ∷ c ∷ [])
unfolding register_from
entered_third a b c h k = rw (h.address, h.fstype, k.address, k.fstype) refl

registered_behind : (a b : DvmFsDriver) → Apart a b → (register_fs_driver b (a ∷ [])).0 ≡ a ∷ b ∷ []
unfolding register_fs_driver
registered_behind a b h = rw (register_fs_driver, entered_behind a b h) refl

registered_third :
    (a b c : DvmFsDriver)
    → Apart a c
    → Apart b c
    → (register_fs_driver c (a ∷ b ∷ [])).0 ≡ a ∷ b ∷ c ∷ []
unfolding register_fs_driver
registered_third a b c h k = rw (register_fs_driver, entered_third a b c h k) refl

-- `dvmInit` of a GameCube and a Wii registers every driver that is linked, whichever they are: behind the
-- registrations each is what is found for its file system, where they are at different addresses and
-- for different file systems and the table is empty before.
pub register_all-Finds :
    (v e x : Option DvmFsDriver)
    → AllApart v e
    → AllApart v x
    → AllApart e x
    → let t = register_all (record { vfat_driver = v; exfat_driver = e; ext2_driver = x }) [] in
      Finds v t × Finds e t × Finds x t
unfolding register_all register_fs_driver register_from
register_all-Finds none none none ve vx ex = (tt, tt, tt)
register_all-Finds (some v) none none ve vx ex = (found v [], tt, tt)
register_all-Finds none (some e) none ve vx ex = (tt, found e [], tt)
register_all-Finds none none (some x) ve vx ex = (tt, tt, found x [])
register_all-Finds (some v) (some e) none ve vx ex =
    rw (registered_behind v e ve) (found v _, found_behind v e _ ve ∙ found e [], tt)
register_all-Finds (some v) none (some x) ve vx ex =
    rw (registered_behind v x vx) (found v _, tt, found_behind v x _ vx ∙ found x [])
register_all-Finds none (some e) (some x) ve vx ex =
    rw (registered_behind e x ex) (tt, found e _, found_behind e x _ ex ∙ found x [])
register_all-Finds (some v) (some e) (some x) ve vx ex =
    rw (registered_behind v e ve, registered_third v e x vx ex)
      (
        found v _,
        found_behind v e _ ve ∙ found e _,
        found_behind v x _ vx ∙ found_behind e x _ ex ∙ found x [],
      )
