-- ===== src/Volume/Registry.antt =====
-- What the table of drivers holds after registrations.
use mathlib.Core.Option
use libdvm.Base.{
  ℕ, zero, suc, ◌≤◌, ◌≡◌, refl, sym, ap, ◌∙◌, Bool, true, false, Option, none, some, [], ◌∷◌, ◌==◌,
  if◌then◌else◌, arith, Bool-cases, inl, inr, length,
}
use libdvm.Base.Strings.{Str, str_eq, str_eq_refl}
use libdvm.Volume.Drivers.{
  DvmFsDriver, DrvTable, register_from, register_fs_driver, find_driver, max_drivers,
}

-- No driver of the table is for the file system.
abbrev pub IsNew : Str → DrvTable → Type 0
IsNew fstype [] = Unit {0}
IsNew fstype (d ∷ ds) = (str_eq d.fstype fstype ≡ false) × IsNew fstype ds

-- The table fits into its slots, with one driver for each file system.
abbrev pub AllDiffer : DrvTable → Type 0
AllDiffer [] = Unit {0}
AllDiffer (d ∷ ds) = IsNew d.fstype ds × AllDiffer ds

-- A driver of the table at the same address is the same.
abbrev pub IsPointer : DvmFsDriver → DrvTable → Type 0
IsPointer fsdrv [] = Unit {0}
IsPointer fsdrv (d ∷ ds) = (d.address ≡ fsdrv.address → d ≡ fsdrv) × IsPointer fsdrv ds

-- What a registration that succeeds leaves.
record Entered (fsdrv : DvmFsDriver) (n : ℕ) (table t : DrvTable) : Type 0 where
  few : length t ≤ n
  differ : AllDiffer t
  finds : find_driver fsdrv.fstype t ≡ some fsdrv
  keeps :
      (fstype : Str)
      → str_eq fsdrv.fstype fstype ≡ false
      → find_driver fstype t ≡ find_driver fstype table
  fresh : (fstype : Str) → str_eq fsdrv.fstype fstype ≡ false → IsNew fstype table → IsNew fstype t

abbrev Answer : DvmFsDriver → ℕ → DrvTable → Option DrvTable → Type 0
Answer fsdrv n table none = Unit {0}
Answer fsdrv n table (some t) = Entered fsdrv n table t

str_eq_comm : (a b : Str) → str_eq a b ≡ false → str_eq b a ≡ false
unfolding str_eq
str_eq_comm [] [] h = h
str_eq_comm [] (y ∷ ys) h = refl
str_eq_comm (x ∷ xs) [] h = refl
str_eq_comm (x ∷ xs) (y ∷ ys) h = ground (arith, str_eq_comm xs ys)

register_from-Answer :
    (n : ℕ) (fsdrv : DvmFsDriver) (table : DrvTable)
    → AllDiffer table
    → IsPointer fsdrv table
    → length table ≤ n
    → Answer fsdrv n table (register_from n fsdrv table)
unfolding register_from find_driver
register_from-Answer zero fsdrv table differ ptr few = tt
register_from-Answer (suc n) fsdrv [] differ ptr few = record {
  few = omega arith;
  differ = (tt, tt);
  finds = rw (str_eq_refl fsdrv.fstype) refl;
  keeps = λ fstype h. rw h refl;
  fresh = λ fstype h new. (h, tt);
}
register_from-Answer (suc n) fsdrv (d ∷ ds) (new, differ) (same, ptr) few =
    elim (Bool-cases (d.address == fsdrv.address)) [
      | inl here ↦
          let it : d ≡ fsdrv = same (ground arith) in
          let own : str_eq d.fstype fsdrv.fstype ≡ true =
            ap (λ k. str_eq d.fstype k.fstype) (sym it) ∙ str_eq_refl d.fstype in
          rw here (record {
            few = few;
            differ = (new, differ);
            finds = rw own (ap some it);
            keeps = λ fstype h. refl;
            fresh = λ fstype h xs. xs;
          })
      | inr apart ↦ rw apart (elim (Bool-cases (str_eq d.fstype fsdrv.fstype)) [
        | inl taken ↦ rw taken tt
        | inr other ↦ rw other (
            cons (register_from n fsdrv ds) other
              (register_from-Answer n fsdrv ds differ ptr (omega arith)))
      ])
    ]
  where
    cons :
        (r : Option DrvTable)
        → str_eq d.fstype fsdrv.fstype ≡ false
        → Answer fsdrv n ds r
        → Answer fsdrv (suc n) (d ∷ ds) (Option.map (λ (t : DrvTable). d ∷ t) r)
    cons none other h = tt
    cons (some t) other h = record {
      few = omega (arith, h.few);
      differ = (h.fresh d.fstype (str_eq_comm d.fstype fsdrv.fstype other) new, h.differ);
      finds = rw other h.finds;
      keeps =
          λ fstype ne. ap (λ o. if str_eq d.fstype fstype then some d else o) (h.keeps fstype ne);
      fresh = λ fstype ne (x, xs). (x, h.fresh fstype ne xs);
    }

-- The table behind a registration, and whether it succeeded.
pub record Registered (fsdrv : DvmFsDriver) (table : DrvTable) (r : DrvTable × Bool) : Type 0 where
  pub few : length r.0 ≤ max_drivers
  pub differ : AllDiffer r.0
  pub finds : r.1 ≡ true → find_driver fsdrv.fstype r.0 ≡ some fsdrv
  pub refused : r.1 ≡ false → r.0 ≡ table
  pub keeps :
      (fstype : Str)
      → str_eq fsdrv.fstype fstype ≡ false
      → find_driver fstype r.0 ≡ find_driver fstype table

-- A registration that succeeds makes the driver the one that is found for its file system, one that
-- fails changes nothing, and either leaves at most one driver for each file system, eight in all, and
-- the drivers that are found for other file systems: in such a table, where a driver at the same
-- address is the same driver.
pub register_fs_driver-Registered :
    (fsdrv : DvmFsDriver) (table : DrvTable)
    → AllDiffer table
    → IsPointer fsdrv table
    → length table ≤ max_drivers
    → Registered fsdrv table (register_fs_driver fsdrv table)
unfolding register_fs_driver
register_fs_driver-Registered fsdrv table differ ptr few =
    go (register_from max_drivers fsdrv table)
      (register_from-Answer max_drivers fsdrv table differ ptr few)
  where
    go :
        (r : Option DrvTable)
        → Answer fsdrv max_drivers table r
        → Registered fsdrv table (elim r [ none ↦ (table, false) | some t ↦ (t, true) ])
    go none h = record {
      few = few;
      differ = differ;
      finds = λ e. cc;
      refused = λ e. refl;
      keeps = λ fstype ne. refl;
    }
    go (some t) h = record {
      few = h.few;
      differ = h.differ;
      finds = λ e. h.finds;
      refused = λ e. cc;
      keeps = h.keeps;
    }
