-- ===== src/Volume/Drivers.antt =====
-- `dvmRegisterFsDriver` of `source/dvm_volume.c`, and the search for a driver in `dvmMountPartition`.
use mathlib.Core.Option
use libdvm.Base.{
  ℕ, zero, suc, Bool, true, false, Option, none, some, List, [], ◌∷◌, ◌==◌, if◌then◌else◌,
}
use libdvm.Base.Strings.{Str, str_eq}

-- `MAX_DRIVERS`
abbrev pub max_drivers : ℕ
max_drivers = 8

-- `DvmFsDriver` at its address. The table points at drivers, and compares their addresses.
pub record DvmFsDriver : Type 0 where
  pub address : ℕ
  pub fstype : Str
  pub device_data_sz : ℕ

-- The pointers of `s_dvmFsDrvTable` up to the first that is NULL.
abbrev pub DrvTable : Type 0
DrvTable = List DvmFsDriver

-- The loop over the slots that are left, `n` of them. `none` is the return of false.
unfoldable pub register_from : ℕ → DvmFsDriver → DrvTable → Option DrvTable
register_from zero fsdrv table = none
register_from (suc n) fsdrv [] = some (fsdrv ∷ [])
register_from (suc n) fsdrv (d ∷ ds) =
    let rest = Option.map (λ (t : DrvTable). d ∷ t) (register_from n fsdrv ds) in
    if d.address == fsdrv.address
    then some (d ∷ ds)
    else if str_eq d.fstype fsdrv.fstype
    then none
    else rest

-- `dvmRegisterFsDriver`: the table behind it, and what it returns.
unfoldable pub register_fs_driver : DvmFsDriver → DrvTable → DrvTable × Bool
register_fs_driver fsdrv table = elim (register_from max_drivers fsdrv table) [
  | none ↦ (table, false)
  | some t ↦ (t, true)
]

-- The loop that searches for a driver.
unfoldable pub find_driver : Str → DrvTable → Option DvmFsDriver
find_driver fstype [] = none
find_driver fstype (d ∷ ds) =
    let rest = find_driver fstype ds in if str_eq d.fstype fstype then some d else rest
