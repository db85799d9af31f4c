-- ===== src/Nitro/Init.antt =====
-- `nitroFSInit` and `nitroFSMount` of `source/nitrofs.c`.
use libdvm.Base.{ℕ, Bool, false, Option, none, some, if◌then◌else◌}
use libdvm.Base.Strings.{Str}
use libdvm.Nitro.Files.{root_dir}

-- What the device holds: the ROM, which is `deviceData`, and the working directory, `_nitroFS_cwd`.
pub record NitroDevice (Rom : Type 0) : Type 0 where
  pub rom : Option Rom
  pub cwd : ℕ

module _ {World Rom : Type 0} (add_device : NitroDevice Rom → World → World × Bool) where
  -- `nitroFSMount`: whether `AddDevice` found a slot.
  abbrev pub nitrofs_mount : Rom → World → NitroDevice Rom × World × Bool
  nitrofs_mount nr w =
      let device : NitroDevice Rom = record { rom = some nr; cwd = root_dir } in
      let r = add_device device w in (device, r.0, r.1)

  -- `nitroFSInit` behind `fatInitDefault`, from what `nitroromGetSelf` finds.
  abbrev pub mount_self : Option Rom → NitroDevice Rom → World → NitroDevice Rom × World × Bool
  mount_self none device w = (device, w, false)
  mount_self (some nr) device w = nitrofs_mount nr w

  -- `nitroFSInit`, with what `*basepath` is set to, none for NULL. `argv0` is the first argument.
  unfoldable pub nitrofs_init :
      (World → World × Bool)
      → (World → World × Option Rom)
      → Str
      → NitroDevice Rom
      → World
      → (NitroDevice Rom × World × Bool) × Option Str
  nitrofs_init fat_init_default get_self argv0 device w =
      let s = get_self (fat_init_default w).0 in
      let r = mount_self s.1 device s.0 in (r, if r.2 then some argv0 else none)
