-- ===== src/Startup/Ogc.antt =====
-- `source/dvm_libogc2.c`: `dvmInit` and `dvmDeinit` on a GameCube and a Wii.
use libdvm.Base.{
  ℕ, zero, suc, ◌+◌, ◌-◌, Bool, not, Option, none, some, List, [], ◌∷◌, ◌&&◌, ◌==◌, if◌then◌else◌,
}
use libdvm.Base.Strings.{Str, str_eq}
use libdvm.Disc.{DvmDiscIface}
use libdvm.Disc.Memory.{Buf}
use libdvm.Volume.Drivers.{DvmFsDriver, DrvTable, register_fs_driver}
use libdvm.Volume.Mount.{Platform, stdnull, unmount_volume}
use libdvm.Volume.Probe.{DiscPlace, probe_mount_disc_iface}
use libdvm.Startup.WorkingDir.{chdir_if, set_dir_of}

pub data OgcSystem : Type 0 where
  wii gamecube : OgcSystem

-- The devices that `dvmInit` names.
pub data OgcDevice : Type 0 where
  sd usb carda cardb dvd ram : OgcDevice

-- "sd", "usb", "carda", "cardb", "dvd" and "ram"
abbrev pub name_of : OgcDevice → Str
name_of sd = 115 ∷ 100 ∷ []
name_of usb = 117 ∷ 115 ∷ 98 ∷ []
name_of carda = 99 ∷ 97 ∷ 114 ∷ 100 ∷ 97 ∷ []
name_of cardb = 99 ∷ 97 ∷ 114 ∷ 100 ∷ 98 ∷ []
name_of dvd = 100 ∷ 118 ∷ 100 ∷ []
name_of ram = 114 ∷ 97 ∷ 109 ∷ []

-- The devices in the order of the calls of `dvmProbeMountDiscIface`.
abbrev pub devices_of : OgcSystem → List OgcDevice
devices_of wii = sd ∷ usb ∷ carda ∷ cardb ∷ []
devices_of gamecube = carda ∷ cardb ∷ sd ∷ dvd ∷ ram ∷ []

-- A driver that is linked weakly is NULL, here none, where nothing links it.
abbrev pub register_weak : Option DvmFsDriver → DrvTable → DrvTable
register_weak none table = table
register_weak (some fsdrv) table = (register_fs_driver fsdrv table).0

pub record OgcDrivers : Type 0 where
  pub vfat_driver : Option DvmFsDriver
  pub exfat_driver : Option DvmFsDriver
  pub ext2_driver : Option DvmFsDriver

unfoldable pub register_all : OgcDrivers → DrvTable → DrvTable
register_all drivers table =
    register_weak drivers.ext2_driver
      (register_weak drivers.exfat_driver (register_weak drivers.vfat_driver table))

-- What `dvmInit` reads of the environment: `PWD`, the first argument if there is one, and `PATH_MAX`.
pub record Environment : Type 0 where
  pub pwd : Option Str
  pub argv0 : Option Str
  pub path_max : ℕ

-- What the code calls of libogc2 and newlib besides the mounts. `device_at` is the name of the entry of
-- `devoptab_list` at an index, none for NULL.
pub record OgcSystemCalls (World : Type 0) : Type 0 where
  pub register_reset_func : World → World
  pub unregister_reset_func : World → World
  pub fsync : ℕ → World → World
  pub device_at : ℕ → World → Option Str

module _ {World Device : Type 0} (os : Platform World Device) (sys : OgcSystemCalls World) where
  -- The change of the working directory: to `PWD` first, then to the directory of the application.
  abbrev pub change_dirs : Environment → World → World
  change_dirs env w = set_dir_of os.chdir env.path_max env.argv0 (chdir_if os.chdir env.pwd w)

  -- The first loop of `dvmDeinit`, over `n` files from `fd` on.
  unfoldable pub sync_from : ℕ → ℕ → World → World
  sync_from zero fd w = w
  sync_from (suc n) fd w = sync_from n (fd + 1) (sys.fsync fd w)

  -- The body of the second loop.
  unfoldable pub unmount_named : Option Str → World → World
  unmount_named none w = w
  unmount_named (some name) w = if str_eq name stdnull then w else (unmount_volume os name w).0

  -- The second loop, over `n` devices from `i` on.
  unfoldable pub unmount_from : ℕ → ℕ → World → World
  unfolding unmount_named
  unmount_from zero i w = w
  unmount_from (suc n) i w = unmount_from n (i + 1) (unmount_named (sys.device_at i w) w)

  -- `dvmDeinit`, where `std_max` is the size of `devoptab_list`.
  unfoldable pub dvm_deinit : ℕ → World → World
  dvm_deinit std_max w =
      sys.unregister_reset_func (unmount_from (std_max - 3) 3 (sync_from (1024 - 3) 3 w))

  -- `_dvmOnReset`: what it leaves; it always returns true.
  abbrev pub on_reset : ℕ → Bool → World → World
  on_reset std_max final w = if not final then dvm_deinit std_max w else w

module _ {World Device D : Type 0} (os : Platform World Device) (sys : OgcSystemCalls World)
    (place : OgcDevice → DiscPlace World D) (vt : DvmDiscIface D) (buf : Buf)
    (has_iface : OgcDevice → Bool) where
  -- The number of volumes that are mounted of the devices.
  unfoldable pub probe_all : DrvTable → ℕ → ℕ → List OgcDevice → World → World × ℕ
  probe_all table cache_pages sectors_per_page [] w = (w, 0)
  probe_all table cache_pages sectors_per_page (dev ∷ devs) w =
      let r =
        probe_mount_disc_iface os (place dev) vt buf table (name_of dev) (has_iface dev) cache_pages
          sectors_per_page w in
      let rest = probe_all table cache_pages sectors_per_page devs r.0 in (rest.0, r.1 + rest.1)

  -- `dvmInit`: the table of drivers and the platform behind it, and whether a volume was mounted.
  unfoldable pub ogc_init :
      OgcSystem
      → OgcDrivers
      → Environment
      → Bool
      → ℕ
      → ℕ
      → DrvTable
      → World
      → DrvTable × World × Bool
  unfolding register_all probe_all
  ogc_init system drivers env set_app_cwdir cache_pages sectors_per_page table w =
      let t = register_all drivers table in
      let r = probe_all t cache_pages sectors_per_page (devices_of system) w in
      let some_mounted = not (r.1 == 0) in
      let moved = if set_app_cwdir && some_mounted then change_dirs os sys env r.0 else r.0 in
      (t, (if some_mounted then sys.register_reset_func moved else moved), some_mounted)
