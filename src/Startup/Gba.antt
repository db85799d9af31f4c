-- ===== src/Startup/Gba.antt =====
-- `dvmInit` of `source/dvm_libgba.c`.
use libdvm.Base.{ℕ, Bool, not, [], ◌∷◌, ◌==◌}
use libdvm.Base.Strings.{Str}
use libdvm.Disc.{DvmDiscIface}
use libdvm.Disc.Memory.{Buf}
use libdvm.Volume.Drivers.{DrvTable}
use libdvm.Volume.Mount.{Platform}
use libdvm.Volume.Probe.{DiscPlace, probe_mount_disc_iface}

-- "fat"
abbrev pub fat_name : Str
fat_name = 102 ∷ 97 ∷ 116 ∷ []

module _ {World Device D : Type 0} (os : Platform World Device) (place : DiscPlace World D)
    (vt : DvmDiscIface D) (buf : Buf) (table : DrvTable) where
  -- `has_iface` is whether `discGetInterface` finds an interface.
  unfoldable pub gba_init : Bool → ℕ → ℕ → World → World × Bool
  gba_init has_iface cache_pages sectors_per_page w =
      let r =
        probe_mount_disc_iface os place vt buf table fat_name has_iface cache_pages sectors_per_page
          w in
      (r.0, not (r.1 == 0))
