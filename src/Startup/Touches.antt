-- ===== src/Startup/Touches.antt =====
-- Which discs `dvmInit` of `source/dvm_calico.c` touches.
use libdvm.Base.{
  ℕ, ◌≡◌, refl, Bool, true, false, not, ◌&&◌, ◌==◌, leb, if◌then◌else◌, Bool-cases, inl, inr,
}
use libdvm.Base.Strings.{Str}
use libdvm.Disc.{DvmDiscIface}
use libdvm.Disc.Memory.{Buf}
use libdvm.Disc.Object.{DvmDisc}
use libdvm.Volume.Drivers.{DrvTable}
use libdvm.Volume.Mount.{Platform}
use libdvm.Volume.Probe.{DiscPlace}
use libdvm.Volume.Keeps.{OsKeeps, probe_mount_disc-keeps}
use libdvm.Startup.WorkingDir.{set_dir_of-keeps}
use libdvm.Startup.Calico.{
  BlkDevice, dldi, twl_sd_card, twl_nand_aes, BlkDevices, Settings, basename_of, get_calico_disc,
  get_and_mount, set_cwdir, allow_nand_write, mount_nand, mount_twl, calico_init,
}

-- What is done to one disc keeps `I`.
pub record DevKeeps {World D : Type 0} (blk : BlkDevices World)
    (place : BlkDevice → DiscPlace World D) (I : World → Type 0) (dev : BlkDevice) : Type 0 where
  pub dev_init : (w : World) → I w → I (blk.dev_init dev w).0
  pub is_present : (w : World) → I w → I (blk.is_present dev w).0
  pub set_disc : (d : DvmDisc D) (w : World) → I w → I ((place dev).set_disc d w)
  pub disc_cache_create : (n k : ℕ) (w : World) → I w → I ((place dev).disc_cache_create n k w)
  pub disc_destroy : (w : World) → I w → I ((place dev).disc_destroy w)

-- The discs that the settings allow `dvmInit` to touch.
abbrev pub is_wanted : Settings → BlkDevice → Bool
is_wanted settings dldi = true
is_wanted settings twl_sd_card = settings.is_twl_mode
is_wanted settings twl_nand_aes = settings.is_twl_mode && not (settings.nand_mount == 0)

module _ {World : Type 0} (I : World → Type 0) where
  kept_if : {A : Type 0} (b : Bool) (x y : World × A) → I x.0 → I y.0 → I (if b then x else y).0
  kept_if true x y i j = i
  kept_if false x y i j = j

  set_cwdir-keeps :
      (chdir : Str → World → World) (settings : Settings) (needed : Bool) (w : World)
      → ((dir : Str) (v : World) → I v → I (chdir dir v))
      → I w
      → I (set_cwdir chdir settings needed w)
  set_cwdir-keeps chdir settings false w keep i = i
  set_cwdir-keeps chdir settings true w keep i =
      set_dir_of-keeps chdir I keep settings.path_max settings.argv0 w i

module _ {World D : Type 0} {blk : BlkDevices World} {place : BlkDevice → DiscPlace World D}
    {I : World → Type 0} where
  pub get_calico_disc-keeps :
      (dev : BlkDevice) (n k : ℕ) (w : World)
      → DevKeeps blk place I dev
      → I w
      → I (get_calico_disc blk place dev n k w).0
  unfolding get_calico_disc
  get_calico_disc-keeps dev n k w dk i =
      let first = dk.dev_init w i in
      let p : World × Bool =
        if (blk.dev_init dev w).1
        then blk.is_present dev (blk.dev_init dev w).0
        else blk.dev_init dev w in
      let second : I p.0 = kept_if I _ _ _ (dk.is_present _ first) first in
      kept_if I p.1 _ _ (dk.disc_cache_create n k _ (dk.set_disc _ p.0 second)) second

module _ {World Device D : Type 0} {os : Platform World Device} {blk : BlkDevices World}
    {place : BlkDevice → DiscPlace World D} {I : World → Type 0} (keeps : OsKeeps os I) where
  get_and_mount-keeps :
      (vt : DvmDiscIface D) (buf : Buf) (table : DrvTable) (dev : BlkDevice) (n k : ℕ) (w : World)
      → DevKeeps blk place I dev
      → I w
      → I (get_and_mount os blk place vt buf table dev n k w).0
  unfolding get_and_mount
  get_and_mount-keeps vt buf table dev n k w dk i =
      let d = get_calico_disc blk place dev n k w in
      let first = get_calico_disc-keeps dev n k w dk i in
      let second =
        probe_mount_disc-keeps keeps (place dev) dk.set_disc vt buf table (basename_of dev) d.0
          first in
      kept_if I d.1 _ (d.0, 0) (kept_if I _ _ _ (dk.disc_destroy _ second) second) first

  module _ (vt : DvmDiscIface D) (buf : Buf) (table : DrvTable) (can_write : ℕ)
      (settings : Settings)
      (wanted : (dev : BlkDevice) → is_wanted settings dev ≡ true → DevKeeps blk place I dev) where
    allow_nand_write-keeps :
        (w : World)
        → DevKeeps blk place I twl_nand_aes
        → I w
        → I (allow_nand_write os blk place vt buf table can_write settings w)
    allow_nand_write-keeps w dk i = elim (Bool-cases (leb 2 settings.nand_mount)) [
      | inl e ↦ rw e (dk.set_disc _ w i)
      | inr e ↦ rw e i
    ]

    mount_nand-keeps :
        (n k : ℕ) (w : World)
        → settings.is_twl_mode ≡ true
        → I w
        → I (mount_nand os blk place vt buf table can_write settings n k w).0
    mount_nand-keeps n k w twl i = elim (Bool-cases (settings.nand_mount == 0)) [
      | inl e ↦ rw e i
      | inr e ↦
          let dk = wanted twl_nand_aes (rw (twl, e) refl) in
          rw e
            (get_and_mount-keeps vt buf table twl_nand_aes n k _ dk (allow_nand_write-keeps w dk i))
    ]

    mount_twl-keeps :
        (n k : ℕ) (w : World)
        → I w
        → I (mount_twl os blk place vt buf table can_write settings n k w).0
    mount_twl-keeps n k w i = elim (Bool-cases settings.is_twl_mode) [
      | inr e ↦ rw e i
      | inl e ↦ rw e (
          mount_nand-keeps n k _ e
            (get_and_mount-keeps vt buf table twl_sd_card n k w (wanted twl_sd_card e) i))
    ]

    -- `dvmInit` touches the SD card only on a DSi and its NAND only where that is requested as well:
    -- what the drivers, newlib, the start of the block devices and all that is done to the discs that
    -- the settings want keep, it keeps, whatever is done to the others.
    pub calico_init-keeps :
        ((w : World) → I w → I (blk.blk_init w))
        → (set_app_cwdir : Bool) (n k : ℕ) (w : World) → I w
        → I (calico_init os blk place vt buf table can_write settings set_app_cwdir n k w).0
    unfolding calico_init
    calico_init-keeps start set_app_cwdir n k w i =
        set_cwdir-keeps I os.chdir settings _ _ keeps.chdir (
          mount_twl-keeps n k _
            (get_and_mount-keeps vt buf table dldi n k _ (wanted dldi refl) (start w i)))
