-- ===== src/Startup/DsMachine.antt =====
-- `dvmInit` of `source/dvm_calico.c` on the program put together, with the three discs of the DS.
use libdvm.Base.{ℕ, ◌≡◌, refl, Bool, none, ltb}
use libdvm.Disc.Memory.{Buf}
use libdvm.Fat.Mount.{FatMounts}
use libdvm.Ext4.Mount.{Ext4Mounts}
use libdvm.Volume.Drivers.{DrvTable}
use libdvm.Volume.Mount.{Platform}
use libdvm.Volume.Probe.{DiscPlace}
use libdvm.Volume.Machine.{
  DiscSelf, VolumeData, Machine, Newlib, counted, self_vt, machine_os, machine_place,
}
use libdvm.Volume.Made.{os_counts}
use libdvm.Startup.Calico.{
  BlkDevice, dldi, twl_sd_card, twl_nand_aes, BlkDevices, BlkTransfers, calico_vt, Settings,
  get_and_mount, calico_init,
}
use libdvm.Startup.Counts.{calico_init-volumes}

-- The address of `s_dvmDiscDldi`, `s_dvmDiscSd` and `s_dvmDiscNand`.
abbrev pub static_address : BlkDevice → ℕ
static_address dldi = 1
static_address twl_sd_card = 2
static_address twl_nand_aes = 3

-- The calls of the block devices, which leave the discs.
abbrev pub machine_blk :
    {Blk Fs Mp Os : Type 0} → BlkDevices Blk → BlkDevices (Machine (BlkDevice × Blk) Fs Mp Os)
machine_blk blk = record {
  blk_init = λ w. record w { dev = (w.dev.0, blk.blk_init w.dev.1) };
  dev_init = λ dev w. let r = blk.dev_init dev w.dev.1 in (record w { dev = (dev, r.0) }, r.1);
  is_present = λ dev w. let r = blk.is_present dev w.dev.1 in (record w { dev = (dev, r.0) }, r.1);
  sector_count = λ dev w. blk.sector_count dev w.dev.1;
  dldi_features = λ w. blk.dldi_features w.dev.1;
}

module _ {Blk Fs Mp Os : Type 0} (blk : BlkDevices Blk) (transfers : BlkTransfers Blk)
    (is_aligned : Bool) (ff : FatMounts (DiscSelf (BlkDevice × Blk)) Fs)
    (ext : Ext4Mounts (DiscSelf (BlkDevice × Blk)) Mp) (can_format can_write enotsup : ℕ)
    (nl : Newlib Os) (page_data buf : Buf) (table : DrvTable) where
  abbrev pub ds_os : Platform (Machine (BlkDevice × Blk) Fs Mp (Os × ℕ)) VolumeData
  ds_os =
      machine_os (calico_vt transfers) is_aligned ff ext can_format can_write enotsup (counted nl)

  -- The discs are there from the start: `dvmDiscCreate` makes none.
  abbrev pub ds_place :
      BlkDevice → DiscPlace (Machine (BlkDevice × Blk) Fs Mp (Os × ℕ)) (DiscSelf (BlkDevice × Blk))
  ds_place dev =
      machine_place (calico_vt transfers) is_aligned (λ d. (d, none)) page_data (static_address dev)

  abbrev pub ds_mount :
      BlkDevice
      → ℕ
      → ℕ
      → Machine (BlkDevice × Blk) Fs Mp (Os × ℕ)
      → Machine (BlkDevice × Blk) Fs Mp (Os × ℕ) × ℕ
  ds_mount =
      get_and_mount ds_os (machine_blk blk) ds_place (self_vt (calico_vt transfers) is_aligned) buf
        table

  -- On a DS, `dvmInit` returns true exactly if newlib accepts a volume in the course of it, where `os.1`
  -- is the number of times that `AddDevice` did so.
  pub calico_init-accepted :
      (settings : Settings) (set_app_cwdir : Bool) (n k : ℕ)
      (w : Machine (BlkDevice × Blk) Fs Mp (Os × ℕ))
      → let r =
          calico_init ds_os
            (machine_blk blk)
            ds_place
            (self_vt (calico_vt transfers) is_aligned)
            buf
            table
            can_write
            settings
            set_app_cwdir
            n
            k
            w in
        r.1 ≡ ltb w.os.1 r.0.os.1
  calico_init-accepted settings set_app_cwdir n k w =
      calico_init-volumes
        (os_counts (calico_vt transfers) is_aligned ff ext can_format can_write enotsup nl)
        (λ m dev. record {
          dev_init = λ u i. i;
          is_present = λ u i. i;
          set_disc = λ d u i. i;
          disc_cache_create = λ a b u i. i;
          disc_destroy = λ u i. i;
        })
        (self_vt (calico_vt transfers) is_aligned) buf table can_write settings (λ u. refl)
        set_app_cwdir n k w
