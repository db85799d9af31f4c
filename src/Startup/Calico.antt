-- ===== src/Startup/Calico.antt =====
-- `source/dvm_calico.c`: the discs of the DS and the DSi, and `dvmInit`. What the block devices do is a
-- parameter.
use Prim.Native.Nat.{bit_and, bit_or}
use libdvm.Base.{
  ℕ, ◌+◌, ◌-◌, ◌%◌, ◌^◌, Bool, true, false, not, Option, [], ◌∷◌, ◌&&◌, ◌==◌, ltb, leb,
  if◌then◌else◌,
}
use libdvm.Base.Strings.{Str}
use libdvm.Disc.{DvmDiscIface, ReadReply, WriteReply}
use libdvm.Disc.Memory.{Buf}
use libdvm.Disc.Object.{DvmDisc}
use libdvm.Volume.Drivers.{DrvTable}
use libdvm.Volume.Mount.{Platform}
use libdvm.Volume.Probe.{DiscPlace, probe_mount_disc}
use libdvm.Startup.WorkingDir.{set_dir_of}

-- `BlkDevice`
pub data BlkDevice : Type 0 where
  dldi twl_sd_card twl_nand_aes : BlkDevice

-- What the code calls of the block devices, without the transfers.
pub record BlkDevices (Blk : Type 0) : Type 0 where
  pub blk_init : Blk → Blk
  pub dev_init : BlkDevice → Blk → Blk × Bool
  pub is_present : BlkDevice → Blk → Blk × Bool
  pub sector_count : BlkDevice → Blk → ℕ
  pub dldi_features : Blk → ℕ

-- What transfers the sectors of a block device.
pub record BlkTransfers (Blk : Type 0) : Type 0 where
  pub read_sectors : BlkDevice → Blk → Buf → ℕ → ℕ → ReadReply Blk
  pub write_sectors : BlkDevice → Blk → Buf → ℕ → ℕ → WriteReply Blk

-- `_dvmIsAlignedAccess`, with the size of a line of the cache and the bounds of the main memory.
unfoldable pub is_aligned_access : ℕ → ℕ → ℕ → ℕ → Bool → Bool
is_aligned_access cache_line mainram dtcm addr is_write =
    let align = if is_write then 4 else cache_line in
    (bit_and addr (align - 1) == 0) && leb mainram addr && ltb addr dtcm

-- `s_dvmDiscCalicoIface`. A disc works on its block device, which `io_type` names.
abbrev pub calico_vt : {Blk : Type 0} → BlkTransfers Blk → DvmDiscIface (BlkDevice × Blk)
calico_vt blk = record {
  destroy = λ d. d;
  read_sectors = λ d buffer first_sector num_sectors is_partial.
      let r = blk.read_sectors d.0 d.1 buffer first_sector num_sectors in
      record { state = (d.0, r.state); buf = r.buf; ok = r.ok };
  write_sectors = λ d buffer first_sector num_sectors is_partial.
      let r = blk.write_sectors d.0 d.1 buffer first_sector num_sectors in
      record { state = (d.0, r.state); ok = r.ok };
  flush = λ d. record { state = d; ok = true };
  set_num_sectors = λ n d. d;
}

-- `s_dvmDiscDldi`, `s_dvmDiscSd` and `s_dvmDiscNand` at first, from the number of the device and the
-- bits `FEATURE_MEDIUM_CANREAD` and `FEATURE_MEDIUM_CANWRITE`.
abbrev pub first_features : ℕ → ℕ → BlkDevice → ℕ
first_features can_read can_write dldi = 0
first_features can_read can_write twl_sd_card = bit_or can_read can_write
first_features can_read can_write twl_nand_aes = can_read

abbrev pub static_disc :
    {Blk : Type 0} → (BlkDevice → ℕ) → ℕ → ℕ → BlkDevice → Blk → DvmDisc (BlkDevice × Blk)
static_disc number can_read can_write dev d = record {
  self = (dev, d);
  io_type = number dev;
  features = first_features can_read can_write dev;
  num_users = 0;
  num_sectors = 0;
  sector_sz = 512;
  block_sz = 0;
}

-- The features of a disc that is there: those of the DLDI driver are known only then.
abbrev pub found_features : BlkDevice → ℕ → ℕ → ℕ
found_features dldi known features = known % 2 ^ 16
found_features twl_sd_card known features = features
found_features twl_nand_aes known features = features

-- "fat", "sd" and "nand"
abbrev pub basename_of : BlkDevice → Str
basename_of dldi = 102 ∷ 97 ∷ 116 ∷ []
basename_of twl_sd_card = 115 ∷ 100 ∷ []
basename_of twl_nand_aes = 110 ∷ 97 ∷ 110 ∷ 100 ∷ []

module _ {World D : Type 0} (blk : BlkDevices World) (place : BlkDevice → DiscPlace World D) where
  -- The disc as it is found, before its cache is made.
  unfoldable pub found_disc : BlkDevice → World → DvmDisc D
  found_disc dev w =
      let disc = (place dev).get_disc w in
      record disc {
        features = found_features dev (blk.dldi_features w) disc.features;
        num_sectors = blk.sector_count dev w;
      }

  -- `_dvmGetCalicoDisc`: whether there is a disc.
  unfoldable pub get_calico_disc : BlkDevice → ℕ → ℕ → World → World × Bool
  get_calico_disc dev cache_pages sectors_per_page w =
      let i = blk.dev_init dev w in
      let p = if i.1 then blk.is_present dev i.0 else i in
      let found = (place dev).set_disc (found_disc dev p.0) p.0 in
      if p.1
      then ((place dev).disc_cache_create cache_pages sectors_per_page found, true)
      else (p.0, false)

module _ {World Device D : Type 0} (os : Platform World Device) (blk : BlkDevices World)
    (place : BlkDevice → DiscPlace World D) where
  -- `_dvmGetAndMountCalicoDisc`: the number of volumes that were mounted.
  unfoldable pub get_and_mount :
      DvmDiscIface D → Buf → DrvTable → BlkDevice → ℕ → ℕ → World → World × ℕ
  get_and_mount vt buf table dev cache_pages sectors_per_page w =
      let d = get_calico_disc blk place dev cache_pages sectors_per_page w in
      let r = probe_mount_disc os (place dev) vt buf table (basename_of dev) d.0 in
      if d.1 then (if r.1 == 0 then ((place dev).disc_destroy r.0, 0) else r) else (d.0, 0)

-- What `dvmInit` reads of the environment: the mode of the DSi, `g_dvmCalicoNandMount`, the first
-- argument, none for NULL, and `PATH_MAX`.
pub record Settings : Type 0 where
  pub is_twl_mode : Bool
  pub nand_mount : ℕ
  pub argv0 : Option Str
  pub path_max : ℕ

-- The change of the working directory, where it is needed.
abbrev pub set_cwdir : {World : Type 0} → (Str → World → World) → Settings → Bool → World → World
set_cwdir chdir settings needed w =
    if needed then set_dir_of chdir settings.path_max settings.argv0 w else w

module _ {World Device D : Type 0} (os : Platform World Device) (blk : BlkDevices World)
    (place : BlkDevice → DiscPlace World D) (vt : DvmDiscIface D) (buf : Buf) (table : DrvTable)
    (can_write : ℕ) (settings : Settings) where
  -- The write access to the NAND, if it is requested.
  abbrev pub allow_nand_write : World → World
  allow_nand_write w =
      let nand = (place twl_nand_aes).get_disc w in
      if leb 2 settings.nand_mount
      then (place twl_nand_aes).set_disc
          (record nand { features = bit_or nand.features can_write % 2 ^ 16 }) w
      else w

  -- The mounts of the SD card and of the NAND, on a DSi.
  abbrev pub mount_nand : ℕ → ℕ → World → World × ℕ
  mount_nand cache_pages sectors_per_page w =
      let r =
        get_and_mount os blk place vt buf table twl_nand_aes cache_pages sectors_per_page
          (allow_nand_write w) in
      if settings.nand_mount == 0 then (w, 0) else r

  abbrev pub mount_twl : ℕ → ℕ → World → World × ℕ
  mount_twl cache_pages sectors_per_page w =
      let s = get_and_mount os blk place vt buf table twl_sd_card cache_pages sectors_per_page w in
      let n = mount_nand cache_pages sectors_per_page s.0 in
      if settings.is_twl_mode then (n.0, s.1 + n.1) else (w, 0)

  -- `dvmInit`
  unfoldable pub calico_init : Bool → ℕ → ℕ → World → World × Bool
  calico_init set_app_cwdir cache_pages sectors_per_page w =
      let f =
        get_and_mount os blk place vt buf table dldi cache_pages sectors_per_page
          (blk.blk_init w) in
      let t = mount_twl cache_pages sectors_per_page f.0 in
      let some_mounted = not (f.1 + t.1 == 0) in
      (set_cwdir os.chdir settings (set_app_cwdir && some_mounted) t.0, some_mounted)
