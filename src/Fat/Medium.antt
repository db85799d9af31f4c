-- ===== src/Fat/Medium.antt =====
-- The medium of a volume in `source/fat_driver.c`: what FatFs calls to reach the disc.
use Prim.Native.Nat.{bit_and}
use libdvm.Base.{
  ℕ, ◌+◌, ◌-◌, ◌%◌, ◌^◌, Bool, true, false, not, Option, none, some, ◌==◌, if◌then◌else◌,
}
use libdvm.Disc.{DvmDiscIface}
use libdvm.Disc.Memory.{Buf}
use libdvm.Disc.Object.{DvmDisc}

-- `FatVolume`, without its lock, its disc and its `FATFS`, which stand beside it.
pub record FatVolume : Type 0 where
  pub start_sector : ℕ
  pub num_sectors : ℕ

-- `DSTATUS`, with its two bits.
pub record DStatus : Type 0 where
  pub sta_noinit : Bool
  pub sta_protect : Bool

pub data DResult : Type 0 where
  res_ok res_error res_parerr : DResult

-- The commands of `disk_ioctl`.
pub data IoCommand : Type 0 where
  ctrl_sync get_sector_count get_sector_size get_block_size other_command : IoCommand

abbrev pub has_feature : ℕ → ℕ → Bool
has_feature features mask = not (bit_and features mask == 0)

abbrev pub to_dresult : Bool → DResult
to_dresult ok = if ok then res_ok else res_error

-- The sector of the disc, of 32 bits.
abbrev pub disc_sector : FatVolume → ℕ → ℕ
disc_sector vol sector = (vol.start_sector + sector % 2 ^ 32) % 2 ^ 32

module _ {State : Type 0} where
  -- `disk_status`, where `none` is a volume without a disc. `can_write` is the bit
  -- `FEATURE_MEDIUM_CANWRITE` of the platform.
  abbrev pub disk_status : ℕ → Option (DvmDisc State) → DStatus
  disk_status can_write none = record { sta_noinit = true; sta_protect = false }
  disk_status can_write (some disc) = record {
    sta_noinit = false;
    sta_protect = not (has_feature disc.features can_write);
  }

  -- `disk_initialize`
  abbrev pub disk_initialize : ℕ → Option (DvmDisc State) → DStatus
  disk_initialize = disk_status

  -- `disk_read`: the disc and the buffer behind the call, and the answer.
  abbrev pub disk_read :
      DvmDiscIface (DvmDisc State)
      → FatVolume
      → DvmDisc State
      → Buf
      → ℕ
      → ℕ
      → Bool
      → DvmDisc State × Buf × DResult
  disk_read vt vol disc buff sector count opt =
      let r = vt.read_sectors disc buff (disc_sector vol sector) count opt in
      (r.state, r.buf, to_dresult r.ok)

  -- `disk_write`
  abbrev pub disk_write :
      DvmDiscIface (DvmDisc State)
      → FatVolume
      → DvmDisc State
      → Buf
      → ℕ
      → ℕ
      → Bool
      → DvmDisc State × DResult
  disk_write vt vol disc buff sector count opt =
      let r = vt.write_sectors disc buff (disc_sector vol sector) count opt in
      (r.state, to_dresult r.ok)

  -- `disk_ioctl`: the disc behind the call, what is put into `buff` if anything is, and the answer.
  abbrev pub disk_ioctl :
      DvmDiscIface (DvmDisc State)
      → FatVolume
      → DvmDisc State
      → IoCommand
      → DvmDisc State × Option ℕ × DResult
  disk_ioctl vt vol disc ctrl_sync = let r = vt.flush disc in (r.state, none, to_dresult r.ok)
  disk_ioctl vt vol disc get_sector_count =
      (disc, some vol.num_sectors, to_dresult (not (vol.num_sectors == 2 ^ 32 - 1)))
  disk_ioctl vt vol disc get_sector_size = (disc, some disc.sector_sz, res_ok)
  disk_ioctl vt vol disc get_block_size = (disc, some disc.block_sz, res_ok)
  disk_ioctl vt vol disc other_command = (disc, none, res_parerr)
