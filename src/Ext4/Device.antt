-- ===== src/Ext4/Device.antt =====
-- The block device of `source/ext4_driver.c`: what lwext4 calls to reach the disc.
use native.Mathlib.Nat.{mod-eq_of_lt, mul-le-mul, mul-div_cancel, add-mul}
use libdvm.Base.{
  ℕ, ◌+◌, ◌*◌, ◌/◌, ◌%◌, ◌^◌, ◌<◌, ◌≡◌, ap, ◌∙◌, Bool, false, Option, none, some, ◌==◌,
  if◌then◌else◌, arith,
}
use libdvm.Disc.{DvmDiscIface}
use libdvm.Disc.Memory.{Buf}
use libdvm.Disc.Object.{DvmDisc}
use libdvm.Prober.Table.{DvmPartInfo}
use libdvm.Ext4.Result.{ExtErrno}

-- The fields of `ext4_blockdev` and of its interface. `ph_bbuf` is the address of a buffer.
pub record BlockDev : Type 0 where
  pub ph_bsize : ℕ
  pub ph_bcnt : ℕ
  pub ph_bbuf : Option ℕ
  pub part_offset : ℕ
  pub part_size : ℕ

-- The block device of a partition, as `_ext4_mount` sets it up, in words of 64 bits.
abbrev pub block_dev : {State : Type 0} → DvmDisc State → DvmPartInfo → BlockDev
block_dev disc part = record {
  ph_bsize = disc.sector_sz;
  ph_bcnt = disc.num_sectors;
  ph_bbuf = none;
  part_offset = part.start_sector * disc.sector_sz % 2 ^ 64;
  part_size = part.num_sectors * disc.sector_sz % 2 ^ 64;
}

-- `bdif->ph_bbuf == buf`, of a buffer at an address.
abbrev pub is_bbuf : BlockDev → ℕ → Bool
is_bbuf bdev address = elim bdev.ph_bbuf [ none ↦ false | some a ↦ a == address ]

module _ (errno : ExtErrno) where
  abbrev pub to_errno : Bool → ℕ
  to_errno ok = if ok then 0 else errno.eio

  -- `_ext4_dev_open`, from what `aligned_alloc` gives.
  abbrev pub dev_open : BlockDev → Option ℕ → BlockDev × ℕ
  dev_open bdev none = (bdev, errno.enomem)
  dev_open bdev (some buf) = (record bdev { ph_bbuf = some buf }, 0)

-- `_ext4_dev_close`, which frees the buffer.
abbrev pub dev_close : BlockDev → BlockDev × ℕ
dev_close bdev = (bdev, 0)

module _ {State : Type 0} (errno : ExtErrno) where
  -- `_ext4_dev_bread`: the sector of the disc has 32 bits. `address` is that of the buffer.
  abbrev pub dev_bread :
      DvmDiscIface (DvmDisc State)
      → BlockDev
      → ℕ
      → DvmDisc State
      → Buf
      → ℕ
      → ℕ
      → DvmDisc State × Buf × ℕ
  dev_bread vt bdev address disc buf blk_id blk_cnt =
      let r = vt.read_sectors disc buf (blk_id % 2 ^ 32) blk_cnt (is_bbuf bdev address) in
      (r.state, r.buf, to_errno errno r.ok)

  -- `_ext4_dev_bwrite`
  abbrev pub dev_bwrite :
      DvmDiscIface (DvmDisc State) → BlockDev → ℕ → DvmDisc State → Buf → ℕ → ℕ → DvmDisc State × ℕ
  dev_bwrite vt bdev address disc buf blk_id blk_cnt =
      let r = vt.write_sectors disc buf (blk_id % 2 ^ 32) blk_cnt (is_bbuf bdev address) in
      (r.state, to_errno errno r.ok)

  -- `_ext4_dev_flush`
  abbrev pub dev_flush : DvmDiscIface (DvmDisc State) → DvmDisc State → DvmDisc State × ℕ
  dev_flush vt disc = let r = vt.flush disc in (r.state, to_errno errno r.ok)

-- The block device that a mount sets up covers the partition in blocks of the size of a sector, and
-- nothing wraps around: for sectors of the disc with a size, which has 16 bits, and a partition whose
-- bounds have 32.
pub block_dev-covers :
    {State : Type 0} (disc : DvmDisc State) (part : DvmPartInfo)
    → 0 < disc.sector_sz
    → disc.sector_sz < 2 ^ 16
    → part.start_sector < 2 ^ 32
    → part.num_sectors < 2 ^ 32
    → let b = block_dev disc part in
      (b.part_offset / b.ph_bsize ≡ part.start_sector)
      × (b.part_size / b.ph_bsize ≡ part.num_sectors)
      × (b.part_offset + b.part_size ≡ (part.start_sector + part.num_sectors) * b.ph_bsize)
block_dev-covers disc part pos narrow start num =
    let no_wrap = λ (x : ℕ) (lt : x < 2 ^ 32). mod-eq_of_lt {n = x * disc.sector_sz} {m = 2 ^ 64} (
      omega (
        arith,
        mul-le-mul {n₁ = x} {m₁ = disc.sector_sz} {n₂ = 2 ^ 32} {m₂ = 2 ^ 16} (omega arith)
            (omega arith),
      )) in
    (
      ap (λ k. k / disc.sector_sz) (no_wrap part.start_sector start)
          ∙ mul-div_cancel part.start_sector pos,
      ap (λ k. k / disc.sector_sz) (no_wrap part.num_sectors num)
          ∙ mul-div_cancel part.num_sectors pos,
      omega (
        arith,
        no_wrap part.start_sector start,
        no_wrap part.num_sectors num,
        add-mul part.start_sector part.num_sectors disc.sector_sz,
      ),
    )
