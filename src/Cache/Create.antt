-- ===== src/Cache/Create.antt =====
-- `dvmDiscCacheCreate`, and the operations of the disc that it makes.
use mathlib.Core.Option
use Prim.Native.Nat.{bit_and}
use libdvm.Base.{
  ℕ, zero, suc, ◌+◌, ◌-◌, ◌*◌, ◌/◌, ◌%◌, ◌^◌, Bool, true, false, not, Option, none, some, List, [],
  ◌∷◌, ◌||◌, ◌==◌, ltb, if◌then◌else◌,
}
use libdvm.Disc.{DvmDiscIface, ReadReply}
use libdvm.Disc.Object.{DvmDisc, add_user, remove_user, disc_vt}
use libdvm.Disc.Memory.{Buf}
use libdvm.Cache.Types.{DvmDiscCache, empty_page, sec_mod, u16_mod}
use libdvm.Cache.Flush.{cache_flush}
use libdvm.Cache.ReadWrite.{read_write}

-- The loop that calculates `page_shift`, from `page_shift` on. There is no shift of 32 bits or more.
unfoldable pub page_shift_from : ℕ → ℕ → ℕ → Option ℕ
page_shift_from zero page_shift sectors_per_page = none
page_shift_from (suc fuel) page_shift sectors_per_page =
    let rest = page_shift_from fuel (page_shift + 1) sectors_per_page in
    if 2 ^ page_shift == sectors_per_page then some page_shift else rest

-- The list that the loop over the entries links: `n` entries up to the last one.
unfoldable pub entries_from : ℕ → ℕ → List ℕ
entries_from zero i = []
entries_from (suc n) i = i ∷ entries_from n (i + 1)

-- The parameter validation.
abbrev pub is_refused : ℕ → ℕ → Bool
is_refused cache_pages n = cache_pages == 0 || n == 0 || not (bit_and n (n - 1) == 0)

module _ {D : Type 0} where
  -- The size of a page, from the size that is asked for in units of 512 bytes.
  abbrev pub page_size : DvmDisc D → ℕ → ℕ
  page_size inner_disc sectors_per_page =
      let n = sectors_per_page * 512 % sec_mod / inner_disc.sector_sz in
      if ltb n inner_disc.block_sz then inner_disc.block_sz else n

  -- The new disc, with pages of `n` sectors. `page_data` is what its buffer holds at first.
  abbrev pub created : DvmDisc D → ℕ → ℕ → Buf → ℕ → DvmDisc (DvmDiscCache (DvmDisc D))
  created inner_disc cache_pages n page_data page_shift = record {
    self = record {
      inner = add_user inner_disc;
      num_sectors = inner_disc.num_sectors;
      pages = cache_pages;
      page_shift = page_shift;
      page_data = page_data;
      entries = λ q. record { base_sector = empty_page; dirty_start = n % u16_mod; dirty_end = 0 };
      order = entries_from cache_pages 0;
    };
    io_type = inner_disc.io_type;
    features = inner_disc.features;
    num_users = 0;
    num_sectors = inner_disc.num_sectors;
    sector_sz = inner_disc.sector_sz;
    block_sz = n % u16_mod;
  }

  -- `dvmDiscCacheCreate`, where `malloc` and `aligned_alloc` succeed. `some none` means that it
  -- returns `inner_disc`, and `none` that the loop does not find a shift.
  unfoldable pub cache_create :
      DvmDisc D → ℕ → ℕ → Buf → Option (Option (DvmDisc (DvmDiscCache (DvmDisc D))))
  unfolding page_shift_from
  cache_create inner_disc cache_pages sectors_per_page page_data =
      let n = page_size inner_disc sectors_per_page in
      if is_refused cache_pages n
      then some none
      else Option.map (λ s. some (created inner_disc cache_pages n page_data s))
          (page_shift_from 32 0 n)

module _ {D : Type 0} (vt : DvmDiscIface D) where
  -- `_dvmDiscCacheReadSectors` and `_dvmDiscCacheWriteSectors`. `is_aligned` is whether the address
  -- of the buffer is a multiple of `LIBDVM_BUFFER_ALIGN`.
  abbrev pub cache_read :
      Bool → DvmDiscCache D → Buf → ℕ → ℕ → Bool → Option (ReadReply (DvmDiscCache D))
  cache_read is_aligned self buffer first_sector num_sectors is_partial =
      read_write vt self buffer first_sector num_sectors
        (record { is_write = false; is_aligned = is_aligned; is_partial = is_partial })

  abbrev pub cache_write :
      Bool → DvmDiscCache D → Buf → ℕ → ℕ → Bool → Option (ReadReply (DvmDiscCache D))
  cache_write is_aligned self buffer first_sector num_sectors is_partial =
      read_write vt self buffer first_sector num_sectors
        (record { is_write = true; is_aligned = is_aligned; is_partial = is_partial })

-- `_dvmDiscCacheDestroy`: what it leaves of the inner disc, and whether that was destroyed.
unfoldable pub cache_destroy :
    {D : Type 0} → DvmDiscIface D → DvmDiscCache (DvmDisc D) → DvmDisc D × Bool
unfolding cache_flush
cache_destroy vt self = remove_user vt (cache_flush (disc_vt vt) self).state.inner
