-- ===== src/Cache/Types.antt =====
-- The state of a cache, `source/dvm_cache.c:31-57`.
use libdvm.Base.{ℕ, ◌-◌, ◌*◌, ◌^◌, List, ◌==◌, if◌then◌else◌}
use libdvm.Disc.Memory.{Buf}

-- `sec_t` is a 32-bit word.
abbrev pub sec_mod : ℕ
sec_mod = 2 ^ 32

-- `LIBDVM_EMPTY_PAGE`, all ones.
abbrev pub empty_page : ℕ
empty_page = sec_mod - 1

-- `uint16_t`, the type of the bounds of a dirty range.
abbrev pub u16_mod : ℕ
u16_mod = 2 ^ 16

-- `DvmDiscCacheEntry` without its links.
pub record DvmDiscCacheEntry : Type 0 where
  pub base_sector : ℕ
  pub dirty_start : ℕ
  pub dirty_end : ℕ

abbrev pub Entries : Type 0
Entries = ℕ → DvmDiscCacheEntry

-- `DvmDiscCache`. A pointer to an entry is its index in `entries`. `order` is the linked list from
-- `list.next` to `list.prev`, the most recently used entry first. `pages` is the number of entries
-- that were allocated.
pub record DvmDiscCache (D : Type 0) : Type 0 where
  pub inner : D
  pub num_sectors : ℕ
  pub pages : ℕ
  pub page_shift : ℕ
  pub page_data : Buf
  pub entries : Entries
  pub order : List ℕ

-- `p->… = …`
abbrev pub set_entry : Entries → ℕ → DvmDiscCacheEntry → Entries
set_entry es p e q = if q == p then e else es q

module _ {D : Type 0} where
  -- `1U << self->page_shift`
  abbrev pub page_sz : DvmDiscCache D → ℕ
  page_sz self = 2 ^ self.page_shift

  -- `_dvmDiscCacheEntryGetData`, in sectors from the start of the buffer `self->data`, the field `page_data`.
  abbrev pub entry_get_data : DvmDiscCache D → ℕ → ℕ
  entry_get_data self p = p * page_sz self
