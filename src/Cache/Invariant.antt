-- ===== src/Cache/Invariant.antt =====
-- What the state of a cache in front of a disc of `size` sectors satisfies between two steps.
use libdvm.Base.{ℕ, ◌+◌, ◌≤◌, ◌<◌, ◌≡◌, ◌⊎◌, Bool, false}
use libdvm.Base.Paging.{Aligned}
use libdvm.Disc.Memory.{Sector}
use libdvm.Cache.Types.{
  DvmDiscCache, DvmDiscCacheEntry, page_sz, entry_get_data, empty_page, u16_mod,
}
use libdvm.Cache.Order.{IsUsed, IsOrdered}

-- A used entry holds a page of the disc, and its dirty range lies within the page and the disc. An
-- entry that is clean has `dirty_end == 0`.
pub record EntryOk (size n : ℕ) (e : DvmDiscCacheEntry) : Type 0 where
  pub in_disc : e.base_sector < size
  pub aligned : Aligned n e.base_sector
  pub in_page : e.dirty_end ≤ n
  pub in_end : e.base_sector + e.dirty_end ≤ size
  pub tidy : e.dirty_end ≤ e.dirty_start → e.dirty_end ≡ 0

module _ {D : Type 0} (content : D → ℕ → Sector) (IsOk : D → Type 0) (size : ℕ) where
  -- The sectors that are `stale q o` may differ from the inner disc although they are not dirty.
  pub record IsCoherentBut (stale : ℕ → ℕ → Bool) (c : DvmDiscCache D) : Type 0 where
    pub sized : c.num_sectors ≡ size
    pub small : size ≤ empty_page
    pub pos : 0 < page_sz c
    pub narrow : page_sz c < u16_mod
    pub some_page : 0 < c.pages
    pub ordered : IsOrdered c.entries c.pages c.order
    pub entry_ok :
        (q : ℕ) → q < c.pages → IsUsed c.entries q → EntryOk size (page_sz c) (c.entries q)
    pub empty_clean :
        (q : ℕ) → q < c.pages → (c.entries q).base_sector ≡ empty_page → (c.entries q).dirty_end ≡ 0
    pub unique :
        (q r : ℕ)
        → q < c.pages
        → r < c.pages
        → IsUsed c.entries q
        → (c.entries q).base_sector ≡ (c.entries r).base_sector
        → q ≡ r
    pub clean :
        (q o : ℕ)
        → q < c.pages
        → IsUsed c.entries q
        → o < page_sz c
        → (c.entries q).base_sector + o < size
        → (o < (c.entries q).dirty_start) ⊎ ((c.entries q).dirty_end ≤ o)
        → stale q o ≡ false
        → c.page_data (entry_get_data c q + o) ≡ content c.inner ((c.entries q).base_sector + o)
    pub inner_ok : IsOk c.inner

  -- The sectors of a cached page that are not dirty are those of the inner disc.
  abbrev pub IsCoherent : DvmDiscCache D → Type 0
  IsCoherent = IsCoherentBut (λ q o. false)
