-- ===== src/Cache/Pages.antt =====
-- The pages of a coherent cache overlap neither on the disc nor in the buffer of the cache.
use native.Mathlib.Nat.{mul-mod_left, eq_of_mul-eq-mul_right}
use libdvm.Base.{ℕ, ◌+◌, ◌*◌, ◌<◌, ◌≡◌, ◌≢◌, arith, Bool}
use libdvm.Base.Paging.{page_start, Aligned-gap, page_start_unique}
use libdvm.Disc.Memory.{Sector}
use libdvm.Cache.Types.{DvmDiscCache, page_sz}
use libdvm.Cache.Order.{IsUsed}
use libdvm.Cache.Invariant.{IsCoherentBut}

pub slot_apart : (n q r o k : ℕ) → q ≢ r → o < n → k < n → q * n + o ≢ r * n + k
slot_apart n q r o k ne lo lk = ground (
  arith,
  eq_of_mul-eq-mul_right n (omega arith) q r,
  Aligned-gap n (q * n) (r * n) (omega arith) (mul-mod_left q n) (mul-mod_left r n),
  Aligned-gap n (r * n) (q * n) (omega arith) (mul-mod_left r n) (mul-mod_left q n),
)

module _ {D : Type 0} {content : D → ℕ → Sector} {IsOk : D → Type 0} {size : ℕ}
    {stale : ℕ → ℕ → Bool} {c : DvmDiscCache D} (i : IsCoherentBut content IsOk size stale c) where
  pub disc_apart :
      (q r o k : ℕ)
      → q < c.pages
      → r < c.pages
      → IsUsed c.entries q
      → IsUsed c.entries r
      → q ≢ r
      → o < page_sz c
      → k < page_sz c
      → (c.entries q).base_sector + o ≢ (c.entries r).base_sector + k
  disc_apart q r o k lq lr uq ur ne lo lk = ground (
    arith,
    i.unique q r lq lr uq,
    Aligned-gap (page_sz c) (c.entries q).base_sector (c.entries r).base_sector i.pos
        (i.entry_ok q lq uq).aligned (i.entry_ok r lr ur).aligned,
    Aligned-gap (page_sz c) (c.entries r).base_sector (c.entries q).base_sector i.pos
        (i.entry_ok r lr ur).aligned (i.entry_ok q lq uq).aligned,
  )

  pub IsUsed-of_page :
      (q a : ℕ)
      → a < size
      → (c.entries q).base_sector ≡ page_start (page_sz c) a
      → IsUsed c.entries q
  IsUsed-of_page q a la e = ground (arith, i.small)

  pub page_of :
      (q o : ℕ)
      → q < c.pages
      → IsUsed c.entries q
      → o < page_sz c
      → page_start (page_sz c) ((c.entries q).base_sector + o) ≡ (c.entries q).base_sector
  page_of q o lq uq lo =
      page_start_unique (page_sz c) (c.entries q).base_sector ((c.entries q).base_sector + o) i.pos
        (i.entry_ok q lq uq).aligned (omega arith) (omega arith)
