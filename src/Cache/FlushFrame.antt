-- ===== src/Cache/FlushFrame.antt =====
-- The changes that `_dvmDiscCacheEntryFlush` makes to a coherent cache: to the inner disc and to a
-- dirty range.
use libdvm.Base.{
  ℕ, ◌+◌, ◌-◌, ◌*◌, ◌%◌, ◌^◌, ◌≤◌, ◌<◌, ◌≡◌, sym, ◌∙◌, ◌≢◌, ◌⊎◌, inl, inr, Bool, arith, ℕ_discrete,
}
use libdvm.Base.Paging.{page_start, page_start_unique}
use libdvm.Disc.Memory.{Sector}
use libdvm.Cache.Types.{DvmDiscCache, set_entry, page_sz, entry_get_data}
use libdvm.Cache.Order.{IsUsed}
use libdvm.Cache.Victim.{same-IsOrdered}
use libdvm.Cache.Invariant.{IsCoherentBut}
use libdvm.Cache.Pages.{disc_apart}
use libdvm.Cache.View.{view, holder-cases, view-cached, view-uncached}

-- `c'` differs from `c` in the dirty ranges and in the inner disc.
pub record SameFrame {D : Type 0} (c c' : DvmDiscCache D) : Type 0 where
  pub num_sectors : c'.num_sectors ≡ c.num_sectors
  pub pages : c'.pages ≡ c.pages
  pub page_shift : c'.page_shift ≡ c.page_shift
  pub page_data : c'.page_data ≡ c.page_data
  pub order : c'.order ≡ c.order
  pub bases : (q : ℕ) → (c'.entries q).base_sector ≡ (c.entries q).base_sector

module _ {D : Type 0} {content : D → ℕ → Sector} {IsOk : D → Type 0} {size : ℕ}
    {stale : ℕ → ℕ → Bool} {c : DvmDiscCache D} (i : IsCoherentBut content IsOk size stale c) where
  -- After a write of the dirty range of `p` that left the inner disc as `d`.
  module _ (p : ℕ) (lp : p < c.pages) (up : IsUsed c.entries p) (d : D) (ok_d : IsOk d)
      (frame : (a : ℕ)
        → a < size
        → (a < (c.entries p).base_sector + (c.entries p).dirty_start)
          ⊎ ((c.entries p).base_sector + (c.entries p).dirty_end ≤ a)
        → content d a ≡ content c.inner a) where
    spared :
        (q o : ℕ)
        → q < c.pages
        → IsUsed c.entries q
        → o < page_sz c
        → (c.entries q).base_sector + o < size
        → (q ≡ p → (o < (c.entries p).dirty_start) ⊎ ((c.entries p).dirty_end ≤ o))
        → content d ((c.entries q).base_sector + o)
          ≡ content c.inner ((c.entries q).base_sector + o)
    spared q o lq uq lo inside out =
        frame ((c.entries q).base_sector + o) inside (elim (ℕ_discrete q p) [
          | yes e ↦ ground (arith, out e)
          | no ne ↦ ground (
            arith,
            (i.entry_ok p lp up).in_page,
            disc_apart i q p o ((c.entries q).base_sector + o - (c.entries p).base_sector) lq lp uq
                up ne lo,
          )
        ])

    pub written-Coherent : IsCoherentBut content IsOk size stale (record c { inner = d })
    written-Coherent = record {
      sized = i.sized;
      small = i.small;
      pos = i.pos;
      narrow = i.narrow;
      some_page = i.some_page;
      ordered = i.ordered;
      entry_ok = i.entry_ok;
      empty_clean = i.empty_clean;
      unique = i.unique;
      clean = λ q o lq uq lo inside out fresh.
          i.clean q o lq uq lo inside out fresh
          ∙ sym (spared q o lq uq lo inside (λ e. ground arith));
      inner_ok = ok_d;
    }

    -- A sector that no entry holds.
    pub uncached_spared :
        (a : ℕ)
        → a < size
        → ((q : ℕ) → q < c.pages → (c.entries q).base_sector ≢ page_start (page_sz c) a)
        → content d a ≡ content c.inner a
    uncached_spared a la none_holds =
        let e = c.entries p in
        frame a la (
          ground (
            arith,
            none_holds p lp,
            (i.entry_ok p lp up).in_page,
            page_start_unique (page_sz c) e.base_sector a i.pos (i.entry_ok p lp up).aligned,
          ))

    -- With the dirty range marked as clean, if the write put it on the disc.
    module _
        (puts : (o : ℕ)
          → (c.entries p).dirty_start ≤ o
          → o < (c.entries p).dirty_end
          → content d ((c.entries p).base_sector + o) ≡ c.page_data (entry_get_data c p + o))
        (start : ℕ) where
      abbrev pub cleaned : DvmDiscCache D
      cleaned = record c {
        inner = d;
        entries =
            set_entry c.entries p (record (c.entries p) { dirty_start = start; dirty_end = 0 });
      }

      cleaned-base : (q : ℕ) → (cleaned.entries q).base_sector ≡ (c.entries q).base_sector
      cleaned-base q = ground arith

      pub cleaned-Coherent : IsCoherentBut content IsOk size stale cleaned
      cleaned-Coherent = record {
        sized = i.sized;
        small = i.small;
        pos = i.pos;
        narrow = i.narrow;
        some_page = i.some_page;
        ordered = same-IsOrdered i.ordered cleaned.entries cleaned-base;
        entry_ok = λ q lq uq. ground (arith, i.entry_ok q lq);
        empty_clean = λ q lq e. ground (arith, i.empty_clean q lq);
        unique = λ q r lq lr uq e. ground (arith, i.unique q r lq lr);
        clean =
            λ q o lq uq lo inside out fresh. ground (arith, i.clean q o lq, spared q o lq, puts o);
        inner_ok = ok_d;
      }

module _ {D : Type 0} {content : D → ℕ → Sector} {IsOk : D → Type 0} {size : ℕ}
    {stale : ℕ → ℕ → Bool} {c c' : DvmDiscCache D} where
  -- The view of two caches with the same pages, where the inner discs agree off those pages.
  pub view_same :
      IsCoherentBut content IsOk size stale c
      → IsCoherentBut content IsOk size stale c'
      → SameFrame c c'
      → (a : ℕ) → a < size
      → (((q : ℕ) → q < c.pages → (c.entries q).base_sector ≢ page_start (page_sz c) a)
          → content c'.inner a ≡ content c.inner a)
      → view content c' a ≡ view content c a
  view_same i i' s a la off = elim (holder-cases c.pages c.entries (page_start (page_sz c) a)) [
    | inl (q, lq, at) ↦
        let at' : (c'.entries q).base_sector ≡ page_start (page_sz c') a =
          ground (arith, s.page_shift, s.bases q) in
        view-cached content c' a q i' (ground (arith, s.pages)) la at'
        ∙ (λ j. (s.page_data j) (q * 2 ^ s.page_shift j + a % 2 ^ s.page_shift j))
        ∙ sym (view-cached content c a q i lq la at)
    | inr free ↦
        view-uncached content c' a
          (λ q lq. ground (arith, s.bases q, s.pages, s.page_shift, free q))
        ∙ off free
        ∙ sym (view-uncached content c a free)
  ]
