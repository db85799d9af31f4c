-- ===== src/Cache/Gap.antt =====
-- The sectors that no cached page holds, and changes of the inner disc there, in
-- `_dvmDiscCacheReadWrite`.
use native.Mathlib.Nat.{mod-lt, mod-le}
use libdvm.Base.{ℕ, ◌+◌, ◌≤◌, ◌<◌, ◌≡◌, sym, ◌∙◌, ◌≢◌, inl, inr, arith}
use libdvm.Base.Paging.{Aligned, page_start, page_start-Aligned, Aligned-gap}
use libdvm.Disc.Memory.{Sector}
use libdvm.Cache.Types.{DvmDiscCache, Entries, page_sz}
use libdvm.Cache.Order.{IsUsed}
use libdvm.Cache.Invariant.{IsCoherent}
use libdvm.Cache.Pages.{page_of}
use libdvm.Cache.View.{view, holder-cases, view-cached, view-uncached}

-- No entry holds a page from `lo` on that begins before `hi`.
abbrev pub NoneIn : Entries → ℕ → ℕ → ℕ → Type 0
NoneIn es pages lo hi =
    (q : ℕ) → q < pages → IsUsed es q → lo ≤ (es q).base_sector → hi ≤ (es q).base_sector

module _ {D : Type 0} {content : D → ℕ → Sector} {IsOk : D → Type 0} {size : ℕ} {c : DvmDiscCache D}
    (i : IsCoherent content IsOk size c) (lo hi : ℕ) (aligned : Aligned (page_sz c) lo)
    (none_in : NoneIn c.entries c.pages lo hi) where
  -- A sector between `lo` and `hi` is in no cached page.
  pub gap-free :
      (a q : ℕ)
      → a < size
      → lo ≤ a
      → a < hi
      → q < c.pages
      → (c.entries q).base_sector ≢ page_start (page_sz c) a
  gap-free a q la ge lt lq e = ground (
    arith,
    none_in q lq,
    i.small,
    Aligned-gap (page_sz c) (page_start (page_sz c) a) lo i.pos
        (page_start-Aligned (page_sz c) a i.pos) aligned,
    mod-lt a i.pos,
    mod-le a (page_sz c),
  )

module _ {D : Type 0} {content : D → ℕ → Sector} {IsOk : D → Type 0} {size : ℕ} {c : DvmDiscCache D}
    (i : IsCoherent content IsOk size c) (d : D) (ok_d : IsOk d)
    (spared : (a q : ℕ)
      → a < size
      → q < c.pages
      → (c.entries q).base_sector ≡ page_start (page_sz c) a
      → content d a ≡ content c.inner a) where
  -- A change of the inner disc off the cached pages.
  pub inner-Coherent : IsCoherent content IsOk size (record c { inner = d })
  inner-Coherent = record {
    sized = i.sized;
    small = i.small;
    pos = i.pos;
    narrow = i.narrow;
    some_page = i.some_page;
    ordered = i.ordered;
    entry_ok = i.entry_ok;
    empty_clean = i.empty_clean;
    unique = i.unique;
    clean = λ q o lq uq lo inside out fresh.
        i.clean q o lq uq lo inside out fresh
        ∙ sym (spared ((c.entries q).base_sector + o) q inside lq (sym (page_of i q o lq uq lo)));
    inner_ok = ok_d;
  }

  pub inner-view :
      (a : ℕ)
      → a < size
      → content d a ≡ content c.inner a
      → view content (record c { inner = d }) a ≡ view content c a
  inner-view a la same = elim (holder-cases c.pages c.entries (page_start (page_sz c) a)) [
    | inl (q, lq, at) ↦
        view-cached content (record c { inner = d }) a q inner-Coherent lq la at
        ∙ sym (view-cached content c a q i lq la at)
    | inr free ↦
        view-uncached content (record c { inner = d }) a free
        ∙ same
        ∙ sym (view-uncached content c a free)
  ]
