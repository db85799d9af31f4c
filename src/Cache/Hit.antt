-- ===== src/Cache/Hit.antt =====
-- What the access to a cached page does to a coherent cache: `_cacheHit` in
-- `_dvmDiscCacheReadWrite`.
use libdvm.Base.{
  ℕ, ◌+◌, ◌-◌, ◌%◌, ◌≤◌, ◌<◌, ◌≡◌, sym, ◌∙◌, ap, inl, inr, Bool, true, false, not, arith, ◌==◌,
  ◌&&◌, if◌then◌else◌, Bool-cases,
}
use native.Mathlib.Nat.{mod-lt, mod-le}
use libdvm.Base.Paging.{page_start, page_start_unique}
use libdvm.Disc.Memory.{Sector, Buf, in_range}
use libdvm.Cache.Types.{DvmDiscCache, page_sz, entry_get_data}
use libdvm.Cache.Order.{IsUsed}
use libdvm.Cache.Victim.{same-IsOrdered, front-IsOrdered}
use libdvm.Cache.Invariant.{IsCoherentBut, IsCoherent, EntryOk}
use libdvm.Cache.Pages.{slot_apart, IsUsed-of_page}
use libdvm.Cache.View.{view, holder-cases, view-cached, view-uncached}
use libdvm.Cache.Access.{hit_write, hit_read, make_mru, is_first}

-- The sectors of `p` from `off` on, `n` of them.
abbrev pub part : ℕ → ℕ → ℕ → ℕ → ℕ → Bool
part p off n q o = (q == p) && in_range off n o

module _ {D : Type 0} {content : D → ℕ → Sector} {IsOk : D → Type 0} {size : ℕ} {c : DvmDiscCache D}
    (p off n : ℕ) (b : Buf) (pos : ℕ) (i : IsCoherentBut content IsOk size (part p off n) c)
    (lp : p < c.pages) (up : IsUsed c.entries p) (some_n : 0 < n) (in_page : off + n ≤ page_sz c)
    (in_end : (c.entries p).base_sector + off + n ≤ size) where
  hit-entry :
      EntryOk size (page_sz c) ((hit_write c b pos p off n).entries p)
      × (((hit_write c b pos p off n).entries p).dirty_start
          < ((hit_write c b pos p off n).entries p).dirty_end)
  unfolding hit_write
  hit-entry = ground (arith, i.entry_ok p lp up, i.narrow)

  pub hit-base :
      (q : ℕ) → ((hit_write c b pos p off n).entries q).base_sector ≡ (c.entries q).base_sector
  unfolding hit_write
  hit-base q = ground arith

  hit-outside :
      (q o : ℕ)
      → o < page_sz c
      → part p off n q o ≡ false
      → (hit_write c b pos p off n).page_data (entry_get_data c q + o)
        ≡ c.page_data (entry_get_data c q + o)
  unfolding hit_write
  hit-outside q o lo h =
      ground (arith, slot_apart (page_sz c) q p o (entry_get_data c q + o - entry_get_data c p))

  hit-inside :
      (o : ℕ)
      → off ≤ o
      → o < off + n
      → (hit_write c b pos p off n).page_data (entry_get_data c p + o) ≡ b (pos + (o - off))
  unfolding hit_write
  hit-inside o lo hi =
      let at = entry_get_data c p in
      let e : pos + (at + o - (at + off)) ≡ pos + (o - off) = omega arith in ground (arith, ap b e)

  pub hit_write-Coherent : IsCoherent content IsOk size (hit_write c b pos p off n)
  unfolding hit_write
  hit_write-Coherent = record {
    sized = i.sized;
    small = i.small;
    pos = i.pos;
    narrow = i.narrow;
    some_page = i.some_page;
    ordered = same-IsOrdered i.ordered (hit_write c b pos p off n).entries hit-base;
    entry_ok = λ q lq uq. ground (arith, i.entry_ok q lq, hit-entry);
    empty_clean = λ q lq e. ground (arith, i.empty_clean q lq);
    unique = λ q r lq lr uq e. ground (arith, i.unique q r lq lr);
    clean = λ q o lq uq lo inside out fresh.
        ground (arith, hit-outside q o lo, i.clean q o lq, (i.entry_ok p lp up).tidy, i.narrow);
    inner_ok = i.inner_ok;
  }

  -- A sector of the disc is written exactly if its place in the cache is.
  same_test :
      (a q : ℕ)
      → a < size
      → q < c.pages
      → (c.entries q).base_sector ≡ page_start (page_sz c) a
      → in_range ((c.entries p).base_sector + off) n a ≡ part p off n q (a % page_sz c)
  same_test a q la lq at = ground (
    arith,
    i.unique q p lq lp (IsUsed-of_page i q a la at),
    mod-lt a i.pos,
    mod-le a (page_sz c),
    page_start_unique (page_sz c) (c.entries p).base_sector a i.pos (i.entry_ok p lp up).aligned,
  )

  hit-held :
      (a q : ℕ)
      → q < c.pages
      → (c.entries q).base_sector ≡ page_start (page_sz c) a
      → part p off n q (a % page_sz c) ≡ true
      → (hit_write c b pos p off n).page_data (entry_get_data c q + a % page_sz c)
        ≡ b (pos + (a - ((c.entries p).base_sector + off)))
  hit-held a q lq at h =
      let same : q ≡ p = ground arith in
      let base : (c.entries p).base_sector ≡ a - a % page_sz c =
        sym (ap (λ r. (c.entries r).base_sector) same) ∙ at in
      ap (λ r. (hit_write c b pos p off n).page_data (entry_get_data c r + a % page_sz c)) same
      ∙ hit-inside (a % page_sz c) (ground arith) (ground arith)
      ∙ ap b (ground (arith, base, mod-le a (page_sz c)))

  -- A write to a cached page changes the sectors of the disc that the cache stands for which it was
  -- given, and no other: in a coherent cache, for a part of the page that lies within the disc.
  pub hit_write-view :
      (a : ℕ)
      → a < size
      → view content (hit_write c b pos p off n) a ≡ (
          if in_range ((c.entries p).base_sector + off) n a
          then b (pos + (a - ((c.entries p).base_sector + off)))
          else view content c a)
  unfolding hit_write
  hit_write-view a la = elim (holder-cases c.pages c.entries (page_start (page_sz c) a)) [
    | inl (q, lq, at) ↦
        let old = view-cached content c a q i lq la at in
        let new =
          view-cached content (hit_write c b pos p off n) a q hit_write-Coherent lq la
            (hit-base q ∙ at) in
        rw (same_test a q la lq at, new)
          (elim (Bool-cases (part p off n q (a % page_sz c))) [
            | inl h ↦ rw h (hit-held a q lq at h)
            | inr h ↦ rw (h, old) (hit-outside q (a % page_sz c) (mod-lt a i.pos) h)
          ])
    | inr free ↦
        let old = view-uncached content c a free in
        let new =
          view-uncached content (hit_write c b pos p off n) a
            (λ q lq. rw (hit-base q) (free q lq)) in
        let far =
          page_start_unique (page_sz c) (c.entries p).base_sector a i.pos
            (i.entry_ok p lp up).aligned in
        ground (arith, old, new, far, free p lp)
  ]

module _ {D : Type 0} {content : D → ℕ → Sector} {IsOk : D → Type 0} {size : ℕ} {c : DvmDiscCache D}
    (p : ℕ) (i : IsCoherent content IsOk size c) (lp : p < c.pages) (up : IsUsed c.entries p) where
  -- A read of a cached page gets what the cache stands for.
  pub hit_read-view :
      (b : Buf) (pos off n j : ℕ)
      → off + n ≤ page_sz c
      → (c.entries p).base_sector + off + n ≤ size
      → hit_read c b pos p off n j ≡ (
          if in_range pos n j
          then view content c ((c.entries p).base_sector + off + (j - pos))
          else b j)
  unfolding hit_read
  hit_read-view b pos off n j fit inside = elim (Bool-cases (in_range pos n j)) [
    | inr h ↦ rw h
    | inl h ↦
        let a : ℕ = (c.entries p).base_sector + off + (j - pos) in
        let lo : off + (j - pos) < page_sz c = ground arith in
        let page : page_start (page_sz c) a ≡ (c.entries p).base_sector =
          page_start_unique (page_sz c) (c.entries p).base_sector a i.pos
            (i.entry_ok p lp up).aligned (omega arith) (omega arith) in
        rw h (
          sym (
            view-cached content c a p i lp (ground arith) (sym page)
            ∙ ap c.page_data (omega (arith, mod-le a (page_sz c)))))
  ]

  -- To make the entry the most recently used changes no page.
  pub make_mru-Coherent : (whole : Bool) → IsCoherent content IsOk size (make_mru c p whole)
  unfolding make_mru
  make_mru-Coherent whole = elim (Bool-cases (not whole && not (is_first p c.order))) [
    | inl h ↦ rw h (record {
      sized = i.sized;
      small = i.small;
      pos = i.pos;
      narrow = i.narrow;
      some_page = i.some_page;
      ordered = front-IsOrdered i.ordered p lp up;
      entry_ok = i.entry_ok;
      empty_clean = i.empty_clean;
      unique = i.unique;
      clean = i.clean;
      inner_ok = i.inner_ok;
    })
    | inr h ↦ rw h i
  ]

  pub make_mru-view :
      (whole : Bool) (a : ℕ) → view content (make_mru c p whole) a ≡ view content c a
  unfolding make_mru view
  make_mru-view whole a = ground arith
