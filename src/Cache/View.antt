-- ===== src/Cache/View.antt =====
-- The disc that a cache stands for: a sector of a cached page is what the cache holds, and any other
-- sector is that of the inner disc.
use libdvm.Base.{
  ℕ, zero, suc, ◌+◌, ◌%◌, ◌<◌, ◌≡◌, sym, ◌∙◌, ◌≢◌, ◌⊎◌, inl, inr, Bool, Option, none, some, arith,
  ◌==◌, if◌then◌else◌, Option-cases, ℕ_discrete,
}
use libdvm.Base.Paging.{page_start}
use libdvm.Disc.Memory.{Sector}
use libdvm.Cache.Types.{DvmDiscCache, Entries, page_sz, entry_get_data}
use libdvm.Cache.Order.{IsUsed}
use libdvm.Cache.Invariant.{IsCoherentBut}

-- The entry below `n` that holds the page.
unfoldable pub holder : ℕ → Entries → ℕ → Option ℕ
holder zero es page = none
holder (suc n) es page = if (es n).base_sector == page then some n else holder n es page

holder-some :
    (n : ℕ) (es : Entries) (page q : ℕ)
    → holder n es page ≡ some q
    → (q < n) × ((es q).base_sector ≡ page)
unfolding holder
holder-some zero es page q h = cc
holder-some (suc n) es page q h = ground (arith, holder-some n es page q)

holder-none :
    (n : ℕ) (es : Entries) (page q : ℕ)
    → holder n es page ≡ none
    → q < n
    → (es q).base_sector ≢ page
unfolding holder
holder-none zero es page q h lt = absurd (omega arith)
holder-none (suc n) es page q h lt = ground (arith, holder-none n es page q, ℕ_discrete q n)

-- A page is held by an entry, or by none.
pub holder-cases :
    (n : ℕ) (es : Entries) (page : ℕ)
    → ((q : ℕ) × (q < n) × ((es q).base_sector ≡ page))
      ⊎ ((q : ℕ) → q < n → (es q).base_sector ≢ page)
holder-cases n es page = elim (Option-cases (holder n es page)) [
  | inl e ↦ inr (λ q. holder-none n es page q e)
  | inr (q, e) ↦ let (lt, at) = holder-some n es page q e in inl (q, lt, at)
]

module _ {D : Type 0} (content : D → ℕ → Sector) where
  -- The contents of the disc that the cache stands for.
  unfoldable pub view : DvmDiscCache D → ℕ → Sector
  unfolding holder
  view c a = elim (holder c.pages c.entries (page_start (page_sz c) a)) [
    | none ↦ content c.inner a
    | some q ↦ c.page_data (entry_get_data c q + a % page_sz c)
  ]

  pub view-uncached :
      (c : DvmDiscCache D) (a : ℕ)
      → ((q : ℕ) → q < c.pages → (c.entries q).base_sector ≢ page_start (page_sz c) a)
      → view c a ≡ content c.inner a
  unfolding view
  view-uncached c a h = elim (Option-cases (holder c.pages c.entries (page_start (page_sz c) a))) [
    | inl e ↦ rw (e, view)
    | inr (q, e) ↦
        let (lt, at) = holder-some c.pages c.entries (page_start (page_sz c) a) q e in
        absurd (h q lt at)
  ]

  pub view-cached :
      {IsOk : D → Type 0} {size : ℕ} {stale : ℕ → ℕ → Bool} (c : DvmDiscCache D) (a q : ℕ)
      → IsCoherentBut content IsOk size stale c
      → q < c.pages
      → a < size
      → (c.entries q).base_sector ≡ page_start (page_sz c) a
      → view c a ≡ c.page_data (entry_get_data c q + a % page_sz c)
  unfolding view
  view-cached c a q i lt al h =
      elim (Option-cases (holder c.pages c.entries (page_start (page_sz c) a))) [
        | inl e ↦ absurd (holder-none c.pages c.entries (page_start (page_sz c) a) q e lt h)
        | inr (r, e) ↦
            let (lt', at) = holder-some c.pages c.entries (page_start (page_sz c) a) r e in
            let used : IsUsed c.entries q = ground (arith, i.small) in
            let same : q ≡ r = i.unique q r lt lt' used (h ∙ sym at) in rw (e, view) (rw same)
      ]
