-- ===== src/Cache/Swap.antt =====
-- The exchange of a clean entry of a coherent cache for another page: what it keeps, and what the new
-- entry has to satisfy. Replacements and failed loads in `_dvmDiscCacheReadWrite` are such exchanges.
use native.Mathlib.Nat.{mod-lt, mod-le}
use libdvm.Base.{
  ℕ, ◌+◌, ◌*◌, ◌%◌, ◌^◌, ◌≤◌, ◌<◌, ◌≡◌, refl, sym, ◌∙◌, ap, ◌≢◌, ◌⊎◌, inl, inr, Bool, false, arith,
  ℕ_discrete,
}
use libdvm.Base.Paging.{Aligned, page_start}
use libdvm.Disc.Memory.{Sector}
use libdvm.Cache.Types.{DvmDiscCache, DvmDiscCacheEntry, page_sz, entry_get_data}
use libdvm.Cache.Order.{IsUsed, IsOrdered}
use libdvm.Cache.Victim.{IsBorder, border-IsOrdered}
use libdvm.Cache.Invariant.{IsCoherentBut, IsCoherent, EntryOk}
use libdvm.Cache.Pages.{IsUsed-of_page}
use libdvm.Cache.View.{view, holder-cases, view-cached, view-uncached}

-- The caches `c` and `c'` differ in the entry `v` and its page, and perhaps in the inner disc.
pub record SameBut {D : Type 0} (v : ℕ) (c c' : DvmDiscCache D) : Type 0 where
  pub num_sectors : c'.num_sectors ≡ c.num_sectors
  pub pages : c'.pages ≡ c.pages
  pub page_shift : c'.page_shift ≡ c.page_shift
  pub order : c'.order ≡ c.order
  pub bases : (q : ℕ) → q ≢ v → (c'.entries q).base_sector ≡ (c.entries q).base_sector

module _ {D : Type 0} {content : D → ℕ → Sector} {IsOk : D → Type 0} {size : ℕ}
    {stale : ℕ → ℕ → Bool} {c : DvmDiscCache D} (i : IsCoherentBut content IsOk size stale c) where
  -- A sector that only a clean entry can hold is that of the inner disc.
  view-clean :
      (v a : ℕ)
      → a < size
      → (c.entries v).dirty_end ≡ 0
      → ((q : ℕ) → q < c.pages → q ≢ v → (c.entries q).base_sector ≢ page_start (page_sz c) a)
      → ((c.entries v).base_sector ≡ page_start (page_sz c) a → stale v (a % page_sz c) ≡ false)
      → view content c a ≡ content c.inner a
  view-clean v a la tidy others fresh =
      elim (holder-cases c.pages c.entries (page_start (page_sz c) a)) [
        | inr free ↦ view-uncached content c a free
        | inl (q, lq, at) ↦ elim (ℕ_discrete q v) [
          | no ne ↦ absurd (others q lq ne at)
          | yes e ↦
              let o : ℕ = a % page_sz c in
              let back : (c.entries q).base_sector + o ≡ a = omega (arith, mod-le a (page_sz c)) in
              let at_v : (c.entries v).base_sector ≡ page_start (page_sz c) a =
                ap (λ r. (c.entries r).base_sector) (sym e) ∙ at in
              let end_q : (c.entries q).dirty_end ≡ 0 =
                ap (λ r. (c.entries r).dirty_end) e ∙ tidy in
              view-cached content c a q i lq la at
              ∙ i.clean q o lq (IsUsed-of_page i q a la at) (mod-lt a i.pos) (omega arith)
                  (inr (omega arith)) (ap (λ r. stale r o) e ∙ fresh at_v)
              ∙ ap (content c.inner) back
        ]
      ]

module _ {D : Type 0} {content : D → ℕ → Sector} {IsOk : D → Type 0} {size : ℕ}
    {stale : ℕ → ℕ → Bool} {c c' : DvmDiscCache D} (i : IsCoherent content IsOk size c)
    (i' : IsCoherentBut content IsOk size stale c') (v : ℕ) (s : SameBut v c c')
    (kept : (a : ℕ) → a < size → content c'.inner a ≡ content c.inner a)
    (other_data : (q o : ℕ)
      → q ≢ v
      → o < page_sz c
      → c'.page_data (entry_get_data c q + o) ≡ c.page_data (entry_get_data c q + o))
    (tidy : (c.entries v).dirty_end ≡ 0) (tidy' : (c'.entries v).dirty_end ≡ 0) where
  -- What becomes of a clean entry changes nothing that the cache stands for.
  pub view_swap :
      (a : ℕ)
      → a < size
      → ((c'.entries v).base_sector ≡ page_start (page_sz c) a → stale v (a % page_sz c) ≡ false)
      → view content c' a ≡ view content c a
  view_swap a la fresh = elim (holder-cases c.pages c.entries (page_start (page_sz c) a)) [
    | inr free ↦ plain (λ q lq ne. free q lq)
    | inl (q, lq, at) ↦ elim (ℕ_discrete q v) [
      | yes e ↦
          plain (λ r lr ne h. ne (i.unique r q lr lq (IsUsed-of_page i r a la h) (h ∙ sym at) ∙ e))
      | no ne ↦
          view-cached content c' a q i' (ground (arith, s.pages)) la
            (ground (arith, s.bases q, s.page_shift))
          ∙ (λ j. c'.page_data (q * 2 ^ s.page_shift j + a % 2 ^ s.page_shift j))
          ∙ other_data q (a % page_sz c) ne (mod-lt a i.pos)
          ∙ sym (view-cached content c a q i lq la at)
    ]
  ]
    where
      plain :
          ((q : ℕ) → q < c.pages → q ≢ v → (c.entries q).base_sector ≢ page_start (page_sz c) a)
          → view content c' a ≡ view content c a
      plain others =
          view-clean i' v a la tidy'
            (λ q lq ne. ground (arith, s.bases q, s.pages, s.page_shift, others q))
            (λ h. ground (arith, s.page_shift, fresh))
          ∙ kept a la
          ∙ sym (view-clean i v a la tidy others (λ h. refl))

module _ {D : Type 0} {content : D → ℕ → Sector} {IsOk : D → Type 0} {size : ℕ}
    (stale : ℕ → ℕ → Bool) {c c' : DvmDiscCache D} (i : IsCoherent content IsOk size c) (v : ℕ)
    (s : SameBut v c c') (b : IsBorder c.entries c.order v)
    (kept : (a : ℕ) → a < size → content c'.inner a ≡ content c.inner a)
    (other_data : (q o : ℕ)
      → q ≢ v
      → o < page_sz c
      → c'.page_data (entry_get_data c q + o) ≡ c.page_data (entry_get_data c q + o))
    (other_entry : (q : ℕ) → q ≢ v → c'.entries q ≡ c.entries q)
    (tidy' : (c'.entries v).dirty_end ≡ 0)
    (page_v : IsUsed c'.entries v
      → ((c'.entries v).base_sector < size)
        × Aligned (page_sz c) (c'.entries v).base_sector
        × ((q : ℕ) → q < c.pages → q ≢ v → (c.entries q).base_sector ≢ (c'.entries v).base_sector))
    (clean_v : (o : ℕ)
      → IsUsed c'.entries v
      → o < page_sz c
      → (c'.entries v).base_sector + o < size
      → stale v o ≡ false
      → c'.page_data (entry_get_data c v + o) ≡ content c'.inner ((c'.entries v).base_sector + o))
    (inner_ok : IsOk c'.inner) where
  swap-IsOrdered : IsOrdered c'.entries c'.pages c'.order
  swap-IsOrdered = rw (s.pages, s.order) (border-IsOrdered i.ordered b c'.entries s.bases)

  IsUsed-v : (q : ℕ) → q ≡ v → IsUsed c'.entries q → IsUsed c'.entries v
  IsUsed-v q e uq h = uq (ap (λ r. (c'.entries r).base_sector) e ∙ h)

  swap-EntryOk :
      (q : ℕ) → q < c'.pages → IsUsed c'.entries q → EntryOk size (page_sz c') (c'.entries q)
  swap-EntryOk q lq uq = elim (ℕ_discrete q v) [
    | yes e ↦
        let (lt, aligned, _) = page_v (IsUsed-v q e uq) in
        ground (arith, s.page_shift, ap (λ r. (c'.entries r)) e)
    | no ne ↦ ground (arith, other_entry q ne, i.entry_ok q, s.page_shift, s.pages)
  ]

  other_base : (q : ℕ) → q ≢ v → (c'.entries q).base_sector ≡ (c.entries q).base_sector
  other_base q ne = ap (λ (e : DvmDiscCacheEntry). e.base_sector) (other_entry q ne)

  apart :
      (q : ℕ)
      → q < c'.pages
      → q ≢ v
      → IsUsed c'.entries v
      → (c.entries q).base_sector ≢ (c'.entries v).base_sector
  apart q lq ne uv = let (_, _, free) = page_v uv in free q (ground (arith, s.pages)) ne

  swap_unique :
      (q r : ℕ)
      → q < c'.pages
      → r < c'.pages
      → IsUsed c'.entries q
      → (c'.entries q).base_sector ≡ (c'.entries r).base_sector
      → q ≡ r
  swap_unique q r lq lr uq e = elim (ℕ_discrete q v) [
    | yes eq ↦ elim (ℕ_discrete r v) [
      | yes er ↦ eq ∙ sym er
      | no nr ↦ absurd (
          apart r lr nr (IsUsed-v q eq uq)
            (sym (other_base r nr) ∙ sym e ∙ ap (λ k. (c'.entries k).base_sector) eq))
    ]
    | no nq ↦ elim (ℕ_discrete r v) [
      | yes er ↦ absurd (
          apart q lq nq (λ h. uq (e ∙ ap (λ k. (c'.entries k).base_sector) er ∙ h))
            (sym (other_base q nq) ∙ e ∙ ap (λ k. (c'.entries k).base_sector) er))
      | no nr ↦ ground (arith, i.unique q r, other_entry q nq, other_entry r nr, s.pages)
    ]
  ]

  swap-clean :
      (q o : ℕ)
      → q < c'.pages
      → IsUsed c'.entries q
      → o < page_sz c'
      → (c'.entries q).base_sector + o < size
      → (o < (c'.entries q).dirty_start) ⊎ ((c'.entries q).dirty_end ≤ o)
      → stale q o ≡ false
      → c'.page_data (entry_get_data c' q + o) ≡ content c'.inner ((c'.entries q).base_sector + o)
  swap-clean q o lq uq lo inside out fresh = elim (ℕ_discrete q v) [
    | yes e ↦
        ap (λ r. c'.page_data (entry_get_data c' r + o)) e
        ∙ ap (λ k. c'.page_data (v * 2 ^ k + o)) s.page_shift
        ∙ clean_v o (IsUsed-v q e uq) (ground (arith, s.page_shift))
            (ground (arith, ap (λ r. (c'.entries r).base_sector) e))
            (ap (λ r. stale r o) (sym e) ∙ fresh)
        ∙ ap (λ r. content c'.inner ((c'.entries r).base_sector + o)) (sym e)
    | no ne ↦
        ap (λ k. c'.page_data (q * 2 ^ k + o)) s.page_shift
        ∙ other_data q o ne (ground (arith, s.page_shift))
        ∙ i.clean q o (ground (arith, s.pages)) (λ h. uq (other_base q ne ∙ h))
            (ground (arith, s.page_shift)) (ground (arith, other_base q ne))
            (ground (arith, other_entry q ne)) refl
        ∙ sym (kept ((c.entries q).base_sector + o) (ground (arith, other_base q ne)))
        ∙ ap (λ k. content c'.inner (k + o)) (sym (other_base q ne))
  ]

  pub swap-Coherent : IsCoherentBut content IsOk size stale c'
  swap-Coherent = record {
    sized = s.num_sectors ∙ i.sized;
    small = i.small;
    pos = ground (arith, s.page_shift, i.pos);
    narrow = ground (arith, s.page_shift, i.narrow);
    some_page = ground (arith, s.pages, i.some_page);
    ordered = swap-IsOrdered;
    entry_ok = swap-EntryOk;
    empty_clean = λ q lq e. elim (ℕ_discrete q v) [
      | yes h ↦ ap (λ r. (c'.entries r).dirty_end) h ∙ tidy'
      | no ne ↦ ground (arith, other_entry q ne, i.empty_clean q, s.pages)
    ];
    unique = swap_unique;
    clean = swap-clean;
    inner_ok = inner_ok;
  }
