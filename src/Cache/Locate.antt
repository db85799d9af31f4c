-- ===== src/Cache/Locate.antt =====
-- The search in the loop of `_dvmDiscCacheReadWrite` for an access of whole pages, and the rounds that
-- end in `_cacheHit`.
use libdvm.Base.{
  ℕ, ◌+◌, ◌%◌, ◌^◌, ◌≤◌, ◌<◌, ◌≡◌, refl, sym, ◌∙◌, ap, subst, ◌⊎◌, inl, inr, Bool, Option, none,
  some, arith, Bool-cases, ℕ_discrete,
}
use libdvm.Base.Paging.{page_start, Aligned, Aligned-add, page_start-Aligned, page_start_unique}
use libdvm.Disc.Memory.{Sector}
use libdvm.Cache.Types.{DvmDiscCache, page_sz, sec_mod, empty_page}
use libdvm.Cache.Order.{IsUsed, Nearest, search-Nearest}
use libdvm.Cache.Search.{search}
use libdvm.Cache.Access.{Access, Loop, seek}
use libdvm.Cache.Invariant.{IsCoherent}
use libdvm.Cache.Moved.{Moved}
use libdvm.Cache.Load.{weaken}
use libdvm.Cache.HitStep.{CurBounds, cur-bounds, cache_hit-write, cache_hit-read}
use libdvm.Cache.ReadWrite.{cache_hit, advance, cur_page, cur_sectors}

-- `p` is the entry of the page of the access, or of the nearest cached page behind it.
pub record IsLocated {D : Type 0} (l : Loop D) : Type 0 where
  pub nearest : Nearest l.self.entries l.self.pages (cur_page l) l.p
  pub base : (q : ℕ) → l.p ≡ some q → l.search_base ≡ (l.self.entries q).base_sector + 1

-- Before a round: the search will be repeated, or its last answer still stands.
abbrev pub IsReady : {D : Type 0} → Loop D → Type 0
IsReady l = (l.search_base ≤ cur_page l) ⊎ IsLocated l

-- A page from its first sector on.
pub page_first :
    {D : Type 0} (k : Loop D) (s n : ℕ)
    → k.self.page_shift ≡ n
    → k.first_sector ≡ s
    → Aligned (2 ^ n) s
    → 0 < 2 ^ n
    → cur_page k ≡ s
page_first k s n e f aligned pos =
    (λ j. page_start (2 ^ e j) (f j))
    ∙ page_start_unique (2 ^ n) s s pos aligned (omega arith) (omega arith)

module _ {D : Type 0} {content : D → ℕ → Sector} {IsOk : D → Type 0} {size : ℕ} where
  base-le :
      {c : DvmDiscCache D}
      → IsCoherent content IsOk size c
      → (q : ℕ) → q < c.pages
      → (c.entries q).base_sector ≤ empty_page
  base-le {c} i q lq = elim (ℕ_discrete (c.entries q).base_sector empty_page) [
    | yes e ↦ omega arith
    | no u ↦ omega (arith, (i.entry_ok q lq u).in_disc, i.small)
  ]

  IsLocated-search :
      (l : Loop D) (p : Option ℕ)
      → IsCoherent content IsOk size l.self
      → Nearest l.self.entries l.self.pages (cur_page l) p
      → IsLocated (record l {
        p = p;
        search_base = elim p [
          | none ↦ empty_page
          | some q ↦ ((l.self.entries q).base_sector + 1) % sec_mod
        ];
      })
  IsLocated-search l none i n = record { nearest = n; base = λ q h. cc }
  IsLocated-search l (some r) i n = record {
    nearest = n;
    base = λ q h. ground (arith, (i.entry_ok r n.0 n.1).in_disc, i.small);
  }

  -- The search.
  pub seek-IsLocated :
      (l : Loop D)
      → IsCoherent content IsOk size l.self
      → cur_page l ≤ empty_page
      → IsLocated (seek l)
  seek-IsLocated l i le =
      IsLocated-search l (search l.self (cur_page l)) i
        (search-Nearest l.self (cur_page l) i.ordered (base-le i) le)

  -- An access to a page that leaves a part leaves what begins at the next page.
  pub next_page :
      (w : Bool) (l k : Loop D)
      → 0 < page_sz l.self
      → l.first_sector + l.num_sectors ≤ size
      → 0 < l.num_sectors
      → Moved content IsOk size w (cur_sectors l) l k
      → 0 < k.num_sectors
      → cur_page k ≡ cur_page l + page_sz l.self
  next_page w l k pos fits some_num m left =
      let bounds : CurBounds l size = cur-bounds l pos some_num fits in
      page_first k (cur_page l + page_sz l.self) l.self.page_shift m.page_shift
        (m.at_first ∙ omega (arith, bounds.split, bounds.all_or_rest, m.left))
        (Aligned-add (page_sz l.self) (cur_page l)
          (page_start-Aligned (page_sz l.self) l.first_sector pos))
        pos

-- The nearest cached page stays the nearest up to its first sector.
pub far-IsLocated :
    {D : Type 0} (l k : Loop D) (q : ℕ)
    → l.p ≡ some q
    → Nearest l.self.entries l.self.pages (cur_page l) (some q)
    → l.search_base ≡ (l.self.entries q).base_sector + 1
    → k.p ≡ l.p
    → k.search_base ≡ l.search_base
    → k.self.entries ≡ l.self.entries
    → k.self.pages ≡ l.self.pages
    → cur_page k ≡ (l.self.entries q).base_sector
    → IsLocated k
far-IsLocated l k q e (lq, uq, ge, least) base same_p same_base same_es same_pages here = record {
  nearest =
      subst (λ p. Nearest k.self.entries k.self.pages (cur_page k) p) (sym (same_p ∙ e))
        (
          omega arith,
          ground (arith, same q),
          omega (arith, same q, here),
          λ r lr ur le. omega (arith, same q, same r, here),
        );
  base = λ r er. ground (arith, same q);
}
  where
    same : (r : ℕ) → (k.self.entries r).base_sector ≡ (l.self.entries r).base_sector
    same r = ap (λ es. (es r).base_sector) same_es

module _ {D : Type 0} {content : D → ℕ → Sector} {IsOk : D → Type 0} {size : ℕ} (a : Access)
    (l : Loop D) (q : ℕ) (i : IsCoherent content IsOk size l.self)
    (fits : l.first_sector + l.num_sectors ≤ size) (some_num : 0 < l.num_sectors)
    (lq : q < l.self.pages) (uq : IsUsed l.self.entries q)
    (at : (l.self.entries q).base_sector ≡ cur_page l) where
  -- The access to a cached page.
  pub cache_hit-Moved : Moved content IsOk size a.is_write (cur_sectors l) l (cache_hit a l q)
  cache_hit-Moved = elim (Bool-cases a.is_write) [
    | inl w ↦
        subst (λ x. Moved content IsOk size x (cur_sectors l) l (cache_hit a l q)) (sym w)
          (cache_hit-write l q lq uq at some_num fits a w (weaken i (λ q o lo h. refl)))
    | inr w ↦
        subst (λ x. Moved content IsOk size x (cur_sectors l) l (cache_hit a l q)) (sym w)
          (cache_hit-read l q lq uq at some_num fits a w i)
  ]

  pub cache_hit-base : (cache_hit a l q).search_base ≡ l.search_base
  unfolding cache_hit advance
  cache_hit-base = refl
