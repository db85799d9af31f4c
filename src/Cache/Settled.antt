-- ===== src/Cache/Settled.antt =====
-- What the search finds in the loop of `_dvmDiscCacheReadWrite` for a partial access or one from a
-- misaligned buffer.
use libdvm.Base.{
  ℕ, ◌+◌, ◌≤◌, ◌<◌, ◌≡◌, refl, ◌⊎◌, inl, inr, ◌≢◌, Option, none, some, arith, ℕ_discrete, dec_lt,
}
use libdvm.Base.Paging.{Aligned, page_start-Aligned}
use libdvm.Disc.Memory.{Sector}
use libdvm.Cache.Types.{Entries, page_sz}
use libdvm.Cache.Order.{IsUsed, Nearest}
use libdvm.Cache.Access.{Loop, seek}
use libdvm.Cache.Invariant.{IsCoherent}
use libdvm.Cache.Gap.{NoneIn}
use libdvm.Cache.Locate.{IsLocated, seek-IsLocated}
use libdvm.Cache.ReadWrite.{cur_page}

-- Where a page from `lo` on is cached that begins before `hi`, all pages between are cached.
abbrev pub HitsFirst : Entries → ℕ → ℕ → ℕ → ℕ → Type 0
HitsFirst es pages n lo hi =
    (q page : ℕ)
    → q < pages
    → IsUsed es q
    → (es q).base_sector < hi
    → lo ≤ page
    → page ≤ (es q).base_sector
    → Aligned n page
    → (r : ℕ) × (r < pages) × ((es r).base_sector ≡ page)

-- Before a round of an access that ends at `stop`: the pages that are cached come first and the
-- search will be repeated, or no page that is left is cached and `p` is behind.
abbrev pub IsSettled : {D : Type 0} → ℕ → Loop D → Type 0
IsSettled stop l =
    (l.first_sector + l.num_sectors ≡ stop)
    × (((l.search_base ≤ cur_page l)
          × HitsFirst l.self.entries l.self.pages (page_sz l.self) (cur_page l) stop)
        ⊎ (NoneIn l.self.entries l.self.pages (cur_page l) stop
            × ((q : ℕ) → l.p ≡ some q → (l.self.entries q).base_sector < cur_page l)))

-- What the search has found: the page of the access with the rest cached first, or nothing.
abbrev pub IsHit : {D : Type 0} → ℕ → Loop D → ℕ → Type 0
IsHit stop l q =
    (l.p ≡ some q)
    × (q < l.self.pages)
    × ((l.self.entries q).base_sector ≡ cur_page l)
    × (l.search_base ≡ cur_page l + 1)
    × HitsFirst l.self.entries l.self.pages (page_sz l.self) (cur_page l) stop

abbrev pub IsMiss : {D : Type 0} → ℕ → Loop D → Type 0
IsMiss stop l =
    NoneIn l.self.entries l.self.pages (cur_page l) stop
    × ((q : ℕ) → l.p ≡ some q → (l.self.entries q).base_sector ≢ cur_page l)

abbrev pub IsAnswered : {D : Type 0} → ℕ → Loop D → Type 0
IsAnswered stop l =
    (l.first_sector + l.num_sectors ≡ stop) × (((q : ℕ) × IsHit stop l q) ⊎ IsMiss stop l)

module _ {D : Type 0} {content : D → ℕ → Sector} {IsOk : D → Type 0} {size : ℕ} (stop : ℕ)
    (l : Loop D) (i : IsCoherent content IsOk size l.self)
    (fits : l.first_sector + l.num_sectors ≤ size) (some_num : 0 < l.num_sectors)
    (ends : l.first_sector + l.num_sectors ≡ stop) where
  -- The answer of a repeated search.
  hits_answer :
      (p : Option ℕ)
      → l.p ≡ p
      → Nearest l.self.entries l.self.pages (cur_page l) p
      → ((q : ℕ) → p ≡ some q → l.search_base ≡ (l.self.entries q).base_sector + 1)
      → HitsFirst l.self.entries l.self.pages (page_sz l.self) (cur_page l) stop
      → ((q : ℕ) × IsHit stop l q) ⊎ IsMiss stop l
  hits_answer none e near base first =
      inr (λ q lq uq le. absurd (ground (arith, near q lq uq)), λ q h. cc)
  hits_answer (some r) e (lr, ur, ge, least) base first =
      elim (ℕ_discrete (l.self.entries r).base_sector (cur_page l)) [
        | yes at ↦ inl (r, (e, lr, at, omega (arith, base r refl), first))
        | no ne ↦ inr (λ q lq uq le. behind ne q lq uq le, λ q h at. ground (arith, e, h))
      ]
    where
      behind :
          (l.self.entries r).base_sector ≢ cur_page l
          → (q : ℕ) → q < l.self.pages
          → IsUsed l.self.entries q
          → cur_page l ≤ (l.self.entries q).base_sector
          → stop ≤ (l.self.entries q).base_sector
      behind ne q lq uq le = elim (dec_lt (l.self.entries r).base_sector stop) [
        | no far ↦ omega (arith, least q lq uq le)
        | yes near ↦
            let (held, lh, at) =
              first r (cur_page l) lr ur near (omega arith) ge
                (page_start-Aligned (page_sz l.self) l.first_sector i.pos) in
            let used : IsUsed l.self.entries held = ground (arith, i.small) in
            absurd (ne (omega (arith, least held lh used (omega arith))))
      ]

  none_answer :
      (p : Option ℕ)
      → l.p ≡ p
      → Nearest l.self.entries l.self.pages (cur_page l) p
      → NoneIn l.self.entries l.self.pages (cur_page l) stop
      → IsMiss stop l
  none_answer none e near none_in = (none_in, λ q h. cc)
  none_answer (some r) e (lr, ur, ge, least) none_in =
      (none_in, λ q h at. ground (arith, e, h, none_in r lr ur))

module _ {D : Type 0} {content : D → ℕ → Sector} {IsOk : D → Type 0} {size : ℕ} (stop : ℕ)
    (l : Loop D) (i : IsCoherent content IsOk size l.self)
    (fits : l.first_sector + l.num_sectors ≤ size) (some_num : 0 < l.num_sectors)
    (ends : l.first_sector + l.num_sectors ≡ stop) where
  -- What a round finds after the search.
  pub seek_answer :
      HitsFirst l.self.entries l.self.pages (page_sz l.self) (cur_page l) stop
        ⊎ NoneIn l.self.entries l.self.pages (cur_page l) stop
      → IsAnswered stop (seek l)
  seek_answer h = (ends, found (seek-IsLocated l i (omega (arith, i.small))) h)
    where
      found :
          IsLocated (seek l)
          → HitsFirst l.self.entries l.self.pages (page_sz l.self) (cur_page l) stop
            ⊎ NoneIn l.self.entries l.self.pages (cur_page l) stop
          → ((q : ℕ) × IsHit stop (seek l) q) ⊎ IsMiss stop (seek l)
      found loc (inl first) =
          hits_answer stop (seek l) i fits some_num ends (seek l).p refl loc.nearest loc.base first
      found loc (inr none_in) =
          inr (none_answer stop (seek l) i fits some_num ends (seek l).p refl loc.nearest none_in)
