-- ===== src/Cache/Order.antt =====
-- The list of a cache, `self->list`: its empty entries stand behind all others. What the search of
-- `_dvmDiscCacheSearch` finds in such a list.
use libdvm.Base.{
  ℕ, ◌≤◌, ◌<◌, ◌≡◌, refl, ap, ◌∙◌, ◌≢◌, ◌⊎◌, inl, inr, true, false, ◌||◌, ◌&&◌, Option, none, some,
  List, [], ◌∷◌, ◌++◌, arith, ◌==◌, ltb, Bool-cases,
}
use libdvm.Base.Members.{has, NoDup, has-append}
use libdvm.Cache.Types.{DvmDiscCache, Entries, empty_page}
use libdvm.Cache.Search.{search_from, search}

-- The entry holds a page.
abbrev pub IsUsed : Entries → ℕ → Type 0
IsUsed es q = (es q).base_sector ≢ empty_page

-- `used` and `unused` are the two parts of the list, which holds each of the `pages` entries once.
pub record IsOrdered (es : Entries) (pages : ℕ) (order : List ℕ) : Type 0 where
  pub used : List ℕ
  pub unused : List ℕ
  pub split : order ≡ used ++ unused
  pub full : (q : ℕ) → has q used ≡ true → IsUsed es q
  pub vacant : (q : ℕ) → has q unused ≡ true → (es q).base_sector ≡ empty_page
  pub nodup : NoDup order
  pub listed : (q : ℕ) → q < pages → has q order ≡ true
  pub slots : (q : ℕ) → has q order ≡ true → q < pages

-- What a search for `page` among `pages` entries answers: the entry with the least base that is not
-- below the page, or none if every page is below.
abbrev pub Nearest : Entries → ℕ → ℕ → Option ℕ → Type 0
Nearest es pages page none = (q : ℕ) → q < pages → IsUsed es q → (es q).base_sector < page
Nearest es pages page (some r) =
    (r < pages)
    × IsUsed es r
    × (page ≤ (es r).base_sector)
    × ((q : ℕ)
        → q < pages
        → IsUsed es q
        → page ≤ (es q).base_sector
        → (es r).base_sector ≤ (es q).base_sector)

-- The base of what a search has found so far.
abbrev key : Entries → Option ℕ → ℕ
key es none = empty_page
key es (some r) = (es r).base_sector

-- What a search for `page` among the entries `qs` answers, begun with `ret`.
record Found (es : Entries) (page : ℕ) (qs : List ℕ) (ret out : Option ℕ) : Type 0 where
  before : key es out ≤ key es ret
  least : (q : ℕ) → has q qs ≡ true → page ≤ (es q).base_sector → key es out ≤ (es q).base_sector
  origin :
      (r : ℕ) → out ≡ some r → (ret ≡ some r) ⊎ ((has r qs ≡ true) × (page ≤ (es r).base_sector))

module _ (es : Entries) (page : ℕ) where
  search_from-unused :
      (qs : List ℕ) (min_sec : ℕ) (ret : Option ℕ)
      → ((q : ℕ) → has q qs ≡ true → (es q).base_sector ≡ empty_page)
      → search_from es page qs min_sec ret ≡ ret
  unfolding search_from
  search_from-unused [] min_sec ret v = refl
  search_from-unused (q ∷ qs) min_sec ret v = ground (arith, v q)

  Found-cons :
      (p : ℕ) (qs : List ℕ) {ret mid out : Option ℕ}
      → Found es page qs mid out
      → key es mid ≤ key es ret
      → (page ≤ (es p).base_sector → key es mid ≤ (es p).base_sector)
      → ((r : ℕ) → mid ≡ some r → (ret ≡ some r) ⊎ ((r ≡ p) × (page ≤ (es r).base_sector)))
      → Found es page (p ∷ qs) ret out
  Found-cons p qs {ret} {mid} {out} found lower least' origin' = record {
    before = omega (arith, found.before);
    least = λ q h le. ground (arith, found.least q, found.before, least');
    origin = λ r e. ground (arith, found.origin r, origin' r);
  }

  search_from-Found :
      (qs rest : List ℕ) (ret : Option ℕ)
      → ((q : ℕ) → has q qs ≡ true → IsUsed es q)
      → ((q : ℕ) → has q rest ≡ true → (es q).base_sector ≡ empty_page)
      → page ≤ key es ret
      → Found es page qs ret (search_from es page (qs ++ rest) (key es ret) ret)
  unfolding search_from
  search_from-Found [] rest ret f v lo =
      rw (search_from-unused rest (key es ret) ret v)
        (record { before = omega arith; least = λ q h. cc; origin = λ r h. inl h })
  search_from-Found (p ∷ qs) rest ret f v lo =
      let used : (((es p).base_sector == empty_page) ≡ false) = ground (arith, f p) in
      rw used (elim (Bool-cases ((es p).base_sector == page)) [
        | inl hit ↦ rw hit (record {
          before = ground arith;
          least = λ q h le. ground arith;
          origin = λ r e. ground arith;
        })
        | inr miss ↦
            rw miss
              (elim (Bool-cases
                (ltb page (es p).base_sector && ltb (es p).base_sector (key es ret))) [
                  | inl near ↦ rw near (
                      Found-cons p qs
                        (search_from-Found qs rest (some p) (λ q h. f q (ground arith)) v
                          (ground arith))
                        (ground arith) (λ h. ground arith) (λ r e. ground arith))
                  | inr far ↦ rw far (
                      Found-cons p qs
                        (search_from-Found qs rest ret (λ q h. f q (ground arith)) v lo)
                        (ground arith) (λ h. ground arith) (λ r e. ground arith))
                ])
      ])

module _ {es : Entries} {pages : ℕ} {order : List ℕ} (o : IsOrdered es pages order) (q : ℕ) where
  pub has-split : has q order ≡ (has q o.used || has q o.unused)
  has-split = ap (has q) o.split ∙ has-append q o.used o.unused

  pub has-used : q < pages → IsUsed es q → has q o.used ≡ true
  has-used lt u = ground (arith, has-split, o.listed q, o.vacant q)

  pub used-lt : has q o.used ≡ true → q < pages
  used-lt h = ground (arith, has-split, o.slots q)

module _ {D : Type 0} (self : DvmDiscCache D) (page : ℕ)
    (o : IsOrdered self.entries self.pages self.order) where
  open self use {entries, pages}

  search-Found : page ≤ empty_page → Found entries page o.used none (search self page)
  unfolding search
  search-Found le =
      rw (o.split) (search_from-Found entries page o.used o.unused none o.full o.vacant le)

  Found-Nearest :
      (out : Option ℕ)
      → Found entries page o.used none out
      → ((q : ℕ) → q < pages → (entries q).base_sector ≤ empty_page)
      → page ≤ empty_page
      → Nearest entries pages page out
  Found-Nearest none f small le = λ q lt u. ground (arith, f.least q, has-used o q, small q)
  Found-Nearest (some r) f small le =
      let from = f.origin r refl in
      (
        ground (arith, used-lt o r),
        ground (arith, o.full r),
        ground arith,
        λ q lt u h. ground (arith, f.least q, has-used o q),
      )

  -- The search finds the cached page that it is given, and if there is none, the nearest page behind
  -- it. It answers NULL only if no page from the given one on is cached. The empty entries stand
  -- behind all others in the list, and no base is above that of an empty page.
  pub search-Nearest :
      ((q : ℕ) → q < pages → (entries q).base_sector ≤ empty_page)
      → page ≤ empty_page
      → Nearest entries pages page (search self page)
  search-Nearest small le = Found-Nearest (search self page) (search-Found le) small le
