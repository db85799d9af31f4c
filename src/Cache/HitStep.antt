-- ===== src/Cache/HitStep.antt =====
-- The round of the loop of `_dvmDiscCacheReadWrite` that ends in `_cacheHit`.
use native.Mathlib.Nat.{mod-lt, mod-le}
use libdvm.Base.{
  ℕ, ◌+◌, ◌-◌, ◌≤◌, ◌<◌, ◌≡◌, refl, sym, ◌∙◌, ap, ◌⊎◌, Bool, true, false, arith, if◌then◌else◌,
}
use libdvm.Disc.Memory.{Sector, in_range}
use libdvm.Cache.Types.{DvmDiscCache, page_sz}
use libdvm.Cache.Order.{IsUsed}
use libdvm.Cache.Access.{Access, Loop, hit_write, hit_read, make_mru}
use libdvm.Cache.Invariant.{IsCoherent, IsCoherentBut}
use libdvm.Cache.View.{view}
use libdvm.Cache.Hit.{
  part, hit-base, hit_write-Coherent, hit_write-view, hit_read-view, make_mru-Coherent,
  make_mru-view,
}
use libdvm.Cache.Moved.{Moved}
use libdvm.Cache.ReadWrite.{cache_hit, cur_page, cur_offset, cur_sectors, is_whole}

pub make_mru-entries :
    {D : Type 0} (c : DvmDiscCache D) (p : ℕ) (whole : Bool)
    → ((make_mru c p whole).entries ≡ c.entries)
      × ((make_mru c p whole).pages ≡ c.pages)
      × ((make_mru c p whole).page_shift ≡ c.page_shift)
unfolding make_mru
make_mru-entries c p whole = ground arith

-- The part of the page that a round accesses.
pub record CurBounds {D : Type 0} (l : Loop D) (size : ℕ) : Type 0 where
  pub some_cur : 0 < cur_sectors l
  pub cur_le : cur_sectors l ≤ l.num_sectors
  pub in_page : cur_offset l + cur_sectors l ≤ page_sz l.self
  pub split : cur_page l + cur_offset l ≡ l.first_sector
  pub in_disc : cur_page l + cur_offset l + cur_sectors l ≤ size
  pub all_or_rest :
      (cur_sectors l ≡ l.num_sectors) ⊎ (cur_offset l + cur_sectors l ≡ page_sz l.self)

pub cur-bounds :
    {D : Type 0} (l : Loop D) {size : ℕ}
    → 0 < page_sz l.self
    → 0 < l.num_sectors
    → l.first_sector + l.num_sectors ≤ size
    → CurBounds l size
cur-bounds l pos some_num fits =
    ground (arith, mod-lt l.first_sector pos, mod-le l.first_sector (page_sz l.self))

module _ {D : Type 0} {content : D → ℕ → Sector} {IsOk : D → Type 0} {size : ℕ} (l : Loop D) (p : ℕ)
    (lp : p < l.self.pages) (up : IsUsed l.self.entries p)
    (at : (l.self.entries p).base_sector ≡ cur_page l) (some_num : 0 < l.num_sectors)
    (fits : l.first_sector + l.num_sectors ≤ size) where
  pub cache_hit-write :
      (a : Access)
      → a.is_write ≡ true
      → IsCoherentBut content IsOk size (part p (cur_offset l) (cur_sectors l)) l.self
      → Moved content IsOk size true (cur_sectors l) l (cache_hit a l p)
  unfolding cache_hit hit_write
  cache_hit-write a w i = rw w (record {
    coherent = make_mru-Coherent p coherent lp (λ h. up (sym base ∙ h)) (is_whole l);
    page_shift = (make_mru-entries put p (is_whole l)).2;
    at_pos = refl;
    at_first = omega (arith, bounds.cur_le, i.small);
    left = omega (arith, bounds.cur_le);
    written = λ h s ls.
        make_mru-view p coherent lp (λ h. up (sym base ∙ h)) (is_whole l) s ∙ view_put s ls;
    same_buffer = λ h j. refl;
    same_view = λ h. cc;
    got = λ h. cc;
  })
    where
      bounds : CurBounds l size
      bounds = cur-bounds l i.pos some_num fits

      ends : (l.self.entries p).base_sector + cur_offset l + cur_sectors l ≤ size
      ends = rw at bounds.in_disc

      put : DvmDiscCache D
      put = hit_write l.self l.buffer l.pos p (cur_offset l) (cur_sectors l)

      base : (put.entries p).base_sector ≡ (l.self.entries p).base_sector
      base =
          hit-base p (cur_offset l) (cur_sectors l) l.buffer l.pos i lp up bounds.some_cur
            bounds.in_page ends p

      coherent : IsCoherent content IsOk size put
      coherent =
          hit_write-Coherent p (cur_offset l) (cur_sectors l) l.buffer l.pos i lp up bounds.some_cur
            bounds.in_page ends

      first : (l.self.entries p).base_sector + cur_offset l ≡ l.first_sector
      first = rw at bounds.split

      view_put :
          (s : ℕ)
          → s < size
          → view content put s ≡ (
              if in_range l.first_sector (cur_sectors l) s
              then l.buffer (l.pos + (s - l.first_sector))
              else view content l.self s)
      view_put s ls =
          hit_write-view p (cur_offset l) (cur_sectors l) l.buffer l.pos i lp up bounds.some_cur
            bounds.in_page ends s ls
          ∙ ap
              (λ f.
                if in_range f (cur_sectors l) s
                then l.buffer (l.pos + (s - f))
                else view content l.self s)
              first

  pub cache_hit-read :
      (a : Access)
      → a.is_write ≡ false
      → IsCoherent content IsOk size l.self
      → Moved content IsOk size false (cur_sectors l) l (cache_hit a l p)
  unfolding cache_hit
  cache_hit-read a w i = rw w (record {
    coherent = make_mru-Coherent p i lp up (is_whole l);
    page_shift = (make_mru-entries l.self p (is_whole l)).2;
    at_pos = refl;
    at_first = omega (arith, bounds.cur_le, i.small);
    left = omega (arith, bounds.cur_le);
    written = λ h. cc;
    same_buffer = λ h. cc;
    same_view = λ h s ls. make_mru-view p i lp up (is_whole l) s;
    got = λ h j. read_got j;
  })
    where
      bounds : CurBounds l size
      bounds = cur-bounds l i.pos some_num fits

      first : (l.self.entries p).base_sector + cur_offset l ≡ l.first_sector
      first = rw at bounds.split

      read_got :
          (j : ℕ)
          → hit_read l.self l.buffer l.pos p (cur_offset l) (cur_sectors l) j ≡ (
              if in_range l.pos (cur_sectors l) j
              then view content l.self (l.first_sector + (j - l.pos))
              else l.buffer j)
      read_got j =
          hit_read-view p i lp up l.buffer l.pos (cur_offset l) (cur_sectors l) j bounds.in_page
            (rw at bounds.in_disc)
          ∙ ap
              (λ f.
                if in_range l.pos (cur_sectors l) j
                then view content l.self (f + (j - l.pos))
                else l.buffer j)
              first
