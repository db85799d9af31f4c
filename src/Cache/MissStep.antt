-- ===== src/Cache/MissStep.antt =====
-- The round of the loop of `_dvmDiscCacheReadWrite` that replaces an entry and ends in `_cacheHit`.
use native.Mathlib.Nat.{mod-lt, mod-le}
use libdvm.Base.{
  ℕ, ◌+◌, ◌-◌, ◌%◌, ◌^◌, ◌≤◌, ◌<◌, ◌≡◌, refl, sym, ◌∙◌, ap, subst, ◌⊎◌, inl, inr, ◌≢◌, Bool, true,
  false, not, some, arith, ltb, ◌||◌, if◌then◌else◌, Bool-cases,
}
use libdvm.Base.Paging.{page_start, page_start-Aligned}
use libdvm.Disc.{DvmDiscIface, DiscLaws, WriteReply}
use libdvm.Disc.Memory.{Sector, in_range}
use libdvm.Cache.Types.{DvmDiscCache, page_sz}
use libdvm.Cache.Order.{IsUsed}
use libdvm.Cache.Victim.{IsBorder, victim-IsBorder, border-lt}
use libdvm.Cache.Access.{Access, Loop, hit_write, make_mru, victim, replace}
use libdvm.Cache.Invariant.{IsCoherent}
use libdvm.Cache.View.{view}
use libdvm.Cache.Hit.{part}
use libdvm.Cache.Moved.{Moved}
use libdvm.Cache.Replace.{replace-Replaced}
use libdvm.Cache.Load.{Replaced, unloaded, weaken}
use libdvm.Cache.HitStep.{CurBounds, cur-bounds, cache_hit-write, cache_hit-read}
use libdvm.Cache.LoopRule.{Transferred}
use libdvm.Cache.ReadWrite.{
  Round, cache_hit, advance, through_cache, cur_page, cur_sectors, cur_offset, is_whole,
}

-- An access to a cached page leaves every entry its page.
pub cache_hit-frame :
    {D : Type 0} (a : Access) (l : Loop D) (p : ℕ)
    → ((q : ℕ) → ((cache_hit a l p).self.entries q).base_sector ≡ (l.self.entries q).base_sector)
      × ((cache_hit a l p).self.pages ≡ l.self.pages)
      × ((cache_hit a l p).p ≡ some p)
unfolding cache_hit hit_write make_mru advance
cache_hit-frame a l p = (λ q. ground arith, ground arith, refl)

-- A round that failed: the loop stands where it stood, and neither the buffer nor the disc that the cache
-- stands for has changed.
pub record Unmoved {D : Type 0} (content : D → ℕ → Sector) (IsOk : D → Type 0) (size : ℕ)
    (l l' : Loop D) : Type 0 where
  pub coherent : IsCoherent content IsOk size l'.self
  pub buffer : (j : ℕ) → l'.buffer j ≡ l.buffer j
  pub sectors : (s : ℕ) → s < size → view content l'.self s ≡ view content l.self s
  pub at_pos : l'.pos ≡ l.pos
  pub at_first : l'.first_sector ≡ l.first_sector
  pub left : l'.num_sectors ≡ l.num_sectors

-- What a replacement and the access behind it leave.
pub record Missed {D : Type 0} (content : D → ℕ → Sector) (IsOk : D → Type 0) (size : ℕ) (w : Bool)
    (l : Loop D) (v : ℕ) (r : Round D) : Type 0 where
  pub did : Transferred content IsOk size w (cur_sectors l) l r
  pub failed : r.ok ≡ false → Unmoved content IsOk size l r.loop
  pub holds : r.ok ≡ true → (r.loop.self.entries v).base_sector ≡ cur_page l
  pub others :
      r.ok ≡ true
      → (q : ℕ) → q ≢ v
      → (r.loop.self.entries q).base_sector ≡ (l.self.entries q).base_sector
  pub pages : r.ok ≡ true → r.loop.self.pages ≡ l.self.pages
  pub at_p : r.ok ≡ true → r.loop.p ≡ some v

module _ {D : Type 0} {vt : DvmDiscIface D} {content : D → ℕ → Sector} {IsOk : D → Type 0}
    {size : ℕ} (laws : DiscLaws vt size content IsOk) (a : Access) (l : Loop D)
    (i : IsCoherent content IsOk size l.self) (fits : l.first_sector + l.num_sectors ≤ size)
    (some_num : 0 < l.num_sectors)
    (free : (q : ℕ) → q < l.self.pages → (l.self.entries q).base_sector ≢ cur_page l) where
  abbrev need_load : Bool
  need_load = not a.is_write || not (is_whole l)

  abbrev replaced : WriteReply (DvmDiscCache D)
  replaced = replace vt l.self (victim l.self) (cur_page l) need_load

  bounds : CurBounds l size
  bounds = cur-bounds l i.pos some_num fits

  border : IsBorder l.self.entries l.self.order (victim l.self)
  unfolding victim
  border = victim-IsBorder i.ordered i.some_page

  victim-lt : victim l.self < l.self.pages
  victim-lt = border-lt i.ordered border

  after : Replaced content IsOk size l.self (victim l.self) (cur_page l) need_load replaced
  after =
      replace-Replaced laws i (victim l.self) (cur_page l) victim-lt border
        (page_start-Aligned (page_sz l.self) l.first_sector i.pos)
        (omega (arith, bounds.split, bounds.in_disc, bounds.some_cur)) free need_load

  -- The loop at `_cacheHit`.
  abbrev at_hit : Loop D
  at_hit = record l { self = replaced.state; p = some (victim l.self) }

  same_cur :
      (cur_sectors at_hit ≡ cur_sectors l)
      × (cur_offset at_hit ≡ cur_offset l)
      × (cur_page at_hit ≡ cur_page l)
      × (page_sz replaced.state ≡ page_sz l.self)
  same_cur =
      let num : ℕ = l.num_sectors in
      let first : ℕ = l.first_sector in
      let e = after.same.page_shift in
      (
        ap (λ k. if ltb num (2 ^ k - first % 2 ^ k) then num else 2 ^ k - first % 2 ^ k) e,
        ap (λ k. first % 2 ^ k) e,
        ap (λ k. page_start (2 ^ k) first) e,
        ap (λ k. 2 ^ k) e,
      )

  -- The sectors of a page that was not loaded are all written.
  kept_outside :
      (s : ℕ)
      → s < size
      → (in_range l.first_sector (cur_sectors l) s ≡ false) ⊎ (a.is_write ≡ false)
      → view content replaced.state s ≡ view content l.self s
  kept_outside s ls h = after.keeps s ls (elim (Bool-cases need_load) [
    | inl e ↦ inl e
    | inr e ↦ inr (λ at.
        ground (
          arith,
          mod-lt s i.pos,
          mod-le s (page_sz l.self),
          mod-le l.first_sector (page_sz l.self),
        ))
  ])

  -- Where the replacement succeeded.
  module _ (ok : replaced.ok ≡ true) where
    at_hit-lt : victim l.self < replaced.state.pages
    at_hit-lt = omega (arith, victim-lt, after.same.pages)

    at_hit-base : (replaced.state.entries (victim l.self)).base_sector ≡ cur_page at_hit
    at_hit-base = after.holds ok ∙ sym (same_cur.2)

    at_hit-IsUsed : IsUsed replaced.state.entries (victim l.self)
    at_hit-IsUsed e =
        ground (arith, after.holds ok, i.small, bounds.split, bounds.in_disc, bounds.some_cur)

    -- What was not loaded will be written.
    will_write :
        (q o : ℕ)
        → o < page_sz replaced.state
        → part (victim l.self) (cur_offset at_hit) (cur_sectors at_hit) q o ≡ false
        → unloaded (victim l.self) need_load q o ≡ false
    will_write q o lo h = elim (Bool-cases need_load) [
      | inl e ↦ ground (arith, e)
      | inr e ↦
          let all : (cur_offset l ≡ 0) × (cur_sectors l ≡ page_sz l.self) = ground arith in
          ground (arith, same_cur, all)
    ]

    hit-Moved :
        Moved content IsOk size a.is_write
          (cur_sectors at_hit)
          at_hit
          (cache_hit a at_hit (victim l.self))
    hit-Moved = elim (Bool-cases a.is_write) [
      | inl w ↦
          subst
            (λ x.
              Moved content IsOk size x (cur_sectors at_hit) at_hit
                (cache_hit a at_hit (victim l.self)))
            (sym w)
            (cache_hit-write at_hit (victim l.self) at_hit-lt at_hit-IsUsed at_hit-base some_num
              fits a w (weaken (after.coherent ok) will_write))
      | inr w ↦
          subst
            (λ x.
              Moved content IsOk size x (cur_sectors at_hit) at_hit
                (cache_hit a at_hit (victim l.self)))
            (sym w)
            (cache_hit-read at_hit (victim l.self) at_hit-lt at_hit-IsUsed at_hit-base some_num fits
              a w (weaken (after.coherent ok) (λ q o lo h. ground arith)))
    ]

    written_same :
        (s : ℕ)
        → s < size
        → (if in_range l.first_sector (cur_sectors l) s
            then l.buffer (l.pos + (s - l.first_sector))
            else view content replaced.state s)
          ≡ (if in_range l.first_sector (cur_sectors l) s
              then l.buffer (l.pos + (s - l.first_sector))
              else view content l.self s)
    written_same s ls = elim (Bool-cases (in_range l.first_sector (cur_sectors l) s)) [
      | inl e ↦ rw e refl
      | inr e ↦ rw e (kept_outside s ls (inl e))
    ]

    got_same :
        a.is_write ≡ false
        → (j : ℕ)
        → (if in_range l.pos (cur_sectors l) j
            then view content replaced.state (l.first_sector + (j - l.pos))
            else l.buffer j)
          ≡ (if in_range l.pos (cur_sectors l) j
              then view content l.self (l.first_sector + (j - l.pos))
              else l.buffer j)
    got_same w j = elim (Bool-cases (in_range l.pos (cur_sectors l) j)) [
      | inl e ↦
          rw e (kept_outside (l.first_sector + (j - l.pos)) (ground (arith, bounds.cur_le)) (inr w))
      | inr e ↦ rw e refl
    ]

    -- The same as a step from before the replacement.
    miss-Moved :
        Moved content IsOk size a.is_write (cur_sectors l) l (cache_hit a at_hit (victim l.self))
    miss-Moved =
        let m =
          subst
            (λ n. Moved content IsOk size a.is_write n at_hit (cache_hit a at_hit (victim l.self)))
            same_cur.0 hit-Moved in
        record {
          coherent = m.coherent;
          page_shift = m.page_shift ∙ after.same.page_shift;
          at_pos = m.at_pos;
          at_first = m.at_first;
          left = m.left;
          written = λ w s ls. m.written w s ls ∙ written_same s ls;
          same_buffer = m.same_buffer;
          same_view = λ w s ls. m.same_view w s ls ∙ kept_outside s ls (inr w);
          got = λ w j. m.got w j ∙ got_same w j;
        }

  -- A round that goes through the cache moves the sectors of its page between the buffer and the
  -- disc that the cache stands for, gives the page to the victim and leaves the pages of the other
  -- entries. One that fails leaves the loop where it stands, the buffer, and the disc that the cache
  -- stands for: in a coherent cache without the page.
  pub through_cache-Missed :
      Missed content IsOk size a.is_write l (victim l.self) (through_cache vt a l)
  unfolding through_cache
  through_cache-Missed = elim (Bool-cases replaced.ok) [
    | inr bad ↦ rw bad (record {
      did = record {
        moved = λ ok. cc;
        aborted = λ h. record {
          coherent = after.failed bad;
          page_shift = after.same.page_shift;
          off_range = λ s ls out. after.failed_keeps bad s ls;
          same_view = λ w. after.failed_keeps bad;
          off_buffer = λ j out. refl;
        };
      };
      failed = λ h. record {
        coherent = after.failed bad;
        buffer = λ j. refl;
        sectors = after.failed_keeps bad;
        at_pos = refl;
        at_first = refl;
        left = refl;
      };
      holds = λ ok. cc;
      others = λ ok. cc;
      pages = λ ok. cc;
      at_p = λ ok. cc;
    })
    | inl good ↦
        let frame = cache_hit-frame a at_hit (victim l.self) in
        rw good (record {
          did = record { moved = λ ok. miss-Moved good; aborted = λ h. cc };
          failed = λ h. cc;
          holds = λ ok. frame.0 (victim l.self) ∙ after.holds good;
          others = λ ok q ne. frame.0 q ∙ after.same.bases q ne;
          pages = λ ok. frame.1 ∙ after.same.pages;
          at_p = λ ok. frame.2;
        })
  ]
