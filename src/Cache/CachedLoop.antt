-- ===== src/Cache/CachedLoop.antt =====
-- The loop of `_dvmDiscCacheReadWrite` for a partial access or one from a misaligned buffer.
use libdvm.Base.{
  ℕ, ◌+◌, ◌^◌, ◌≤◌, ◌<◌, ◌≡◌, sym, ◌∙◌, ap, subst, inl, inr, ◌≢◌, true, not, none, some, arith,
  ◌==◌, ◌||◌, ==_false, Option-cases, ℕ_discrete,
}
use libdvm.Base.Paging.{Aligned}
use libdvm.Disc.{DvmDiscIface, DiscLaws}
use libdvm.Disc.Memory.{Sector}
use libdvm.Cache.Types.{Entries, page_sz}
use libdvm.Cache.Order.{IsUsed}
use libdvm.Cache.Access.{Access, Loop, locate, seek, victim}
use libdvm.Cache.Invariant.{IsCoherent}
use libdvm.Cache.HitStep.{cur-bounds}
use libdvm.Cache.MissStep.{cache_hit-frame, Missed, through_cache-Missed}
use libdvm.Cache.Locate.{next_page, cache_hit-Moved, cache_hit-base}
use libdvm.Cache.LoopRule.{
  Transferred, RoundOk, Transferred-locate, locate-elim, rw_loop-Transferred,
}
use libdvm.Cache.ReadWrite.{
  Round, access_page, access_at, cache_hit, cache_miss, through_cache, cur_page, cur_sectors,
  rw_loop,
}
use libdvm.Cache.Settled.{HitsFirst, IsAnswered, IsHit, IsMiss, IsSettled, seek_answer}

-- What is cached first stays so behind the first page.
HitsFirst-later :
    (es es' : Entries) {pages pages' n n' lo lo' hi : ℕ}
    → HitsFirst es pages n lo hi
    → ((q : ℕ) → (es' q).base_sector ≡ (es q).base_sector)
    → pages' ≡ pages
    → n' ≡ n
    → lo ≤ lo'
    → HitsFirst es' pages' n' lo' hi
HitsFirst-later es es' {n} first same eq en le q page lq uq near low high aligned =
    let (r, lr, at) =
      first q page (omega (arith, eq)) (λ e. uq (same q ∙ e)) (omega (arith, same q))
        (omega (arith, le)) (omega (arith, same q)) (subst (λ k. Aligned k page) en aligned) in
    (r, omega (arith, eq), same r ∙ at)

module _ {D : Type 0} {vt : DvmDiscIface D} {content : D → ℕ → Sector} {IsOk : D → Type 0}
    {size : ℕ} (laws : DiscLaws vt size content IsOk) (a : Access)
    (partial : (a.is_partial || not a.is_aligned) ≡ true) (stop : ℕ) (l : Loop D)
    (i : IsCoherent content IsOk size l.self) (fits : l.first_sector + l.num_sectors ≤ size)
    (some_num : 0 < l.num_sectors) (ends : l.first_sector + l.num_sectors ≡ stop) where
  hit_round :
      (q : ℕ)
      → IsHit stop l q
      → RoundOk content IsOk size a.is_write (IsSettled stop) l (access_at vt a l (some q))
  unfolding access_at
  hit_round q (e, lq, at, base, first) =
      let used : IsUsed l.self.entries q =
        ground (arith, i.small, (cur-bounds l i.pos some_num fits).split) in
      let m = cache_hit-Moved a l q i fits some_num lq used at in
      let frame = cache_hit-frame a l q in
      let test : ((l.self.entries q).base_sector == cur_page l) ≡ true = ground arith in
      rw test (record {
        cur = cur_sectors l;
        some_cur = (cur-bounds l i.pos some_num fits).some_cur;
        did = record { moved = λ ok. m; aborted = λ bad. cc };
        next = λ ok left.
            let next = next_page a.is_write l (cache_hit a l q) i.pos fits some_num m left in
            (
              omega (arith, m.at_first, m.left),
              inl (
                omega (arith, next, cache_hit-base a l q i fits some_num lq used at, base, i.pos),
                HitsFirst-later l.self.entries (cache_hit a l q).self.entries first frame.0 frame.1
                    (ap (λ k. 2 ^ k) m.page_shift) (omega (arith, next)),
              ),
            );
      })

  miss_round :
      IsMiss stop l → RoundOk content IsOk size a.is_write (IsSettled stop) l (cache_miss vt a l)
  miss_round (none_in, behind) = rw partial (record {
    cur = cur_sectors l;
    some_cur = (cur-bounds l i.pos some_num fits).some_cur;
    did = missed.did;
    next = λ ok left.
        let m = missed.did.moved ok in
        let next = next_page a.is_write l (through_cache vt a l).loop i.pos fits some_num m left in
        (
          omega (arith, m.at_first, m.left),
          inr (
            λ q lq uq le. later ok next q lq uq le (ℕ_discrete q (victim l.self)),
            λ q e. ground (arith, missed.at_p ok, missed.holds ok, i.pos),
          ),
        );
  })
    where
      missed : Missed content IsOk size a.is_write l (victim l.self) (through_cache vt a l)
      missed = through_cache-Missed laws a l i fits some_num (λ q lq at.
          ground (arith, none_in q lq, i.small, (cur-bounds l i.pos some_num fits).split))

      later :
          (through_cache vt a l).ok ≡ true
          → cur_page (through_cache vt a l).loop ≡ cur_page l + page_sz l.self
          → (q : ℕ) → q < (through_cache vt a l).loop.self.pages
          → IsUsed (through_cache vt a l).loop.self.entries q
          → cur_page (through_cache vt a l).loop
            ≤ ((through_cache vt a l).loop.self.entries q).base_sector
          → Dec (q ≡ victim l.self)
          → stop ≤ ((through_cache vt a l).loop.self.entries q).base_sector
      later ok next q lq uq le (yes e) = absurd (ground (arith, missed.holds ok, i.pos))
      later ok next q lq uq le (no ne) =
          ground (arith, none_in q, missed.others ok q ne, missed.pages ok)

  answered_round :
      IsAnswered stop l
      → RoundOk content IsOk size a.is_write (IsSettled stop) l (access_page vt a l)
  unfolding access_page access_at
  answered_round (ends, inl (q, hit)) =
      subst (λ p. RoundOk content IsOk size a.is_write (IsSettled stop) l (access_at vt a l p))
        (sym hit.0) (hit_round q hit)
  answered_round (ends, inr miss) = elim (Option-cases l.p) [
    | inl e ↦
        subst (λ p. RoundOk content IsOk size a.is_write (IsSettled stop) l (access_at vt a l p))
          (sym e) (none_round miss)
    | inr (q, e) ↦
        subst (λ p. RoundOk content IsOk size a.is_write (IsSettled stop) l (access_at vt a l p))
          (sym e) (other_round q (miss.1 q e) miss)
  ]
    where
      none_round :
          IsMiss stop l
          → RoundOk content IsOk size a.is_write (IsSettled stop) l (access_at vt a l none)
      none_round miss = miss_round miss

      other_round :
          (q : ℕ)
          → (l.self.entries q).base_sector ≢ cur_page l
          → IsMiss stop l
          → RoundOk content IsOk size a.is_write (IsSettled stop) l (access_at vt a l (some q))
      other_round q ne miss =
          rw (==_false (l.self.entries q).base_sector (cur_page l) ne) (miss_round miss)

module _ {D : Type 0} {vt : DvmDiscIface D} {content : D → ℕ → Sector} {IsOk : D → Type 0}
    {size : ℕ} (laws : DiscLaws vt size content IsOk) (a : Access)
    (partial : (a.is_partial || not a.is_aligned) ≡ true) (stop : ℕ) where
  IsSettled-RoundOk :
      (l : Loop D)
      → IsSettled stop l
      → IsCoherent content IsOk size l.self
      → l.first_sector + l.num_sectors ≤ size
      → 0 < l.num_sectors
      → RoundOk content IsOk size a.is_write (IsSettled stop) l (access_page vt a (locate l))
  IsSettled-RoundOk l (ends, settled) i fits some_num =
      let s =
        locate-elim l
          (λ k. RoundOk content IsOk size a.is_write (IsSettled stop) k (access_page vt a k))
          (λ low. answered_round laws a partial stop (seek l) i fits some_num ends (
            seek_answer stop l i fits some_num ends
              (elim settled [ inl first ↦ inl (first.1) | inr done ↦ inr (done.0) ])))
          (λ high. answered_round laws a partial stop l i fits some_num ends (
            ends,
            inr (elim settled [
              | inl first ↦ absurd (omega (arith, first.0))
              | inr done ↦ (done.0, λ q e at. ground (arith, done.1 q e))
            ]),
          )) in
      record { cur = s.cur; some_cur = s.some_cur; did = Transferred-locate l s.did; next = s.next }

  -- The loop of a partial access or one from a misaligned buffer.
  pub cached_loop :
      (fuel : ℕ) (l : Loop D)
      → l.num_sectors ≤ fuel
      → IsSettled stop l
      → IsCoherent content IsOk size l.self
      → l.first_sector + l.num_sectors ≤ size
      → (r : Round D) × (rw_loop vt fuel a l ≡ some r)
        × Transferred content IsOk size a.is_write l.num_sectors l r
  cached_loop fuel l le settled i fits =
      rw_loop-Transferred vt a (IsSettled stop) IsSettled-RoundOk fuel l le (λ h. settled) i fits
