-- ===== src/Cache/DirectLoop.antt =====
-- The loop of `_dvmDiscCacheReadWrite` for an access of whole pages from an aligned buffer.
use native.Mathlib.Nat.{mod-lt}
use libdvm.Base.{
  ℕ, ◌+◌, ◌≤◌, ◌<◌, ◌≡◌, sym, ◌∙◌, ap, subst, inl, inr, true, false, not, none, some, arith, ◌==◌,
  ◌||◌, Bool-cases, Option-cases,
}
use libdvm.Base.Paging.{Aligned-gap, page_start-Aligned}
use libdvm.Disc.{DvmDiscIface, DiscLaws}
use libdvm.Disc.Memory.{Sector}
use libdvm.Cache.Types.{page_sz}
use libdvm.Cache.Order.{Nearest}
use libdvm.Cache.Access.{Access, Loop, locate, seek}
use libdvm.Cache.Invariant.{IsCoherent}
use libdvm.Cache.HitStep.{cur-bounds}
use libdvm.Cache.Direct.{run, Directed, direct-Directed}
use libdvm.Cache.Gap.{NoneIn}
use libdvm.Cache.LoopRule.{
  Transferred, RoundOk, Transferred-locate, locate-elim, rw_loop-Transferred,
}
use libdvm.Cache.ReadWrite.{
  Round, access_page, access_at, cache_hit, cache_miss, direct, direct_stop, cur_page, cur_sectors,
  rw_loop,
}
use libdvm.Cache.Locate.{
  IsLocated, IsReady, cache_hit-Moved, cache_hit-base, far-IsLocated, next_page, page_first,
  seek-IsLocated,
}

module _ {D : Type 0} {vt : DvmDiscIface D} {content : D → ℕ → Sector} {IsOk : D → Type 0}
    {size : ℕ} (laws : DiscLaws vt size content IsOk) (a : Access)
    (whole : (a.is_partial || not a.is_aligned) ≡ false) (l : Loop D)
    (i : IsCoherent content IsOk size l.self) (fits : l.first_sector + l.num_sectors ≤ size)
    (some_num : 0 < l.num_sectors) where
  direct-round :
      (stop : ℕ) (ahead : l.first_sector < stop) (stop_in : stop ≤ size)
      (none_in : NoneIn l.self.entries l.self.pages (cur_page l) stop)
      → direct_stop l ≡ stop
      → (Directed laws l i fits stop ahead stop_in none_in a.is_write (direct vt a l)
          → (direct vt a l).ok ≡ true
          → 0 < (direct vt a l).loop.num_sectors
          → IsReady (direct vt a l).loop)
      → RoundOk content IsOk size a.is_write IsReady l (cache_miss vt a l)
  direct-round stop ahead stop_in none_in at_stop next = rw whole (record {
    cur = run laws l i fits stop ahead stop_in none_in;
    some_cur = ground arith;
    did = record { moved = d.moved; aborted = d.aborted };
    next = next d;
  })
    where
      d : Directed laws l i fits stop ahead stop_in none_in a.is_write (direct vt a l)
      d = direct-Directed laws l i fits stop ahead stop_in none_in a at_stop

  -- No page from the one of the access on is cached.
  round-none :
      l.p ≡ none
      → Nearest l.self.entries l.self.pages (cur_page l) none
      → RoundOk content IsOk size a.is_write IsReady l (access_at vt a l none)
  unfolding access_at
  round-none e far =
      direct-round size (omega arith) (omega arith)
        (λ q lq uq le. absurd (ground (arith, far q lq uq)))
        (ap (λ p. elim p [ none ↦ l.self.num_sectors | some q ↦ (l.self.entries q).base_sector ]) e
          ∙ i.sized)
        (λ d ok left. absurd (ground (arith, (d.moved ok).left)))

  round-some :
      (q : ℕ)
      → l.p ≡ some q
      → Nearest l.self.entries l.self.pages (cur_page l) (some q)
      → l.search_base ≡ (l.self.entries q).base_sector + 1
      → RoundOk content IsOk size a.is_write IsReady l (access_at vt a l (some q))
  unfolding access_at
  round-some q e (lq, uq, ge, least) base =
      elim (Bool-cases ((l.self.entries q).base_sector == cur_page l)) [
        | inl hit ↦
            let at : (l.self.entries q).base_sector ≡ cur_page l = ground arith in
            let m = cache_hit-Moved a l q i fits some_num lq uq at in
            rw hit (record {
              cur = cur_sectors l;
              some_cur = (cur-bounds l i.pos some_num fits).some_cur;
              did = record { moved = λ ok. m; aborted = λ bad. cc };
              next = λ ok left. inl (
                  omega (
                    arith,
                    next_page a.is_write l (cache_hit a l q) i.pos fits some_num m left,
                    cache_hit-base a l q i fits some_num lq uq at,
                    base,
                    i.pos,
                  ));
            })
        | inr miss ↦
            let far : cur_page l < (l.self.entries q).base_sector = ground arith in
            let gap =
              Aligned-gap (page_sz l.self) (cur_page l) (l.self.entries q).base_sector i.pos
                (page_start-Aligned (page_sz l.self) l.first_sector i.pos)
                (i.entry_ok q lq uq).aligned far in
            let ahead : l.first_sector < (l.self.entries q).base_sector =
              omega (
                arith,
                gap,
                (cur-bounds l i.pos some_num fits).split,
                mod-lt l.first_sector i.pos,
              ) in
            rw miss (
              direct-round (l.self.entries q).base_sector ahead
                (omega (arith, (i.entry_ok q lq uq).in_disc)) (λ r lr ur le. least r lr ur le)
                (ap
                  (λ p. elim p [
                    | none ↦ l.self.num_sectors
                    | some q ↦ (l.self.entries q).base_sector
                  ])
                  e)
                (λ d ok left.
                  let m = d.moved ok in
                  let first : (direct vt a l).loop.first_sector ≡ (l.self.entries q).base_sector =
                    ground (arith, m.at_first, m.left) in
                  inr (
                    far-IsLocated l (direct vt a l).loop q e (lq, uq, ge, least) base d.same_p
                      d.same_base d.same_entries d.same_pages
                      (page_first (direct vt a l).loop (l.self.entries q).base_sector
                        l.self.page_shift m.page_shift first (i.entry_ok q lq uq).aligned i.pos))))
      ]

  -- A round.
  pub direct-RoundOk :
      IsLocated l → RoundOk content IsOk size a.is_write IsReady l (access_page vt a l)
  unfolding access_page
  direct-RoundOk loc = elim (Option-cases l.p) [
    | inl e ↦
        subst (λ p. RoundOk content IsOk size a.is_write IsReady l (access_at vt a l p)) (sym e)
          (round-none e
            (subst (λ p. Nearest l.self.entries l.self.pages (cur_page l) p) e loc.nearest))
    | inr (q, e) ↦
        subst (λ p. RoundOk content IsOk size a.is_write IsReady l (access_at vt a l p)) (sym e)
          (round-some q e
            (subst (λ p. Nearest l.self.entries l.self.pages (cur_page l) p) e loc.nearest)
            (loc.base q e))
  ]

module _ {D : Type 0} {vt : DvmDiscIface D} {content : D → ℕ → Sector} {IsOk : D → Type 0}
    {size : ℕ} (laws : DiscLaws vt size content IsOk) (a : Access)
    (whole : (a.is_partial || not a.is_aligned) ≡ false) where
  locate-RoundOk :
      (l : Loop D)
      → IsReady l
      → IsCoherent content IsOk size l.self
      → l.first_sector + l.num_sectors ≤ size
      → 0 < l.num_sectors
      → RoundOk content IsOk size a.is_write IsReady l (access_page vt a (locate l))
  locate-RoundOk l ready i fits some_num =
      let s =
        locate-elim l (λ k. RoundOk content IsOk size a.is_write IsReady k (access_page vt a k))
          (λ low.
            direct-RoundOk laws a whole (seek l) i fits some_num
              (seek-IsLocated l i (omega (arith, i.small))))
          (λ high.
            direct-RoundOk laws a whole l i fits some_num
              (elim ready [ inl low ↦ absurd (omega arith) | inr done ↦ done ])) in
      record { cur = s.cur; some_cur = s.some_cur; did = Transferred-locate l s.did; next = s.next }

  -- The loop of an access of whole pages from an aligned buffer.
  pub direct_loop :
      (fuel : ℕ) (l : Loop D)
      → l.num_sectors ≤ fuel
      → IsReady l
      → IsCoherent content IsOk size l.self
      → l.first_sector + l.num_sectors ≤ size
      → (r : Round D) × (rw_loop vt fuel a l ≡ some r)
        × Transferred content IsOk size a.is_write l.num_sectors l r
  direct_loop fuel l le ready i fits =
      rw_loop-Transferred vt a IsReady locate-RoundOk fuel l le (λ h. ready) i fits
