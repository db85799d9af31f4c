-- ===== src/Cache/Ends.antt =====
-- The loop of `_dvmDiscCacheReadWrite` ends, whichever pages are cached and whatever the disc does.
use mathlib.Core.Option.{none-ne-some}
use mathlib.Core.Option
use native.Mathlib.Nat.{mod-lt, mod-le}
use libdvm.Base.{
  ℕ, zero, suc, ◌+◌, ◌-◌, ◌%◌, ◌≤◌, ◌<◌, ◌≡◌, refl, ◌∙◌, sym, ap, subst, inl, inr, Bool, true,
  false, not, ◌||◌, ◌≢◌, Option, none, some, ◌==◌, ltb, leb, arith, Bool-cases, Option-cases,
  if◌then◌else◌,
}
use libdvm.Base.Paging.{page_start-Aligned}
use libdvm.Base.Powers.{two_pow-pos}
use libdvm.Disc.{DvmDiscIface, ReadReply, WriteReply}
use libdvm.Disc.Memory.{Buf}
use libdvm.Cache.LoopRule.{locate-elim}
use libdvm.Cache.Types.{DvmDiscCache, page_sz, sec_mod}
use libdvm.Cache.Access.{Access, Loop, locate, seek, hit_write, make_mru, replace, victim}
use libdvm.Cache.ReadWrite.{
  Round, advance, cache_hit, cur_sectors, cur_page, cur_offset, is_whole, direct, direct_stop,
  through_cache, cache_miss, access_at, access_page, rw_loop, read_write, start,
}
use libdvm.Cache.Paged.{IsPaged, SamePages, SamePages-IsPaged, touched-SamePages, replace-IsPaged}

module _ {D : Type 0} where
  -- What a round leaves: fewer sectors, and pages that begin where they should.
  record Shorter (l : Loop D) (r : Round D) : Type 0 where
    paged : IsPaged r.loop.self
    fits : r.ok ≡ true → r.loop.first_sector + r.loop.num_sectors ≤ r.loop.self.num_sectors
    less : r.ok ≡ true → r.loop.num_sectors < l.num_sectors

  module _ (l : Loop D) (i : IsPaged l.self)
      (fits : l.first_sector + l.num_sectors ≤ l.self.num_sectors)
      (some_num : 0 < l.num_sectors) where
    cur-pos : (0 < cur_sectors l) × (cur_sectors l ≤ l.num_sectors)
    cur-pos = ground (arith, mod-lt l.first_sector (two_pow-pos l.self.page_shift))

    cache_hit-Shorter :
        (a : Access) (p : ℕ) → Shorter l (record { loop = cache_hit a l p; ok = true })
    unfolding cache_hit advance
    cache_hit-Shorter a p = record {
      paged = SamePages-IsPaged same i;
      fits = λ ok. omega (arith, i.small, cur-pos, same.num_sectors);
      less = λ ok. omega (arith, cur-pos);
    }
      where
        same : SamePages l.self (
            make_mru
              (if a.is_write
                then hit_write l.self l.buffer l.pos p (cur_offset l) (cur_sectors l)
                else l.self)
              p
              (is_whole l))
        same =
            touched-SamePages l.self l.buffer l.pos p (cur_offset l) (cur_sectors l) a.is_write
              (is_whole l)

    with_inner : (d : D) → IsPaged (record (l.self) { inner = d })
    with_inner d = record { small = i.small; word = i.word; on_page = i.on_page }

    module _ (vt : DvmDiscIface D) (a : Access) where
      moved-Shorter :
          (k : Loop D) (cur : ℕ) (ok : Bool)
          → 0 < cur
          → cur ≤ l.num_sectors
          → IsPaged k.self
          → k.self.num_sectors ≡ l.self.num_sectors
          → k.first_sector ≡ l.first_sector
          → k.num_sectors ≡ l.num_sectors
          → Shorter l (record { loop = if ok then advance k cur else k; ok = ok })
      unfolding advance
      moved-Shorter k cur true pos le paged sized first num = record {
        paged = paged;
        fits = λ ok. omega (arith, i.small);
        less = λ ok. omega arith;
      }
      moved-Shorter k cur false pos le paged sized first num = record {
        paged = paged;
        fits = λ ok. cc;
        less = λ ok. cc;
      }

      direct-Shorter :
          0 < (direct_stop l + sec_mod - l.first_sector) % sec_mod → Shorter l (direct vt a l)
      unfolding direct advance
      direct-Shorter behind =
          let max_cur = (direct_stop l + sec_mod - l.first_sector) % sec_mod in
          let cur : ℕ = if ltb l.num_sectors max_cur then l.num_sectors else max_cur in
          let bounds : (0 < cur) × (cur ≤ l.num_sectors) = ground arith in
          elim (Bool-cases a.is_write) [
            | inl w ↦ rw w (moved-Shorter _ cur _ bounds.0 bounds.1 (with_inner _) refl refl refl)
            | inr w ↦ rw w (moved-Shorter _ cur _ bounds.0 bounds.1 (with_inner _) refl refl refl)
          ]

      -- A run up to the next cached page, or to the end of the disc, has a sector at least.
      stop-behind :
          ((q : ℕ) → l.p ≡ some q → (l.self.entries q).base_sector ≢ cur_page l)
          → 0 < (direct_stop l + sec_mod - l.first_sector) % sec_mod
      stop-behind other = elim (Option-cases l.p) [
        | inl e ↦ rw e (omega (arith, i.small))
        | inr (q, e) ↦ rw e (ground (arith, i.small, i.word q, i.on_page q, other q e))
      ]

module _ {D : Type 0} (vt : DvmDiscIface D) where
  module _ (a : Access) (l : Loop D) (i : IsPaged l.self)
      (fits : l.first_sector + l.num_sectors ≤ l.self.num_sectors)
      (some_num : 0 < l.num_sectors) where
    through-Shorter : Shorter l (through_cache vt a l)
    unfolding through_cache
    through-Shorter =
        let need_load : Bool = not a.is_write || not (is_whole l) in
        let r : WriteReply (DvmDiscCache D) =
          replace vt l.self (victim l.self) (cur_page l) need_load in
        let (paged, same) =
          replace-IsPaged vt l.self (victim l.self) (cur_page l) need_load
            (omega (arith, i.small, mod-le l.first_sector (page_sz l.self)))
            (page_start-Aligned (page_sz l.self) l.first_sector (two_pow-pos l.self.page_shift))
            i in
        let l' : Loop D = record l { self = r.state; p = some (victim l.self) } in
        elim (Bool-cases r.ok) [
          | inr e ↦ rw e (record { paged = paged; fits = λ ok. cc; less = λ ok. cc })
          | inl e ↦
              let s = cache_hit-Shorter l' paged (omega (arith, same)) some_num a (victim l.self) in
              rw e (record { paged = s.paged; fits = s.fits; less = s.less })
        ]

    miss-Shorter :
        ((q : ℕ) → l.p ≡ some q → (l.self.entries q).base_sector ≢ cur_page l)
        → Shorter l (cache_miss vt a l)
    miss-Shorter other = elim (Bool-cases (a.is_partial || not a.is_aligned)) [
      | inl h ↦ rw h through-Shorter
      | inr h ↦
          rw h (direct-Shorter l i fits some_num vt a (stop-behind l i fits some_num vt a other))
    ]

    access_at-Shorter : (p : Option ℕ) → l.p ≡ p → Shorter l (access_at vt a l p)
    unfolding access_at
    access_at-Shorter none e = miss-Shorter (λ q e'. absurd (none-ne-some _ (sym e ∙ e')))
    access_at-Shorter (some q) e =
        elim (Bool-cases ((l.self.entries q).base_sector == cur_page l)) [
          | inl h ↦ rw h (cache_hit-Shorter l i fits some_num a q)
          | inr h ↦ rw h (
              miss-Shorter (λ q' e'.
                subst (λ k. (l.self.entries k).base_sector ≢ cur_page l)
                  (Option.some-injective _ _ (sym e ∙ e')) (ground arith)))
        ]

  round-Shorter :
      (a : Access) (l : Loop D)
      → IsPaged l.self
      → l.first_sector + l.num_sectors ≤ l.self.num_sectors
      → 0 < l.num_sectors
      → Shorter l (access_page vt a (locate l))
  unfolding access_page
  round-Shorter a l i fits some_num =
      locate-elim l (λ k. Shorter l (access_page vt a k))
        (λ le.
          let s = access_at-Shorter a (seek l) i fits some_num (seek l).p refl in
          record { paged = s.paged; fits = s.fits; less = s.less })
        (λ lt. access_at-Shorter a l i fits some_num l.p refl)

  loop-Ends :
      (a : Access) (fuel : ℕ) (l : Loop D)
      → l.num_sectors ≤ fuel
      → IsPaged l.self
      → l.first_sector + l.num_sectors ≤ l.self.num_sectors
      → (r : Round D) × (rw_loop vt fuel a l ≡ some r) × IsPaged r.loop.self
  unfolding rw_loop
  loop-Ends a zero l le i fits =
      let test : (l.num_sectors == 0) ≡ true = ground arith in
      (record { loop = l; ok = true }, rw test refl, i)
  loop-Ends a (suc fuel) l le i fits = elim (Bool-cases (l.num_sectors == 0)) [
    | inl e ↦ (record { loop = l; ok = true }, rw (rw_loop, e) refl, i)
    | inr e ↦
        let s = round-Shorter a l i fits (ground arith) in
        let k = access_page vt a (locate l) in
        elim (Bool-cases k.ok) [
          | inl ok ↦
              let (r, eq, paged) =
                loop-Ends a fuel k.loop (omega (arith, s.less ok)) s.paged (s.fits ok) in
              (r, rw (rw_loop, e, ok) eq, paged)
          | inr bad ↦ (
            k,
            rw (rw_loop, e)
                (ap (λ b. elim b [ true ↦ rw_loop vt fuel a k.loop | false ↦ some k ]) bad),
            s.paged,
          )
        ]
  ]

  -- Every access of a cache ends, whichever of its pages are cached, whatever the inner disc answers
  -- and whether or not the access is within the disc, and leaves the pages of the cache where they may
  -- begin: if they begin there before, at multiples of their size, and the number of a sector has 32
  -- bits.
  pub read_write-ends :
      (c : DvmDiscCache D) (b : Buf) (first n : ℕ) (a : Access)
      → IsPaged c
      → (r : ReadReply (DvmDiscCache D)) × (read_write vt c b first n a ≡ some r) × IsPaged r.state
  unfolding read_write
  read_write-ends c b first n a i = elim (Bool-cases (leb c.num_sectors first)) [
    | inl e ↦ (record { state = c; buf = b; ok = false }, rw e refl, i)
    | inr e ↦ elim (Bool-cases (ltb (c.num_sectors - first) n)) [
      | inl e' ↦ (record { state = c; buf = b; ok = false }, rw (e, e') refl, i)
      | inr e' ↦
          let (r, eq, paged) =
            loop-Ends (record a { is_partial = a.is_partial || ltb n (page_sz c) }) n
              (start c b first n) (omega arith) i (ground arith) in
          (
            record { state = r.loop.self; buf = r.loop.buffer; ok = r.ok },
            rw (e, e', eq) refl,
            paged,
          )
    ]
  ]
