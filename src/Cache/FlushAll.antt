-- ===== src/Cache/FlushAll.antt =====
-- What `_dvmDiscCacheFlush` does to a coherent cache.
use native.Mathlib.Nat.{mod-lt, mod-le}
use libdvm.Base.{
  ℕ, ◌+◌, ◌%◌, ◌≤◌, ◌<◌, ◌≡◌, refl, sym, ◌∙◌, ap, subst, inl, inr, Bool, true, false, List, [], ◌∷◌,
  ◌++◌, arith, ◌==◌, ◌&&◌,
}
use libdvm.Base.Paging.{page_start}
use libdvm.Base.Members.{has}
use libdvm.Disc.{DvmDiscIface, DiscLaws, WriteReply}
use libdvm.Disc.Memory.{Sector}
use libdvm.Cache.Types.{DvmDiscCache, page_sz, empty_page}
use libdvm.Cache.Order.{IsUsed, has-used, used-lt}
use libdvm.Cache.Invariant.{IsCoherent}
use libdvm.Cache.Pages.{IsUsed-of_page}
use libdvm.Cache.View.{view, holder-cases, view-cached, view-uncached}
use libdvm.Cache.FlushEntry.{entry_flush-Flushed}
use libdvm.Cache.Gap.{inner-Coherent, inner-view}
use libdvm.Cache.Flush.{entry_flush, flush_from, cache_flush}

-- What flushes of the entries `us` leave.
record AllFlushed {D : Type 0} (content : D → ℕ → Sector) (IsOk : D → Type 0) (size : ℕ)
    (c : DvmDiscCache D) (us : List ℕ) (ret : Bool) (r : WriteReply (DvmDiscCache D)) : Type 0 where
  coherent : IsCoherent content IsOk size r.state
  pages : r.state.pages ≡ c.pages
  bases : (q : ℕ) → (r.state.entries q).base_sector ≡ (c.entries q).base_sector
  keeps : (a : ℕ) → a < size → view content r.state a ≡ view content c a
  less : (q : ℕ) → (r.state.entries q).dirty_end ≤ (c.entries q).dirty_end
  clean : r.ok ≡ true → (q : ℕ) → has q us ≡ true → (r.state.entries q).dirty_end ≡ 0
  still : r.ok ≡ true → ret ≡ true

-- A flush of an entry makes no sector dirty.
entry_flush-less :
    {D : Type 0} (vt : DvmDiscIface D) (c : DvmDiscCache D) (p q : ℕ)
    → ((entry_flush vt c p).state.entries q).dirty_end ≤ (c.entries q).dirty_end
unfolding entry_flush
entry_flush-less vt c p q = ground arith

module _ {D : Type 0} {vt : DvmDiscIface D} {content : D → ℕ → Sector} {IsOk : D → Type 0}
    {size : ℕ} (laws : DiscLaws vt size content IsOk) where
  flush_from-empty :
      (rest : List ℕ) (c : DvmDiscCache D) (ret : Bool)
      → ((q : ℕ) → has q rest ≡ true → (c.entries q).base_sector ≡ empty_page)
      → flush_from vt rest c ret ≡ record { state = c; ok = ret }
  unfolding flush_from
  flush_from-empty [] c ret v = refl
  flush_from-empty (p ∷ ps) c ret v =
      let test : ((c.entries p).base_sector == empty_page) ≡ true = ground (arith, v p) in
      rw test refl

  -- The loop flushes the used entries, which stand first.
  flush_from-AllFlushed :
      (us rest : List ℕ) (c : DvmDiscCache D) (ret : Bool)
      → IsCoherent content IsOk size c
      → ((q : ℕ) → has q us ≡ true → (q < c.pages) × IsUsed c.entries q)
      → ((q : ℕ) → has q rest ≡ true → (c.entries q).base_sector ≡ empty_page)
      → AllFlushed content IsOk size c us ret (flush_from vt (us ++ rest) c ret)
  unfolding flush_from
  flush_from-AllFlushed [] rest c ret i f v = rw (flush_from-empty rest c ret v) (record {
    coherent = i;
    pages = refl;
    bases = λ q. refl;
    keeps = λ a la. refl;
    less = λ q. omega arith;
    clean = λ ok q h. cc;
    still = λ ok. ok;
  })
  flush_from-AllFlushed (p ∷ us) rest c ret i f v =
      let test : ((c.entries p).base_sector == empty_page) ≡ false = ground (arith, f p) in
      let e = entry_flush-Flushed laws i p ((f p (ground arith)).0) in
      let t =
        flush_from-AllFlushed us rest (entry_flush vt c p).state (ret && (entry_flush vt c p).ok)
          e.coherent (λ q h. ground (arith, f q, e.frame.bases q, e.frame.pages))
          (λ q h. e.frame.bases q ∙ v q h) in
      rw test (record {
        coherent = t.coherent;
        pages = t.pages ∙ e.frame.pages;
        bases = λ q. t.bases q ∙ e.frame.bases q;
        keeps = λ a la. t.keeps a la ∙ e.keeps a la;
        less = λ q. omega (arith, t.less q, entry_flush-less vt c p q);
        clean = λ ok q h. ground (arith, t.clean ok q, t.less q, e.clean, t.still ok);
        still = λ ok. ground (arith, t.still ok);
      })

-- A coherent cache without a dirty sector stands for its inner disc.
view-all_clean :
    {D : Type 0} {content : D → ℕ → Sector} {IsOk : D → Type 0} {size : ℕ} (c : DvmDiscCache D)
    → IsCoherent content IsOk size c
    → ((q : ℕ) → q < c.pages → IsUsed c.entries q → (c.entries q).dirty_end ≡ 0)
    → (a : ℕ) → a < size
    → view content c a ≡ content c.inner a
view-all_clean {content} c i tidy a la =
    elim (holder-cases c.pages c.entries (page_start (page_sz c) a)) [
      | inl (q, lq, at) ↦
          let used = IsUsed-of_page i q a la at in
          let here : (c.entries q).base_sector + a % page_sz c ≡ a =
            ground (arith, mod-le a (page_sz c)) in
          view-cached content c a q i lq la at
          ∙ i.clean q (a % page_sz c) lq used (mod-lt a i.pos) (omega (arith, here))
              (omega (arith, tidy q lq used)) refl
          ∙ ap (content c.inner) here
      | inr free ↦ view-uncached content c a free
    ]

module _ {D : Type 0} {vt : DvmDiscIface D} {content : D → ℕ → Sector} {IsOk : D → Type 0}
    {size : ℕ} (laws : DiscLaws vt size content IsOk) (c : DvmDiscCache D) where
  -- A flush of a coherent cache leaves a coherent cache that stands for the same sectors, and if it
  -- succeeds every sector of the inner disc is the one that the cache stands for.
  pub cache_flush-stores :
      IsCoherent content IsOk size c
      → IsCoherent content IsOk size (cache_flush vt c).state
        × ((a : ℕ) → a < size → view content (cache_flush vt c).state a ≡ view content c a)
        × ((cache_flush vt c).ok ≡ true
            → (a : ℕ) → a < size
            → content (cache_flush vt c).state.inner a ≡ view content c a)
  unfolding cache_flush
  cache_flush-stores i =
      let f : WriteReply (DvmDiscCache D) = flush_from vt c.order c true in
      let t : AllFlushed content IsOk size c i.ordered.used true f =
        subst (λ o. AllFlushed content IsOk size c i.ordered.used true (flush_from vt o c true))
          (sym i.ordered.split)
          (flush_from-AllFlushed laws i.ordered.used i.ordered.unused c true i
            (λ q h. (used-lt i.ordered q h, i.ordered.full q h)) i.ordered.vacant) in
      let d : D = (vt.flush f.state.inner).state in
      let ok_d = laws.flush-IsOk f.state.inner t.coherent.inner_ok in
      let same =
        λ (a : ℕ) (la : a < size). laws.flush_keeps f.state.inner a t.coherent.inner_ok la in
      let spared =
        λ (a q : ℕ) (la : a < size) (lq : q < f.state.pages)
            (e : (f.state.entries q).base_sector ≡ page_start (page_sz f.state) a).
          same a la in
      (
        inner-Coherent t.coherent d ok_d spared,
        λ a la. inner-view t.coherent d ok_d spared a la (same a la) ∙ t.keeps a la,
        λ ok a la.
            same a la
            ∙ sym (
                view-all_clean f.state t.coherent
                  (λ q lq uq.
                    t.clean (ground arith) q
                      (has-used i.ordered q (omega (arith, t.pages)) (λ e. uq (t.bases q ∙ e))))
                  a la)
            ∙ t.keeps a la,
      )
