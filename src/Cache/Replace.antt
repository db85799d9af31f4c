-- ===== src/Cache/Replace.antt =====
-- What the replacement of an entry does to a coherent cache: the branch of a partial or misaligned
-- access in `_dvmDiscCacheReadWrite`, up to `goto _cacheHit`.
use libdvm.Base.{
  ℕ, ◌<◌, ◌≡◌, sym, ◌∙◌, ◌≢◌, inl, inr, Bool, true, false, arith, if◌then◌else◌, Bool-cases,
}
use libdvm.Base.Paging.{Aligned}
use libdvm.Disc.{DvmDiscIface, DiscLaws, WriteReply}
use libdvm.Disc.Memory.{Sector}
use libdvm.Cache.Types.{DvmDiscCache, page_sz}
use libdvm.Cache.Victim.{IsBorder}
use libdvm.Cache.Invariant.{IsCoherent}
use libdvm.Cache.View.{view}
use libdvm.Cache.FlushEntry.{Flushed, entry_flush-Flushed}
use libdvm.Cache.FlushFrame.{SameFrame}
use libdvm.Cache.Access.{set_base, load, replace}
use libdvm.Cache.Flush.{entry_flush}
use libdvm.Cache.Load.{Replaced, load-Replaced, unload-Replaced}

IsBorder-frame :
    {D : Type 0} {c c' : DvmDiscCache D} (s : SameFrame c c') (v : ℕ)
    → IsBorder c.entries c.order v
    → IsBorder c'.entries c'.order v
IsBorder-frame s v b = record {
  front = b.front;
  back = b.back;
  at = s.order ∙ b.at;
  full = λ q h e. b.full q h (sym (s.bases q) ∙ e);
  vacant = λ q h. s.bases q ∙ b.vacant q h;
}

module _ {D : Type 0} {content : D → ℕ → Sector} {IsOk : D → Type 0} {size : ℕ}
    {c c' : DvmDiscCache D} (s : SameFrame c c') (v : ℕ) where
  Replaced-frame :
      {cp : ℕ} {need_load : Bool} {r : WriteReply (DvmDiscCache D)}
      → ((a : ℕ) → a < size → view content c' a ≡ view content c a)
      → Replaced content IsOk size c' v cp need_load r
      → Replaced content IsOk size c v cp need_load r
  Replaced-frame view_frame t = record {
    same = record {
      num_sectors = t.same.num_sectors ∙ s.num_sectors;
      pages = t.same.pages ∙ s.pages;
      page_shift = t.same.page_shift ∙ s.page_shift;
      order = t.same.order ∙ s.order;
      bases = λ q ne. t.same.bases q ne ∙ s.bases q;
    };
    coherent = t.coherent;
    failed = t.failed;
    holds = t.holds;
    keeps = λ a la h. t.keeps a la (rw (s.page_shift) h) ∙ view_frame a la;
    failed_keeps = λ h a la. t.failed_keeps h a la ∙ view_frame a la;
  }

module _ {D : Type 0} {vt : DvmDiscIface D} {content : D → ℕ → Sector} {IsOk : D → Type 0}
    {size : ℕ} (laws : DiscLaws vt size content IsOk) {c : DvmDiscCache D}
    (i : IsCoherent content IsOk size c) (v cp : ℕ) (lv : v < c.pages)
    (b : IsBorder c.entries c.order v) (aligned : Aligned (page_sz c) cp) (inside : cp < size)
    (free : (q : ℕ) → q < c.pages → (c.entries q).base_sector ≢ cp) (need_load : Bool) where
  -- A replacement that fails, in the flush or in the load, keeps all that the cache stands for. One
  -- that succeeds gives the entry `v` the page, and keeps the sectors of every other page, and those
  -- of this page too if it was loaded: where `v` stands between the used and the empty entries and no
  -- entry holds the page.
  pub replace-Replaced : Replaced content IsOk size c v cp need_load (replace vt c v cp need_load)
  unfolding replace
  replace-Replaced = elim (Bool-cases (entry_flush vt c v).ok) [
    | inr bad ↦ rw bad (record {
      same = record {
        num_sectors = f.frame.num_sectors;
        pages = f.frame.pages;
        page_shift = f.frame.page_shift;
        order = f.frame.order;
        bases = λ q ne. f.frame.bases q;
      };
      coherent = λ h. cc;
      failed = λ h. f.coherent;
      holds = λ h. cc;
      keeps = λ a la h. f.keeps a la;
      failed_keeps = λ h. f.keeps;
    })
    | inl ok ↦ rw ok (Replaced-frame f.frame v f.keeps (go need_load (f.clean ok)))
  ]
    where
      f : Flushed content IsOk size (λ q o. false) c v (entry_flush vt c v)
      f = entry_flush-Flushed laws i v lv

      c1 : DvmDiscCache D
      c1 = (entry_flush vt c v).state

      go :
          (need : Bool)
          → (c1.entries v).dirty_end ≡ 0
          → Replaced content IsOk size c1 v cp need (
              if need
              then load vt (set_base c1 v cp) v cp
              else record { state = set_base c1 v cp; ok = true })
      go true tidy =
          load-Replaced laws f.coherent v cp (ground (arith, f.frame.pages))
            (IsBorder-frame f.frame v b) tidy (rw (f.frame.page_shift) aligned) inside
            (λ q lq. ground (arith, f.frame.bases q, f.frame.pages, free q))
      go false tidy =
          unload-Replaced laws f.coherent v cp (ground (arith, f.frame.pages))
            (IsBorder-frame f.frame v b) tidy (rw (f.frame.page_shift) aligned) inside
            (λ q lq. ground (arith, f.frame.bases q, f.frame.pages, free q))
