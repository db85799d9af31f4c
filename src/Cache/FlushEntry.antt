-- ===== src/Cache/FlushEntry.antt =====
-- What `_dvmDiscCacheEntryFlush` does to a coherent cache.
use libdvm.Base.{
  ℕ, ◌+◌, ◌-◌, ◌%◌, ◌≤◌, ◌<◌, ◌≡◌, refl, ◌∙◌, ap, ◌≢◌, ◌⊎◌, inl, inr, Bool, true, false, arith,
  ℕ_discrete, leb, Bool-cases,
}
use libdvm.Base.Paging.{page_start}
use libdvm.Disc.{DvmDiscIface, DiscLaws, WriteReply}
use libdvm.Disc.Memory.{Sector, offset}
use libdvm.Cache.Types.{DvmDiscCache, page_sz, entry_get_data, empty_page, u16_mod, sec_mod}
use libdvm.Cache.Order.{IsUsed}
use libdvm.Cache.Invariant.{IsCoherentBut, EntryOk}
use libdvm.Cache.View.{view}
use libdvm.Cache.Flush.{entry_flush}
use libdvm.Cache.FlushFrame.{
  SameFrame, cleaned, cleaned-Coherent, uncached_spared, view_same, written-Coherent,
}

-- What a flush of the entry `p` leaves.
pub record Flushed {D : Type 0} (content : D → ℕ → Sector) (IsOk : D → Type 0) (size : ℕ)
    (stale : ℕ → ℕ → Bool) (c : DvmDiscCache D) (p : ℕ) (r : WriteReply (DvmDiscCache D))
    : Type 0 where
  pub coherent : IsCoherentBut content IsOk size stale r.state
  pub frame : SameFrame c r.state
  pub keeps : (a : ℕ) → a < size → view content r.state a ≡ view content c a
  pub clean : r.ok ≡ true → (r.state.entries p).dirty_end ≡ 0

module _ {D : Type 0} {vt : DvmDiscIface D} {content : D → ℕ → Sector} {IsOk : D → Type 0}
    {size : ℕ} (laws : DiscLaws vt size content IsOk) {stale : ℕ → ℕ → Bool} {c : DvmDiscCache D}
    (i : IsCoherentBut content IsOk size stale c) (p : ℕ) (lp : p < c.pages) where
  entry_flush-dirty :
      (c.entries p).dirty_start < (c.entries p).dirty_end
      → IsUsed c.entries p
      → Flushed content IsOk size stale c p (entry_flush vt c p)
  unfolding entry_flush
  entry_flush-dirty lt up =
      rw (dirty, nowrap)
        (elim (Bool-cases w.ok) [
          | inl good ↦
              let coherent =
                cleaned-Coherent i p lp up w.state ok_d frame (puts good) (page_sz c % u16_mod) in
              let same : SameFrame c
                  (cleaned i p lp up w.state ok_d frame (puts good) (page_sz c % u16_mod)) =
                record {
                  num_sectors = refl;
                  pages = refl;
                  page_shift = refl;
                  page_data = refl;
                  order = refl;
                  bases = λ q. ground arith;
                } in
              rw good (record {
                coherent = coherent;
                frame = same;
                keeps = λ a la. view_same i coherent same a la (untouched a la);
                clean = λ ok. ground arith;
              })
          | inr bad ↦
              let coherent = written-Coherent i p lp up w.state ok_d frame in
              let same : SameFrame c (record c { inner = w.state }) = record {
                num_sectors = refl;
                pages = refl;
                page_shift = refl;
                page_data = refl;
                order = refl;
                bases = λ q. refl;
              } in
              rw bad (record {
                coherent = coherent;
                frame = same;
                keeps = λ a la. view_same i coherent same a la (untouched a la);
                clean = λ ok. cc;
              })
        ])
    where
      ok_p : EntryOk size (page_sz c) (c.entries p)
      ok_p = i.entry_ok p lp up

      dirty : leb (c.entries p).dirty_end (c.entries p).dirty_start ≡ false
      dirty = ground arith

      from : ℕ
      from = (c.entries p).base_sector + (c.entries p).dirty_start

      len : ℕ
      len = (c.entries p).dirty_end - (c.entries p).dirty_start

      fits : from + len ≤ size
      fits = omega (arith, ok_p.in_end)

      nowrap : ((c.entries p).base_sector + (c.entries p).dirty_start) % sec_mod ≡ from
      nowrap = omega (arith, fits, i.small)

      w : WriteReply D
      w =
          vt.write_sectors c.inner
            (offset c.page_data (entry_get_data c p + (c.entries p).dirty_start)) from len false

      ok_d : IsOk w.state
      ok_d = laws.write-IsOk _ _ from len false i.inner_ok fits

      frame :
          (a : ℕ)
          → a < size
          → (a < (c.entries p).base_sector + (c.entries p).dirty_start)
            ⊎ ((c.entries p).base_sector + (c.entries p).dirty_end ≤ a)
          → content w.state a ≡ content c.inner a
      frame a la out = laws.write_frame _ _ from len false a i.inner_ok fits la (omega arith)

      puts :
          w.ok ≡ true
          → (o : ℕ) → (c.entries p).dirty_start ≤ o
          → o < (c.entries p).dirty_end
          → content w.state ((c.entries p).base_sector + o) ≡ c.page_data (entry_get_data c p + o)
      puts good o lo hi =
          ap (content w.state) (omega arith)
          ∙ laws.write_puts _ _ from len false (o - (c.entries p).dirty_start) i.inner_ok fits good
              (omega arith)
          ∙ ap c.page_data (omega arith)

      untouched :
          (a : ℕ)
          → a < size
          → ((q : ℕ) → q < c.pages → (c.entries q).base_sector ≢ page_start (page_sz c) a)
          → content w.state a ≡ content c.inner a
      untouched a la free = uncached_spared i p lp up w.state ok_d frame a la free

  -- A flush of an entry of a coherent cache, also one that fails, changes nothing that the cache
  -- stands for. If it succeeds the entry is clean.
  pub entry_flush-Flushed : Flushed content IsOk size stale c p (entry_flush vt c p)
  unfolding entry_flush
  entry_flush-Flushed = elim (Bool-cases (leb (c.entries p).dirty_end (c.entries p).dirty_start)) [
    | inl e ↦ rw e (record {
      coherent = i;
      frame = record {
        num_sectors = refl;
        pages = refl;
        page_shift = refl;
        page_data = refl;
        order = refl;
        bases = λ q. refl;
      };
      keeps = λ a la. refl;
      clean = λ ok. already (ground arith) (ℕ_discrete (c.entries p).base_sector empty_page);
    })
    | inr e ↦ entry_flush-dirty (ground arith) (λ empty. ground (arith, i.empty_clean p lp))
  ]
    where
      already :
          (c.entries p).dirty_end ≤ (c.entries p).dirty_start
          → Dec ((c.entries p).base_sector ≡ empty_page)
          → (c.entries p).dirty_end ≡ 0
      already le (yes e) = i.empty_clean p lp e
      already le (no u) = (i.entry_ok p lp u).tidy le
