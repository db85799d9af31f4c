-- ===== src/Cache/Load.antt =====
-- What a replacement in `_dvmDiscCacheReadWrite` leaves behind the flush of the entry: the new page
-- is loaded, or it is not.
use libdvm.Base.{
  ℕ, ◌+◌, ◌-◌, ◌≤◌, ◌<◌, ◌≡◌, refl, sym, ◌∙◌, ap, ◌≢◌, ◌⊎◌, inl, inr, Bool, true, false, not, arith,
  ltb, ◌==◌, ◌&&◌, if◌then◌else◌, Bool-cases, dec_lt, le→ltb_false,
}
use libdvm.Base.Paging.{Aligned, page_start}
use libdvm.Disc.{DvmDiscIface, DiscLaws, WriteReply, ReadReply}
use libdvm.Disc.Memory.{Sector, offset, splice}
use libdvm.Cache.Types.{DvmDiscCache, page_sz, entry_get_data, empty_page}
use libdvm.Cache.Victim.{IsBorder}
use libdvm.Cache.Invariant.{IsCoherentBut, IsCoherent}
use libdvm.Cache.Pages.{slot_apart}
use libdvm.Cache.View.{view}
use libdvm.Cache.Swap.{SameBut, view_swap, swap-Coherent}
use libdvm.Cache.Access.{set_base, load}

-- The page of `v` was not loaded.
abbrev pub unloaded : ℕ → Bool → ℕ → ℕ → Bool
unloaded v need_load q o = (q == v) && not need_load

-- What a replacement of the page of `v` by the page `cp` leaves.
pub record Replaced {D : Type 0} (content : D → ℕ → Sector) (IsOk : D → Type 0) (size : ℕ)
    (c : DvmDiscCache D) (v cp : ℕ) (need_load : Bool) (r : WriteReply (DvmDiscCache D))
    : Type 0 where
  pub same : SameBut v c r.state
  pub coherent : r.ok ≡ true → IsCoherentBut content IsOk size (unloaded v need_load) r.state
  pub failed : r.ok ≡ false → IsCoherent content IsOk size r.state
  pub holds : r.ok ≡ true → (r.state.entries v).base_sector ≡ cp
  pub keeps :
      (a : ℕ)
      → a < size
      → (need_load ≡ true) ⊎ (page_start (page_sz c) a ≢ cp)
      → view content r.state a ≡ view content c a
  pub failed_keeps : r.ok ≡ false → (a : ℕ) → a < size → view content r.state a ≡ view content c a

-- Fewer sectors may be claimed to be those of the inner disc.
pub weaken :
    {D : Type 0} {content : D → ℕ → Sector} {IsOk : D → Type 0} {size : ℕ} {c : DvmDiscCache D}
    {stale stale' : ℕ → ℕ → Bool}
    → IsCoherentBut content IsOk size stale c
    → ((q o : ℕ) → o < page_sz c → stale' q o ≡ false → stale q o ≡ false)
    → IsCoherentBut content IsOk size stale' c
weaken i less = record {
  sized = i.sized;
  small = i.small;
  pos = i.pos;
  narrow = i.narrow;
  some_page = i.some_page;
  ordered = i.ordered;
  entry_ok = i.entry_ok;
  empty_clean = i.empty_clean;
  unique = i.unique;
  clean = λ q o lq uq lo inside out fresh. i.clean q o lq uq lo inside out (less q o lo fresh);
  inner_ok = i.inner_ok;
}

-- The state behind the flush of `v`.
module _ {D : Type 0} {vt : DvmDiscIface D} {content : D → ℕ → Sector} {IsOk : D → Type 0}
    {size : ℕ} (laws : DiscLaws vt size content IsOk) {c : DvmDiscCache D}
    (i : IsCoherent content IsOk size c) (v cp : ℕ) (lv : v < c.pages)
    (b : IsBorder c.entries c.order v) (tidy : (c.entries v).dirty_end ≡ 0)
    (aligned : Aligned (page_sz c) cp) (inside : cp < size)
    (free : (q : ℕ) → q < c.pages → (c.entries q).base_sector ≢ cp) where
  unload-same : (base : ℕ) → SameBut v c (set_base c v base)
  unload-same base = record {
    num_sectors = refl;
    pages = refl;
    page_shift = refl;
    order = refl;
    bases = λ q ne. ground arith;
  }

  unload-Coherent : IsCoherentBut content IsOk size (unloaded v false) (set_base c v cp)
  unload-Coherent =
      swap-Coherent (unloaded v false) i v (unload-same cp) b (λ a la. refl) (λ q o ne lo. refl)
        (λ q ne. ground arith) (ground arith)
        (λ u. (ground arith, ground arith, λ q lq ne. ground (arith, free q lq)))
        (λ o u lo h f. ground arith) i.inner_ok

  unload-view :
      (a : ℕ)
      → a < size
      → page_start (page_sz c) a ≢ cp
      → view content (set_base c v cp) a ≡ view content c a
  unload-view a la ne =
      view_swap i unload-Coherent v (unload-same cp) (λ a la. refl) (λ q o ne lo. refl) tidy
        (ground arith) a la (λ h. ground arith)

  load-size : ℕ
  load-size = if ltb (page_sz c) (c.num_sectors - cp) then page_sz c else c.num_sectors - cp

  load-read : ReadReply D
  load-read = vt.read_sectors c.inner (offset c.page_data (entry_get_data c v)) cp load-size false

  load-fits : cp + load-size ≤ size
  unfolding load-size
  load-fits = ground (arith, i.sized)

  load-kept : (a : ℕ) → a < size → content load-read.state a ≡ content c.inner a
  unfolding load-read
  load-kept a la = laws.read_keeps _ _ cp load-size false a i.inner_ok load-fits la

  load-other :
      (q o : ℕ)
      → q ≢ v
      → o < page_sz c
      → splice c.page_data (entry_get_data c v) load-read.buf (entry_get_data c q + o)
        ≡ c.page_data (entry_get_data c q + o)
  unfolding load-read load-size
  load-other q o ne lo =
      let x : ℕ = entry_get_data c q + o - entry_get_data c v in
      let apart = slot_apart (page_sz c) q v o x ne lo in
      elim (dec_lt (entry_get_data c q + o) (entry_get_data c v)) [
        | yes below ↦ ground arith
        | no above ↦
            let behind : load-size ≤ x = ground (arith, apart) in
            rw (le→ltb_false (entry_get_data c q + o) (entry_get_data c v) (omega arith)) (
              laws.read_frame _ _ cp load-size false x i.inner_ok load-fits behind
              ∙ ap c.page_data (omega arith))
      ]

  load-clean :
      (o : ℕ)
      → load-read.ok ≡ true
      → o < page_sz c
      → cp + o < size
      → splice c.page_data (entry_get_data c v) load-read.buf (entry_get_data c v + o)
        ≡ content load-read.state (cp + o)
  unfolding load-read load-size
  load-clean o ok lo la =
      rw (le→ltb_false (entry_get_data c v + o) (entry_get_data c v) (omega arith)) (
        ap load-read.buf (omega arith)
        ∙ laws.read_gets _ _ cp load-size false o i.inner_ok load-fits ok (ground (arith, i.sized))
        ∙ sym (load-kept (cp + o) la))

  -- The cache behind the read, with the base of `v` as `base`.
  abbrev loaded : ℕ → DvmDiscCache D
  loaded base = record (set_base c v base) {
    inner = load-read.state;
    page_data = splice c.page_data (entry_get_data c v) load-read.buf;
  }

  loaded-same : (base : ℕ) → SameBut v c (loaded base)
  loaded-same base = record {
    num_sectors = refl;
    pages = refl;
    page_shift = refl;
    order = refl;
    bases = λ q ne. ground arith;
  }

  load-ok : IsOk load-read.state
  unfolding load-read
  load-ok = laws.read-IsOk _ _ cp load-size false i.inner_ok load-fits

  loaded-Coherent : load-read.ok ≡ true → IsCoherent content IsOk size (loaded cp)
  loaded-Coherent ok =
      swap-Coherent (λ q o. false) i v (loaded-same cp) b load-kept load-other
        (λ q ne. ground arith) (ground arith)
        (λ u. (ground arith, ground arith, λ q lq ne. ground (arith, free q lq)))
        (λ o u lo h f. ground (arith, load-clean o ok lo)) load-ok

  abbrev emptied : DvmDiscCache D
  emptied = set_base (loaded cp) v empty_page

  emptied-same : SameBut v c emptied
  emptied-same = record {
    num_sectors = refl;
    pages = refl;
    page_shift = refl;
    order = refl;
    bases = λ q ne. ground arith;
  }

  emptied-Coherent : IsCoherent content IsOk size emptied
  emptied-Coherent =
      swap-Coherent (λ q o. false) i v emptied-same b load-kept load-other (λ q ne. ground arith)
        (ground arith) (λ u. absurd (u (ground arith))) (λ o u lo h f. absurd (u (ground arith)))
        load-ok

  load-good :
      load-read.ok ≡ true
      → Replaced content IsOk size c v cp true (record { state = loaded cp; ok = true })
  load-good ok = record {
    same = loaded-same cp;
    coherent = λ h. weaken (loaded-Coherent ok) (λ q o lo h. refl);
    failed = λ h. cc;
    holds = λ h. ground arith;
    keeps = λ a la h.
        view_swap i (loaded-Coherent ok) v (loaded-same cp) load-kept load-other tidy (ground arith)
          a la (λ h. refl);
    failed_keeps = λ h. cc;
  }

  load-bad : Replaced content IsOk size c v cp true (record { state = emptied; ok = false })
  load-bad = record {
    same = emptied-same;
    coherent = λ h. cc;
    failed = λ h. emptied-Coherent;
    holds = λ h. cc;
    keeps = λ a la h. emptied-view a la;
    failed_keeps = λ h a la. emptied-view a la;
  }
    where
      emptied-view : (a : ℕ) → a < size → view content emptied a ≡ view content c a
      emptied-view a la =
          view_swap i emptied-Coherent v emptied-same load-kept load-other tidy (ground arith) a la
            (λ h. refl)

  pub load-Replaced : Replaced content IsOk size c v cp true (load vt (set_base c v cp) v cp)
  unfolding load load-read load-size
  load-Replaced = elim (Bool-cases load-read.ok) [
    | inl ok ↦ rw ok (load-good ok)
    | inr bad ↦ rw bad load-bad
  ]

  pub unload-Replaced :
      Replaced content IsOk size c v cp false (record { state = set_base c v cp; ok = true })
  unload-Replaced = record {
    same = unload-same cp;
    coherent = λ h. unload-Coherent;
    failed = λ h. cc;
    holds = λ h. ground arith;
    keeps = λ a la h. unload-view a la (ground arith);
    failed_keeps = λ h. cc;
  }
