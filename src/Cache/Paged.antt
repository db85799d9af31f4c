-- ===== src/Cache/Paged.antt =====
-- Where the pages of a cache may begin, which the steps of `_dvmDiscCacheReadWrite` keep.
use libdvm.Base.{
  ℕ, ◌≤◌, ◌<◌, ◌≡◌, refl, ◌∙◌, ◌⊎◌, inl, inr, Bool, true, false, ◌==◌, arith, Bool-cases,
  if◌then◌else◌,
}
use libdvm.Base.Paging.{Aligned}
use libdvm.Disc.{DvmDiscIface, WriteReply}
use libdvm.Disc.Memory.{Buf}
use libdvm.Disc.Object.{DvmDisc}
use libdvm.Cache.Create.{created}
use libdvm.Cache.Types.{DvmDiscCache, page_sz, empty_page, sec_mod}
use libdvm.Cache.Flush.{entry_flush}
use libdvm.Cache.Access.{hit_write, make_mru, set_base, load, replace}

-- The pages of the entries begin at multiples of the size of a page.
pub record IsPaged {D : Type 0} (c : DvmDiscCache D) : Type 0 where
  pub small : c.num_sectors ≤ empty_page
  pub word : (q : ℕ) → (c.entries q).base_sector < sec_mod
  pub on_page :
      (q : ℕ)
      → ((c.entries q).base_sector ≡ empty_page) ⊎ Aligned (page_sz c) (c.entries q).base_sector

pub record SamePages {D : Type 0} (c c' : DvmDiscCache D) : Type 0 where
  pub num_sectors : c'.num_sectors ≡ c.num_sectors
  pub page_shift : c'.page_shift ≡ c.page_shift
  pub bases : (q : ℕ) → (c'.entries q).base_sector ≡ (c.entries q).base_sector

module _ {D : Type 0} where
  pub SamePages-IsPaged : {c c' : DvmDiscCache D} → SamePages c c' → IsPaged c → IsPaged c'
  SamePages-IsPaged {c} {c'} s i = record {
    small = omega (arith, s.num_sectors, i.small);
    word = λ q. omega (arith, s.bases q, i.word q);
    on_page = λ q. rw (s.bases q, s.page_shift) (i.on_page q);
  }

  pub touched-SamePages :
      (c : DvmDiscCache D) (b : Buf) (pos p off n : ℕ) (w whole : Bool)
      → SamePages c (make_mru (if w then hit_write c b pos p off n else c) p whole)
  unfolding make_mru hit_write
  touched-SamePages c b pos p off n w whole = record {
    num_sectors = ground arith;
    page_shift = ground arith;
    bases = λ q. ground arith;
  }

module _ {D : Type 0} (vt : DvmDiscIface D) where
  flushed-SamePages : (c : DvmDiscCache D) (p : ℕ) → SamePages c (entry_flush vt c p).state
  unfolding entry_flush
  flushed-SamePages c p = record {
    num_sectors = ground arith;
    page_shift = ground arith;
    bases = λ q. ground arith;
  }

  set_base-IsPaged :
      (c : DvmDiscCache D) (p base : ℕ)
      → base < sec_mod
      → (base ≡ empty_page) ⊎ Aligned (page_sz c) base
      → IsPaged c
      → IsPaged (set_base c p base)
  set_base-IsPaged c p base lt al i = record {
    small = i.small;
    word = λ q. ground (arith, i.word q);
    on_page = λ q. elim (Bool-cases (q == p)) [ inl e ↦ rw e al | inr e ↦ rw e (i.on_page q) ];
  }

  load-IsPaged :
      (c : DvmDiscCache D) (p base : ℕ)
      → IsPaged c
      → IsPaged (load vt c p base).state × ((load vt c p base).state.num_sectors ≡ c.num_sectors)
  unfolding load
  load-IsPaged c p base i = go _ _ _
    where
      same_pages : (d : D) (data' : Buf) → IsPaged (record c { inner = d; page_data = data' })
      same_pages d data' = record { small = i.small; word = i.word; on_page = i.on_page }

      go :
          (ok : Bool) (d : D) (data' : Buf)
          → let got : DvmDiscCache D = record c { inner = d; page_data = data' } in
            let r : WriteReply (DvmDiscCache D) =
              if ok
              then record { state = got; ok = true }
              else record { state = set_base got p empty_page; ok = false } in
            IsPaged r.state × (r.state.num_sectors ≡ c.num_sectors)
      go true d data' = (same_pages d data', refl)
      go false d data' = (
        set_base-IsPaged (record c { inner = d; page_data = data' }) p empty_page (omega arith)
            (inl refl) (same_pages d data'),
        refl,
      )

  pub replace-IsPaged :
      (c : DvmDiscCache D) (p base : ℕ) (need_load : Bool)
      → base < sec_mod
      → Aligned (page_sz c) base
      → IsPaged c
      → IsPaged (replace vt c p base need_load).state
        × ((replace vt c p base need_load).state.num_sectors ≡ c.num_sectors)
  unfolding replace
  replace-IsPaged c p base need_load lt al i =
      let f : WriteReply (DvmDiscCache D) = entry_flush vt c p in
      let same = flushed-SamePages c p in
      let based : IsPaged (set_base f.state p base) =
        set_base-IsPaged f.state p base lt (inr (rw same.page_shift al))
          (SamePages-IsPaged same i) in
      elim (Bool-cases f.ok) [
        | inr e ↦ rw e (SamePages-IsPaged same i, same.num_sectors)
        | inl e ↦ rw e (elim (Bool-cases need_load) [
          | inr n ↦ rw n (based, same.num_sectors)
          | inl n ↦
              let loaded = load-IsPaged (set_base f.state p base) p base based in
              rw n (loaded.0, loaded.1 ∙ same.num_sectors)
        ])
      ]

-- A cache that was created has no pages yet.
pub created-IsPaged :
    {D : Type 0} (inner_disc : DvmDisc D) (cache_pages n : ℕ) (page_data : Buf) (page_shift : ℕ)
    → inner_disc.num_sectors ≤ empty_page
    → IsPaged (created inner_disc cache_pages n page_data page_shift).self
created-IsPaged inner_disc cache_pages n page_data page_shift small = record {
  small = small;
  word = λ q. omega arith;
  on_page = λ q. inl refl;
}
