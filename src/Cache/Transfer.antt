-- ===== src/Cache/Transfer.antt =====
-- `_dvmDiscCacheReadWrite` as a whole, against the disc that the cache stands for.
use native.Mathlib.Nat.{mod-le}
use libdvm.Base.{
  ℕ, ◌+◌, ◌-◌, ◌%◌, ◌≤◌, ◌<◌, ◌≡◌, refl, ◌∙◌, ap, ◌⊎◌, inl, inr, Bool, true, false, not, some,
  arith, leb, ltb, ◌||◌, if◌then◌else◌, Bool-cases,
}
use libdvm.Base.Paging.{page_start, Aligned-gap}
use libdvm.Disc.{DvmDiscIface, DiscLaws, ReadReply}
use libdvm.Disc.Memory.{Sector, Buf, in_range}
use libdvm.Cache.Types.{DvmDiscCache, page_sz}
use libdvm.Cache.Access.{Access}
use libdvm.Cache.Invariant.{IsCoherent}
use libdvm.Cache.View.{view}
use libdvm.Cache.Moved.{Moved}
use libdvm.Cache.Gap.{NoneIn}
use libdvm.Cache.DirectLoop.{direct_loop}
use libdvm.Cache.CachedLoop.{cached_loop}
use libdvm.Cache.Settled.{HitsFirst}
use libdvm.Cache.LoopRule.{Transferred}
use libdvm.Cache.ReadWrite.{Round, rw_loop, read_write, start}

-- Whether the access goes through the cache on a miss.
abbrev pub is_cached : {D : Type 0} → DvmDiscCache D → ℕ → Access → Bool
is_cached c n a = (a.is_partial || ltb n (page_sz c)) || not a.is_aligned

-- The accesses that keep their promise: those that do not go through the cache, and those for which
-- the pages that are cached come first.
abbrev pub IsSafe : {D : Type 0} → DvmDiscCache D → ℕ → ℕ → Access → Type 0
IsSafe c first n a =
    (is_cached c n a ≡ false)
    ⊎ HitsFirst c.entries c.pages (page_sz c) (page_start (page_sz c) first) (first + n)

-- What a transfer of the `n` sectors from `first` on, read (`w` is false) or written, leaves.
pub record Served {D : Type 0} (content : D → ℕ → Sector) (IsOk : D → Type 0) (size : ℕ) (w : Bool)
    (c : DvmDiscCache D) (b : Buf) (first n : ℕ) (r : ReadReply (DvmDiscCache D)) : Type 0 where
  pub coherent : IsCoherent content IsOk size r.state
  pub page_shift : r.state.page_shift ≡ c.page_shift
  pub got :
      w ≡ false
      → r.ok ≡ true
      → (j : ℕ) → r.buf j ≡ (if ltb j n then view content c (first + j) else b j)
  pub read_keeps : w ≡ false → (s : ℕ) → s < size → view content r.state s ≡ view content c s
  pub wrote :
      w ≡ true
      → r.ok ≡ true
      → (s : ℕ) → s < size
      → view content r.state s ≡ (if in_range first n s then b (s - first) else view content c s)
  pub write_keeps : w ≡ true → r.ok ≡ true → (j : ℕ) → r.buf j ≡ b j
  pub off_range :
      (s : ℕ) → s < size → (s < first) ⊎ (first + n ≤ s) → view content r.state s ≡ view content c s
  pub off_buffer : (j : ℕ) → n ≤ j → r.buf j ≡ b j

module _ {D : Type 0} {content : D → ℕ → Sector} {IsOk : D → Type 0} {size : ℕ} where
  served :
      (w : Bool) (c : DvmDiscCache D) (b : Buf) (first n : ℕ) (r : Round D)
      → Transferred content IsOk size w n (start c b first n) r
      → Served content IsOk size w c b first n
          (record { state = r.loop.self; buf = r.loop.buffer; ok = r.ok })
  served w c b first n r t = elim (Bool-cases r.ok) [
    | inl ok ↦
        let m = t.moved ok in
        record {
          coherent = m.coherent;
          page_shift = m.page_shift;
          got = λ e good j. m.got e j ∙ from_start j;
          read_keeps = m.same_view;
          wrote = λ e good s ls.
              m.written e s ls
              ∙ ap (λ k. if in_range first n s then b k else view content c s) (omega arith);
          write_keeps = λ e good. m.same_buffer e;
          off_range = λ s ls out. outside m s ls out (Bool-cases w);
          off_buffer = λ j out. behind m j out (Bool-cases w);
        }
    | inr bad ↦
        let m = t.aborted bad in
        record {
          coherent = m.coherent;
          page_shift = m.page_shift;
          got = λ e good. cc;
          read_keeps = m.same_view;
          wrote = λ e good. cc;
          write_keeps = λ e good. cc;
          off_range = m.off_range;
          off_buffer = λ j out. m.off_buffer j (inr (omega arith));
        }
  ]
    where
      from_start :
          (j : ℕ)
          → (if in_range 0 n j then view content c (first + (j - 0)) else b j)
            ≡ (if ltb j n then view content c (first + j) else b j)
      from_start j =
          let test : in_range 0 n j ≡ ltb j n = ground arith in
          let index : first + (j - 0) ≡ first + j = omega arith in
          (λ k. if test k then view content c (index k) else b j)

      outside :
          Moved content IsOk size w n (start c b first n) r.loop
          → (s : ℕ) → s < size
          → (s < first) ⊎ (first + n ≤ s)
          → (w ≡ true) ⊎ (w ≡ false)
          → view content r.loop.self s ≡ view content c s
      outside m s ls out (inl e) =
          m.written e s ls
          ∙ ap (λ x. if x then b (0 + (s - first)) else view content c s) {y = false} (ground arith)
      outside m s ls out (inr e) = m.same_view e s ls

      behind :
          Moved content IsOk size w n (start c b first n) r.loop
          → (j : ℕ) → n ≤ j
          → (w ≡ true) ⊎ (w ≡ false)
          → r.loop.buffer j ≡ b j
      behind m j out (inl e) = m.same_buffer e j
      behind m j out (inr e) =
          m.got e j
          ∙ ap (λ x. if x then view content c (first + (j - 0)) else b j) {y = false} (ground arith)

module _ {D : Type 0} {vt : DvmDiscIface D} {content : D → ℕ → Sector} {IsOk : D → Type 0}
    {size : ℕ} (laws : DiscLaws vt size content IsOk) (c : DvmDiscCache D) (b : Buf) (first n : ℕ)
    (a : Access) where
  abbrev access : Access
  access = record a { is_partial = a.is_partial || ltb n (page_sz c) }

  run-Transferred :
      IsCoherent content IsOk size c
      → first + n ≤ size
      → IsSafe c first n a
      → (r : Round D) × (rw_loop vt n access (start c b first n) ≡ some r)
        × Transferred content IsOk size a.is_write n (start c b first n) r
  run-Transferred i fits (inl whole) =
      direct_loop laws access whole n (start c b first n) (omega arith) (inl (omega arith)) i fits
  run-Transferred i fits (inr hits) = elim (Bool-cases (is_cached c n a)) [
    | inl e ↦
        cached_loop laws access e (first + n) n (start c b first n) (omega arith)
          (refl, inl (omega arith, hits)) i fits
    | inr e ↦
        direct_loop laws access e n (start c b first n) (omega arith) (inl (omega arith)) i fits
  ]

  -- An access of the cache within the disc ends. A read fills the buffer with the sectors that the cache stands
  -- for and changes none of them, a write changes those that it was given to what is in the buffer,
  -- and an access that fails changes nothing outside of its range: for a coherent cache in front of
  -- a disc that keeps the contract, and an access that does not go through the cache, or one where
  -- the pages of the range that are cached come first.
  pub read_write-Served :
      IsCoherent content IsOk size c
      → first < size
      → first + n ≤ size
      → IsSafe c first n a
      → (r : ReadReply (DvmDiscCache D)) × (read_write vt c b first n a ≡ some r)
        × Served content IsOk size a.is_write c b first n r
  unfolding read_write
  read_write-Served i inside fits safe =
      let (r, e, t) = run-Transferred i fits safe in
      let low : leb c.num_sectors first ≡ false = ground (arith, i.sized) in
      let room : ltb (c.num_sectors - first) n ≡ false = ground (arith, i.sized) in
      (
        record { state = r.loop.self; buf = r.loop.buffer; ok = r.ok },
        rw (low, room, e) refl,
        served a.is_write c b first n r t,
      )

  -- An access that begins or ends behind the end of the disc is refused, and changes nothing.
  read_write-refused :
      (c.num_sectors ≤ first) ⊎ (c.num_sectors < first + n)
      → read_write vt c b first n a ≡ some (record { state = c; buf = b; ok = false })
  unfolding read_write
  read_write-refused out = elim (Bool-cases (leb c.num_sectors first)) [
    | inl e ↦ rw e refl
    | inr e ↦ let short : ltb (c.num_sectors - first) n ≡ true = ground arith in rw (e, short) refl
  ]

module _ {D : Type 0} {content : D → ℕ → Sector} {IsOk : D → Type 0} {size : ℕ} (c : DvmDiscCache D)
    (first n : ℕ) (a : Access) (i : IsCoherent content IsOk size c) where
  -- An access within one page is safe, in a coherent cache.
  pub one_page-IsSafe : first % page_sz c + n ≤ page_sz c → IsSafe c first n a
  one_page-IsSafe fits = inr (λ q page lq uq near low high aligned. (
    q,
    lq,
    ground (
      arith,
      Aligned-gap (page_sz c) page (c.entries q).base_sector i.pos aligned
          (i.entry_ok q lq uq).aligned,
      mod-le first (page_sz c),
    ),
  ))

  -- So is an access of which no page is cached.
  pub cold-IsSafe :
      NoneIn c.entries c.pages (page_start (page_sz c) first) (first + n) → IsSafe c first n a
  cold-IsSafe none_in =
      inr (λ q page lq uq near low high aligned.
        absurd (omega (arith, none_in q lq uq (omega arith))))

module _ {D : Type 0} {vt : DvmDiscIface D} {content : D → ℕ → Sector} {IsOk : D → Type 0}
    {size : ℕ} (laws : DiscLaws vt size content IsOk) (c : DvmDiscCache D) (b : Buf) (first n : ℕ)
    (a : Access) (i : IsCoherent content IsOk size c) (inside : first < size)
    (fits : first + n ≤ size) where
  -- An access of a coherent cache within one page ends, and reads or writes the disc that the cache
  -- stands for, whichever pages are cached.
  pub read_write-one_page :
      first % page_sz c + n ≤ page_sz c
      → (r : ReadReply (DvmDiscCache D)) × (read_write vt c b first n a ≡ some r)
        × Served content IsOk size a.is_write c b first n r
  read_write-one_page one =
      read_write-Served laws c b first n a i inside fits (one_page-IsSafe c first n a i one)

  -- An access of a coherent cache of which no page is cached ends, and reads or writes the disc that the
  -- cache stands for, whatever its size.
  pub read_write-cold :
      NoneIn c.entries c.pages (page_start (page_sz c) first) (first + n)
      → (r : ReadReply (DvmDiscCache D)) × (read_write vt c b first n a ≡ some r)
        × Served content IsOk size a.is_write c b first n r
  read_write-cold cold =
      read_write-Served laws c b first n a i inside fits (cold-IsSafe c first n a i cold)
